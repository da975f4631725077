-- ===== src/Controller/Workload/Gate.antt =====
-- What a node that needs no hotkey gets of the key material, internal/controller/workload_manager.go.
use tao_node_guardian.Base.{
  String, List, [], ◌∷◌, ◌++◌, Option, none, some, Bool, true, false, All, ◌≡◌, inl, inr, refl,
  Bool-cases, str_eq, ◌∙◌,
}
use tao_node_guardian.Base.Int.{ℤ}
use tao_node_guardian.Base.Dict.{Dict, lookup, insert, lookup-insert}
use tao_node_guardian.Base.Format.{Formatted}
use tao_node_guardian.Api.Spec.{MonitoringSpec, ResourceRequirements}
use tao_node_guardian.Api.Status.{TaoNode}
use tao_node_guardian.Api.Webhook.{role_text}
use tao_node_guardian.Controller.ChainArgs.{TextOps, resolve_chain_spec, role_args, when_set, build}
use tao_node_guardian.Controller.Pod.{
  Container, VolumeSource, PodTemplate, empty_dir, config_map, secret_volume,
}
use tao_node_guardian.Controller.Containers.{
  requires_hotkey_material, main_mounts, build_init_container, build_main_container,
  chain_probe_container, build_metrics_sidecar, is_monitored, build_init_containers,
  build_containers,
}
use tao_node_guardian.Controller.Workload.{
  image_for_node, monitoring_annotations, annotations_for_node, template_annotations,
  cli_args_for_node, build_volumes, pod_spec, pod_template,
}
use tao_node_guardian.Controller.Gpu.{node_resources}
use tao_node_guardian.Controller.Workload.Isolation.{Avoids}

abbrev pub holds_secret : {Q : Type 0} → VolumeSource Q → Bool
holds_secret (secret_volume _ _ _) = true
holds_secret (empty_dir _ _) = false
holds_secret (config_map _) = false

abbrev pub names_keystore : Formatted → Bool
names_keystore message = str_eq message.format "--keystore-path=%s"

monitoring_hash :
    (m : Option MonitoringSpec) (ann : Dict Formatted)
    → lookup "tao.guardian.io/hotkey-hash" ann ≡ none
    → lookup "tao.guardian.io/hotkey-hash" (monitoring_annotations m ann) ≡ none
monitoring_hash none ann h = h
monitoring_hash (some m) ann h = elim (Bool-cases m.enabled) [
  | inl on ↦ rw on (
      lookup-insert "prometheus.io/port" _ _ _ ∙ (lookup-insert "prometheus.io/scrape" _ _ ann ∙ h))
  | inr off ↦ rw off h
]

abbrev pub NoFlag : List Formatted → Type 0
NoFlag args = All (λ a. names_keystore a ≡ false) args

append-NoFlag : (xs ys : List Formatted) → NoFlag xs → NoFlag ys → NoFlag (xs ++ ys)
append-NoFlag [] ys h k = k
append-NoFlag (x ∷ xs) ys h k = (h.0, append-NoFlag xs ys h.1 k)

role_args-NoFlag : (ops : TextOps) (role : String) → NoFlag (role_args ops role)
role_args-NoFlag ops role = elim (Bool-cases (str_eq (ops.to_lower role) "validator")) [
  | inl v ↦ rw v (refl, tt)
  | inr v ↦ elim (Bool-cases (str_eq (ops.to_lower role) "archive")) [
    | inl a ↦ rw (v, a) (refl, (refl, tt))
    | inr a ↦ rw (v, a) tt
  ]
]

name-NoFlag : (name : String) → NoFlag (when_set "--name=%s" name)
name-NoFlag name = elim (Bool-cases (str_eq name "")) [
  | inl unset ↦ rw unset tt
  | inr set ↦ rw set (refl, tt)
]

module _ {Q : Type 0} where
  abbrev AvoidsKeys : Container Q → Type 0
  AvoidsKeys c = Avoids "hotkey-secret" c × Avoids "keystore" c

  -- A template without any key material: no volume of a Secret, no mount of the two volumes, no
  -- flag with the path of the keystore, and no annotation of the hash.
  pub record Keyless (t : PodTemplate Q) : Type 0 where
    pub volumes : All (λ v. holds_secret v.source ≡ false) t.spec.volumes
    pub init_containers : All AvoidsKeys t.spec.init_containers
    pub containers : All AvoidsKeys t.spec.containers
    pub flags : All (λ c. NoFlag c.args) t.spec.containers
    pub hash : lookup "tao.guardian.io/hotkey-hash" t.annotations ≡ none

  annotations_for_node_hash :
      (tn : TaoNode Q) → lookup "tao.guardian.io/hotkey-hash" (annotations_for_node tn) ≡ none
  unfolding annotations_for_node lookup insert
  annotations_for_node_hash tn =
      monitoring_hash tn.spec.monitoring _ (elim (Bool-cases (str_eq tn.spec.version "")) [
        | inl unset ↦ rw unset refl
        | inr set ↦ rw set refl
      ])

  main-AvoidsKeys :
      (must_parse : String → Q) (image : String) (r : ResourceRequirements Q)
      (args : List Formatted) (ext key : Bool)
      → key ≡ false
      → AvoidsKeys (build_main_container must_parse image r args ext key)
  unfolding build_main_container main_mounts
  main-AvoidsKeys must_parse image r args ext true e = absurd (cc)
  main-AvoidsKeys must_parse image r args true false e = ((refl, (refl, tt)), (refl, (refl, tt)))
  main-AvoidsKeys must_parse image r args false false e = ((refl, tt), (refl, tt))

  cli_args_for_node-NoFlag :
      (ops : TextOps) (tn : TaoNode Q) (spec : String)
      → requires_hotkey_material tn ≡ false
      → NoFlag (cli_args_for_node ops tn spec)
  unfolding cli_args_for_node build
  cli_args_for_node-NoFlag ops tn spec key =
      let role = role_args ops (role_text tn.spec.role) in
      let name = when_set "--name=%s" tn.name in
      let rest =
        append-NoFlag (role ++ name) []
          (append-NoFlag role name (role_args-NoFlag ops (role_text tn.spec.role))
            (name-NoFlag tn.name))
          tt in
      rw key (refl, (refl, (refl, (refl, (refl, (refl, (refl, (refl, rest))))))))

  containers-NoFlag :
      (must_parse : String → Q) (tn : TaoNode Q) (image : String) (r : ResourceRequirements Q)
      (args : List Formatted) (ext : Bool)
      → NoFlag args
      → All (λ c. NoFlag c.args) (build_containers must_parse tn image r args ext)
  unfolding build_containers build_main_container chain_probe_container build_metrics_sidecar
  containers-NoFlag must_parse tn image r args ext h =
      elim (Bool-cases (is_monitored tn.spec.monitoring)) [
        | inl on ↦ rw on (h, (tt, ((refl, (refl, (refl, (refl, tt)))), tt)))
        | inr off ↦ rw off (h, (tt, tt))
      ]

  containers-AvoidsKeys :
      (must_parse : String → Q) (tn : TaoNode Q) (image : String) (r : ResourceRequirements Q)
      (args : List Formatted) (ext : Bool)
      → requires_hotkey_material tn ≡ false
      → All AvoidsKeys (build_containers must_parse tn image r args ext)
  unfolding build_containers chain_probe_container build_metrics_sidecar
  containers-AvoidsKeys must_parse tn image r args ext key =
      let main = main-AvoidsKeys must_parse image r args ext (requires_hotkey_material tn) key in
      elim (Bool-cases (is_monitored tn.spec.monitoring)) [
        | inl on ↦ rw on (main, ((tt, tt), ((tt, tt), tt)))
        | inr off ↦ rw off (main, ((tt, tt), tt))
      ]

  module _ (must_parse : String → Q) (new_quantity : ℤ → Q) (ops : TextOps)
      (default_image : String) where
    -- A node that needs no hotkey has a pod template without key material: no volume has the content of a
    -- Secret, no init container and no container mounts the Secret's volume or the keystore, no container
    -- has the flag of the keystore's path, and there is no annotation of the key's hash.
    pub pod_template-Keyless :
        (tn : TaoNode Q)
        → requires_hotkey_material tn ≡ false
        → Keyless (pod_template must_parse new_quantity ops default_image tn)
    unfolding pod_template pod_spec template_annotations build_init_containers build_init_container
        build_containers build_main_container main_mounts chain_probe_container
        build_metrics_sidecar build_volumes
    pod_template-Keyless tn key =
        let image = image_for_node default_image tn in
        let resources = node_resources new_quantity tn.spec.gpu tn.spec.resources in
        let chain = resolve_chain_spec ops tn.spec.network in
        let args = cli_args_for_node ops tn chain.0 in
        record {
          volumes = elim (Bool-cases (resolve_chain_spec ops tn.spec.network).1) [
            | inl ext ↦ rw (key, ext) (refl, (refl, tt))
            | inr built_in ↦ rw (key, built_in) (refl, tt)
          ];
          init_containers = rw key (((refl, tt), (refl, tt)), tt);
          containers = containers-AvoidsKeys must_parse tn image resources args chain.1 key;
          flags =
              containers-NoFlag must_parse tn image resources args chain.1
                (cli_args_for_node-NoFlag ops tn chain.0 key);
          hash =
              rw key
                (lookup-insert "tao.guardian.io/args-hash" _ _ _ ∙ annotations_for_node_hash tn);
        }
