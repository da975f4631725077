-- ===== src/Controller/Workload/Mounts.antt =====
-- Whether the volume mounts and the ports of the pod that internal/controller/workload_manager.go builds
-- refer to something that is there.
use tao_node_guardian.Base.{
  String, List, [], ◌∷◌, Bool, true, false, All, any, ◌||◌, ◌≡◌, refl, inl, inr, if◌then◌else◌,
  Bool-cases, str_eq,
}
use tao_node_guardian.Base.Int.{ℤ}
use tao_node_guardian.Api.Status.{TaoNode}
use tao_node_guardian.Controller.ChainArgs.{TextOps, resolve_chain_spec}
use tao_node_guardian.Controller.Pod.{Container, Volume, ClaimTemplate}
use tao_node_guardian.Controller.Containers.{
  requires_hotkey_material, main_mounts, build_init_container, build_key_injector_init_container,
  build_main_container, chain_probe_container, build_metrics_sidecar, is_monitored,
  build_init_containers, build_containers,
}
use tao_node_guardian.Controller.Workload.{
  claim_template, image_for_node, cli_args_for_node, hotkey_volumes, build_volumes, pod_spec,
}
use tao_node_guardian.Api.Spec.{ResourceRequirements}
use tao_node_guardian.Base.Format.{Formatted}
use tao_node_guardian.Controller.Gpu.{node_resources}

module _ {Q : Type 0} where
  abbrev pub is_there : List (Volume Q) → ClaimTemplate Q → String → Bool
  is_there volumes claim volume =
      str_eq claim.name volume || any (λ v. str_eq v.name volume) volumes

  abbrev pub Mounted : List (Volume Q) → ClaimTemplate Q → Container Q → Type 0
  Mounted volumes claim c = All (λ m. is_there volumes claim m.name ≡ true) c.volume_mounts

  sidecars-Mounted :
      (must_parse : String → Q) (tn : TaoNode Q) (volumes : List (Volume Q))
      (claim : ClaimTemplate Q)
      → All
          (Mounted volumes claim)
          (if is_monitored tn.spec.monitoring then build_metrics_sidecar must_parse tn ∷ [] else [])
  unfolding build_metrics_sidecar
  sidecars-Mounted must_parse tn volumes claim =
      elim (Bool-cases (is_monitored tn.spec.monitoring)) [
        | inl on ↦ rw on (tt, tt)
        | inr off ↦ rw off tt
      ]

  -- What the volumes of a pod must have, for an external chain specification and for a key.
  record Provided (volumes : List (Volume Q)) (c : ClaimTemplate Q) (ext key : Bool) : Type 0 where
    data_ : is_there volumes c "chain-data" ≡ true
    spec : ext ≡ true → is_there volumes c "chain-spec" ≡ true
    secret : key ≡ true → is_there volumes c "hotkey-secret" ≡ true
    keystore : key ≡ true → is_there volumes c "keystore" ≡ true

  build_volumes-Provided :
      (must_parse : String → Q) (tn : TaoNode Q) (ext : Bool)
      → Provided
          (build_volumes must_parse tn ext)
          (claim_template must_parse tn)
          ext
          (requires_hotkey_material tn)
  unfolding build_volumes hotkey_volumes claim_template
  build_volumes-Provided must_parse tn true = record {
    data_ = refl;
    spec = λ e. refl;
    secret = λ k. rw k refl;
    keystore = λ k. rw k refl;
  }
  build_volumes-Provided must_parse tn false = record {
    data_ = refl;
    spec = λ e. absurd (cc);
    secret = λ k. rw k refl;
    keystore = λ k. rw k refl;
  }

  main-Mounted :
      (must_parse : String → Q) (image : String) (r : ResourceRequirements Q)
      (args : List Formatted) (ext key : Bool) (volumes : List (Volume Q)) (claim : ClaimTemplate Q)
      → Provided volumes claim ext key
      → Mounted volumes claim (build_main_container must_parse image r args ext key)
  unfolding build_main_container main_mounts
  main-Mounted must_parse image r args true true volumes claim h =
      (h.data_, (h.spec refl, (h.keystore refl, tt)))
  main-Mounted must_parse image r args true false volumes claim h = (h.data_, (h.spec refl, tt))
  main-Mounted must_parse image r args false true volumes claim h = (h.data_, (h.keystore refl, tt))
  main-Mounted must_parse image r args false false volumes claim h = (h.data_, tt)

  init_containers-Mounted :
      (must_parse : String → Q) (tn : TaoNode Q) (image : String) (ext : Bool)
      (volumes : List (Volume Q)) (claim : ClaimTemplate Q)
      → Provided volumes claim ext (requires_hotkey_material tn)
      → All (Mounted volumes claim) (build_init_containers must_parse tn image)
  unfolding build_init_containers build_init_container build_key_injector_init_container
  init_containers-Mounted must_parse tn image ext volumes claim h =
      elim (Bool-cases (requires_hotkey_material tn)) [
        | inl key ↦ rw key ((h.data_, tt), ((h.secret key, (h.keystore key, tt)), tt))
        | inr key ↦ rw key ((h.data_, tt), tt)
      ]

  module _ (must_parse : String → Q) (new_quantity : ℤ → Q) (ops : TextOps)
      (default_image : String) where
    -- In the pod of any TaoNode, every volume that an init container or a container mounts is one of the
    -- pod's volumes or the claim template's.
    pub pod_spec-Mounted :
        (tn : TaoNode Q)
        → let p = pod_spec must_parse new_quantity ops default_image tn in
          let claim = claim_template must_parse tn in
          All (Mounted p.volumes claim) p.init_containers
          × All (Mounted p.volumes claim) p.containers
    unfolding pod_spec build_containers chain_probe_container
    pod_spec-Mounted tn =
        let image = image_for_node default_image tn in
        let chain = resolve_chain_spec ops tn.spec.network in
        let volumes = build_volumes must_parse tn chain.1 in
        let claim = claim_template must_parse tn in
        let provided = build_volumes-Provided must_parse tn chain.1 in
        (
          init_containers-Mounted must_parse tn image chain.1 volumes claim provided,
          (
            main-Mounted must_parse image
                (node_resources new_quantity tn.spec.gpu tn.spec.resources)
                (cli_args_for_node ops tn chain.0) chain.1 (requires_hotkey_material tn) volumes
                claim provided,
            (tt, sidecars-Mounted must_parse tn volumes claim),
          ),
        )
