-- ===== src/Controller/Workload/Isolation.antt =====
-- Who may read the key's Secret in the pod that internal/controller/workload_manager.go builds.
use tao_node_guardian.Base.{
  String, List, Bool, true, false, All, ◌≡◌, refl, ◌⊎◌, inl, inr, Bool-cases, str_eq,
}
use tao_node_guardian.Base.Int.{ℤ}
use tao_node_guardian.Api.Status.{TaoNode}
use tao_node_guardian.Api.Spec.{ResourceRequirements}
use tao_node_guardian.Base.Format.{Formatted}
use tao_node_guardian.Controller.ChainArgs.{TextOps, resolve_chain_spec}
use tao_node_guardian.Controller.Pod.{VolumeMount, Container, PodSpec}
use tao_node_guardian.Controller.Containers.{
  requires_hotkey_material, main_mounts, build_init_container, build_key_injector_init_container,
  build_main_container, chain_probe_container, build_metrics_sidecar, is_monitored,
  build_init_containers, build_containers,
}
use tao_node_guardian.Controller.Workload.{image_for_node, cli_args_for_node, pod_spec}
use tao_node_guardian.Controller.Gpu.{node_resources}

abbrev pub names : String → VolumeMount → Bool
names volume m = str_eq m.name volume

module _ {Q : Type 0} where
  abbrev pub Avoids : String → Container Q → Type 0
  Avoids volume c = All (λ m. names volume m ≡ false) c.volume_mounts

  abbrev pub OnlyReads : String → Container Q → Type 0
  OnlyReads volume c = All (λ m. (names volume m ≡ false) ⊎ (m.read_only ≡ true)) c.volume_mounts

  -- No container mounts the volume of the Secret; of the init containers only the key injector does,
  -- and read-only; the containers have the copy of the key read-only.
  pub record Isolated (p : PodSpec Q) : Type 0 where
    pub outside : All (Avoids "hotkey-secret") p.containers
    pub inside :
        All
          (λ c.
            Avoids "hotkey-secret" c ⊎ ((c.name ≡ "key-injector") × OnlyReads "hotkey-secret" c))
          p.init_containers
    pub copy : All (OnlyReads "keystore") p.containers

  abbrev MainSafe : Container Q → Type 0
  MainSafe c = Avoids "hotkey-secret" c × OnlyReads "keystore" c

  module _ (must_parse : String → Q) where
    main_mounts-MainSafe :
        (image : String) (r : ResourceRequirements Q) (args : List Formatted) (ext key : Bool)
        → MainSafe (build_main_container must_parse image r args ext key)
    unfolding build_main_container main_mounts
    main_mounts-MainSafe image r args true true =
        ((refl, (refl, (refl, tt))), (inl refl, (inl refl, (inr refl, tt))))
    main_mounts-MainSafe image r args true false = ((refl, (refl, tt)), (inl refl, (inl refl, tt)))
    main_mounts-MainSafe image r args false true = ((refl, (refl, tt)), (inl refl, (inr refl, tt)))
    main_mounts-MainSafe image r args false false = ((refl, tt), (inl refl, tt))

    containers-Isolated :
        (tn : TaoNode Q) (image : String) (r : ResourceRequirements Q) (args : List Formatted)
        (ext : Bool)
        → let cs = build_containers must_parse tn image r args ext in
          All (Avoids "hotkey-secret") cs × All (OnlyReads "keystore") cs
    unfolding build_containers chain_probe_container build_metrics_sidecar
    containers-Isolated tn image r args ext =
        let main = main_mounts-MainSafe image r args ext (requires_hotkey_material tn) in
        elim (Bool-cases (is_monitored tn.spec.monitoring)) [
          | inl on ↦ rw on ((main.0, (tt, (tt, tt))), (main.1, (tt, (tt, tt))))
          | inr off ↦ rw off ((main.0, (tt, tt)), (main.1, (tt, tt)))
        ]

    init_containers-Isolated :
        (tn : TaoNode Q) (image : String)
        → All
            (λ c.
              Avoids "hotkey-secret" c ⊎ ((c.name ≡ "key-injector") × OnlyReads "hotkey-secret" c))
            (build_init_containers must_parse tn image)
    unfolding build_init_containers build_init_container build_key_injector_init_container
    init_containers-Isolated tn image = elim (Bool-cases (requires_hotkey_material tn)) [
      | inl on ↦ rw on (inl (refl, tt), (inr (refl, (inr refl, (inl refl, tt))), tt))
      | inr off ↦ rw off (inl (refl, tt), tt)
    ]

    -- In the pod of any TaoNode, no container mounts the volume of the hotkey Secret. The only init
    -- container that does is the key injector, which mounts it read-only, and every container that
    -- mounts the keystore, which has the copy of the key, mounts it read-only.
    pub pod_spec-Isolated :
        (new_quantity : ℤ → Q) (ops : TextOps) (default_image : String) (tn : TaoNode Q)
        → Isolated (pod_spec must_parse new_quantity ops default_image tn)
    unfolding pod_spec
    pod_spec-Isolated new_quantity ops default_image tn =
        let image = image_for_node default_image tn in
        let chain = resolve_chain_spec ops tn.spec.network in
        let cs =
          containers-Isolated tn image (node_resources new_quantity tn.spec.gpu tn.spec.resources)
            (cli_args_for_node ops tn chain.0) chain.1 in
        record { outside = cs.0; inside = init_containers-Isolated tn image; copy = cs.1 }
