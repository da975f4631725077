-- ===== src/Controller/Workload/Privileges.antt =====
-- The users and rights with which the containers of the node's pod run.
use tao_node_guardian.Base.{
  ℕ, String, [], ◌∷◌, Option, none, some, Bool, true, false, All, ◌≡◌, refl, inl, inr, Bool-cases,
}
use tao_node_guardian.Base.Int.{ℤ}
use tao_node_guardian.Api.Status.{TaoNode}
use tao_node_guardian.Controller.ChainArgs.{TextOps}
use tao_node_guardian.Controller.Pod.{Capabilities, Container, PodSpec}
use tao_node_guardian.Controller.Containers.{
  requires_hotkey_material, build_init_container, build_key_injector_init_container,
  build_main_container, chain_probe_container, build_metrics_sidecar, is_monitored,
  build_init_containers, build_containers,
}
use tao_node_guardian.Controller.Workload.{pod_spec}

-- A setting of the container overrides the one of the pod.
abbrev pub override {ℓ} : {A : Type ℓ} → Option A → Option A → Option A
override none pod = pod
override (some a) pod = some a

abbrev pub stripped : Option Capabilities
stripped = some (record { drop_ = "ALL" ∷ []; add = [] })

module _ {Q : Type 0} where
  abbrev pub effective_user : PodSpec Q → Container Q → Option ℕ
  effective_user p c = override c.security_context.run_as_user p.security_context.run_as_user

  abbrev pub effective_non_root : PodSpec Q → Container Q → Option Bool
  effective_non_root p c =
      override c.security_context.run_as_non_root p.security_context.run_as_non_root

  -- The container runs as the unprivileged user, which is not root, has no capabilities, cannot gain
  -- any, and cannot write the root file system.
  pub record Confined (p : PodSpec Q) (c : Container Q) : Type 0 where
    pub user : effective_user p c ≡ some 1000
    pub non_root : effective_non_root p c ≡ some true
    pub capabilities : c.security_context.capabilities ≡ stripped
    pub escalation : c.security_context.allow_privilege_escalation ≡ some false
    pub root_files : c.security_context.read_only_root_filesystem ≡ some true

  -- The container runs as root while it is required not to, so that the kubelet does not start it.
  abbrev pub RootRefused : PodSpec Q → Container Q → Type 0
  RootRefused p c = (effective_user p c ≡ some 0) × (effective_non_root p c ≡ some true)

  module _ (must_parse : String → Q) (new_quantity : ℤ → Q) (ops : TextOps)
      (default_image : String) where
    -- Every container of the pod of any TaoNode runs, with the pod's settings where it has none, as user
    -- 1000 and not as root, with all capabilities dropped, no privilege escalation and a read-only root
    -- file system.
    pub pod_spec-Confined :
        (tn : TaoNode Q)
        → let p = pod_spec must_parse new_quantity ops default_image tn in
          All (Confined p) p.containers
    unfolding pod_spec build_containers build_main_container chain_probe_container
        build_metrics_sidecar
    pod_spec-Confined tn = elim (Bool-cases (is_monitored tn.spec.monitoring)) [
      | inl on ↦ rw on (
        record {
          user = refl;
          non_root = refl;
          capabilities = refl;
          escalation = refl;
          root_files = refl;
        },
        (
          record {
            user = refl;
            non_root = refl;
            capabilities = refl;
            escalation = refl;
            root_files = refl;
          },
          (
            record {
              user = refl;
              non_root = refl;
              capabilities = refl;
              escalation = refl;
              root_files = refl;
            },
            tt,
          ),
        ),
      )
      | inr off ↦ rw off (
        record {
          user = refl;
          non_root = refl;
          capabilities = refl;
          escalation = refl;
          root_files = refl;
        },
        (
          record {
            user = refl;
            non_root = refl;
            capabilities = refl;
            escalation = refl;
            root_files = refl;
          },
          tt,
        ),
      )
    ]

    -- Every init container of the pod of any TaoNode runs as user 0, while the pod's requirement not to
    -- run as root holds for it.
    pub init_containers_refused :
        (tn : TaoNode Q)
        → let p = pod_spec must_parse new_quantity ops default_image tn in
          All (RootRefused p) p.init_containers
    unfolding pod_spec build_init_containers build_init_container build_key_injector_init_container
    init_containers_refused tn = elim (Bool-cases (requires_hotkey_material tn)) [
      | inl on ↦ rw on ((refl, refl), ((refl, refl), tt))
      | inr off ↦ rw off ((refl, refl), tt)
    ]
