-- ===== src/Controller/Workload/Drift.antt =====
-- Whether the StatefulSet that the API server stores can ever be updated in place,
-- `ensureNodeWorkload` of internal/controller/workload_manager.go and `vctDriftDetected` of
-- statefulset_builder.go.
use tao_node_guardian.Base.{String, List, none, some, false, All, if◌then◌else◌, ◌≡◌}
use tao_node_guardian.Base.Int.{ℤ}
use tao_node_guardian.Base.Errors.{Result, ok}
use tao_node_guardian.Api.Status.{TaoNode}
use tao_node_guardian.Controller.ChainArgs.{TextOps}
use tao_node_guardian.Controller.Pod.{ClaimSpec, ClaimTemplate, StatefulSet}
use tao_node_guardian.Controller.Workload.Ensure.{DeepEqual, SetClient}

module _ {Q : Type 0} (equal : DeepEqual Q) where
  -- `DeepEqual` tells a pointer that is set from one that is not.
  abbrev pub TellsModes : Type 0
  TellsModes =
      (a b : ClaimSpec Q) (mode : String)
      → a.volume_mode ≡ some mode
      → b.volume_mode ≡ none
      → equal.claim_spec a b ≡ false

  abbrev pub Defaulted : List (ClaimTemplate Q) → Type 0
  Defaulted claims = All (λ c. (mode : String) × (c.spec.volume_mode ≡ some mode)) claims

module _ {Q W : Type 0} (equal : DeepEqual Q) (client : SetClient Q W) (must_parse : String → Q)
    (new_quantity : ℤ → Q) (ops : TextOps) (default_image : String)
    (set_owner : TaoNode Q → StatefulSet Q → Result (StatefulSet Q)) where
  -- The deletion that orphans the pods, which is left out while one is under way.
  abbrev pub deletion : StatefulSet Q → W → Result (Unit {0}) × W
  deletion current w = if current.is_deleted then (ok tt, w) else client.delete_orphan current w
