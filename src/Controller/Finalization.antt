-- ===== src/Controller/Finalization.antt =====
-- `handleFinalization` and `deleteLeaseIfExists` of internal/controller/taonode_controller.go: what is
-- done before a deleted TaoNode may go.
pub mod Cleanup
use tao_node_guardian.Base.{ℕ, String, List, Option, none, some, Bool, false, if◌then◌else◌}
use tao_node_guardian.Base.Errors.{Error, wrap, Result, ok, err, is_not_found}
use tao_node_guardian.Base.Format.{text}
use tao_node_guardian.Api.Spec.{SnapshotPolicySpec}
use tao_node_guardian.Api.Status.{TaoNode}
use tao_node_guardian.Controller.State.{normal, event, KubeClient, Run, emit}
use tao_node_guardian.Controller.Snapshots.{trigger_snapshot}
use tao_node_guardian.Controller.ValidatorGuard.{Lease, LeaseClient, lease_name, is_validator}

abbrev pub finalizer_name : String
finalizer_name = "tao.guardian.io/finalizer"

-- `ContainsFinalizer` and `RemoveFinalizer` of sigs.k8s.io/controller-runtime, on the list of finalizers,
-- and the client's update of the TaoNode.
pub record FinalizerOps : Type 0 where
  pub contains_finalizer : List String → String → Bool
  pub remove_finalizer : List String → String → List String

pub record NodeClient (Q W : Type 0) : Type 0 where
  pub update_node : TaoNode Q → W → Result (Unit {0}) × W

abbrev pub wants_last_snapshot : Option SnapshotPolicySpec → Bool
wants_last_snapshot none = false
wants_last_snapshot (some p) = p.on_sync_loss

-- An error from the client but NotFound.
abbrev pub unless_not_found : Error → Result (Unit {0})
unless_not_found e = if is_not_found e then ok tt else err e

module _ {W : Type 0} (leases : LeaseClient W) where
  abbrev pub delete_answered : Result Lease → W → Result (Unit {0}) × W
  delete_answered (err e) w = (unless_not_found e, w)
  delete_answered (ok l) w = leases.delete_lease l w

  unfoldable pub delete_lease_if_exists : String → String → W → Result (Unit {0}) × W
  delete_lease_if_exists ns name w = delete_answered (leases.get_lease ns name w) w

module _ {Q W : Type 0} (finalizers : FinalizerOps) (kube : KubeClient W) (leases : LeaseClient W)
    (nodes : NodeClient Q W) (now : ℕ) where
  -- Errors of the snapshot and of the Lease are only logged.
  unfoldable pub last_snapshot : Run Q W → Run Q W
  last_snapshot s =
      if wants_last_snapshot s.node.spec.snapshot_policy
      then (trigger_snapshot kube now "pre-deletion" s).1
      else s

  unfoldable pub release_lease : Run Q W → Run Q W
  unfolding delete_lease_if_exists
  release_lease s =
      if is_validator s.node.spec.role
      then record s {
        world = (delete_lease_if_exists leases s.node.namespace_ (lease_name s.node) s.world).1;
      }
      else s

  abbrev pub removal_result : Result (Unit {0}) → Result (Unit {0})
  removal_result (ok u) = ok u
  removal_result (err e) = err (wrap "remove finalizer: %w" e)

  unfoldable pub let_go : Run Q W → Result (Unit {0}) × Run Q W
  let_go s =
      let tn = record (s.node) {
        finalizers = finalizers.remove_finalizer s.node.finalizers finalizer_name;
      } in
      let told =
        emit (event normal "Finalized" (text "TaoNode resources cleaned up, removing finalizer"))
          (record s { node = tn }) in
      let (r, w) = nodes.update_node tn told.world in (removal_result r, record told { world = w })

  unfoldable pub handle_finalization : Run Q W → Result (Unit {0}) × Run Q W
  unfolding last_snapshot release_lease let_go
  handle_finalization s =
      if finalizers.contains_finalizer s.node.finalizers finalizer_name
      then let_go (release_lease (last_snapshot s))
      else (ok tt, s)
