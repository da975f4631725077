-- ===== src/Controller/Snapshots.antt =====
-- internal/controller/snapshot_manager.go: taking a volume snapshot and pruning the old ones.
pub mod Sorting
pub mod Retention
use tao_node_guardian.Base.{
  [], ℕ, ◌/◌, String, List, ◌∷◌, length, take, Option, none, some, ltb, if◌then◌else◌, str_eq,
}
use tao_node_guardian.Base.Int.{ℤ, pos, pos_part, ◌+ℤ◌, ◌-ℤ◌, leb_ℤ, wrap32}
use tao_node_guardian.Base.{join}
use tao_node_guardian.Base.Dict.{Dict}
use tao_node_guardian.Base.Errors.{wrap, Result, ok, err}
use tao_node_guardian.Base.Format.{str, int, stamp, Formatted, sprintf, text}
use tao_node_guardian.Api.Spec.{SnapshotPolicySpec, SnapshotDestination}
use tao_node_guardian.Api.Status.{TaoNode, SnapshotStatus}
use tao_node_guardian.Api.Webhook.{role_text}
use tao_node_guardian.Controller.RateLimiter.{second}
use tao_node_guardian.Controller.State.{
  normal, event, observe, SnapshotRequest, Snapshot, KubeClient, Run, put_status, emit,
}

-- `labelsForNode` of helpers.go.
unfoldable pub labels_for_node : {Q : Type 0} → TaoNode Q → Dict Formatted
labels_for_node tn =
    ("app.kubernetes.io/name", text "taonode-guardian")
    ∷ ("app.kubernetes.io/instance", text tn.name)
    ∷ ("app.kubernetes.io/managed-by", text "taonode-guardian")
    ∷ ("tao.guardian.io/network", text tn.spec.network)
    ∷ ("tao.guardian.io/subnet", sprintf "%d" (int tn.spec.subnet_id ∷ []))
    ∷ ("tao.guardian.io/role", text (role_text tn.spec.role))
    ∷ []

unfoldable pub snapshot_class_for_destination : SnapshotDestination → String
snapshot_class_for_destination dest =
    if str_eq dest.type_ "s3"
    then "csi-aws-vsc"
    else if str_eq dest.type_ "gcs"
    then "csi-gce-pd-vsc"
    else if str_eq dest.type_ "minio"
    then "csi-minio-vsc"
    else "csi-hostpath-snapclass"

-- The inner loop of `sortSnapshotsByAge`: `items[:j]` stands back to front, and `x` is `items[j]`.
unfoldable pub sink : Snapshot → List Snapshot → List Snapshot
sink x [] = x ∷ []
sink x (y ∷ before) =
    let deeper = sink x before in if ltb x.created y.created then y ∷ deeper else x ∷ y ∷ before

-- The outer loop: `sorted` is `items[:i]` back to front.
unfoldable pub sort_loop : List Snapshot → List Snapshot → List Snapshot
sort_loop sorted [] = sorted
sort_loop sorted (x ∷ rest) = sort_loop (sink x sorted) rest

unfoldable pub to_front : List Snapshot → List Snapshot → List Snapshot
to_front [] acc = acc
to_front (x ∷ xs) acc = to_front xs (x ∷ acc)

unfoldable pub sort_snapshots_by_age : List Snapshot → List Snapshot
unfolding sink sort_loop to_front
sort_snapshots_by_age items = to_front (sort_loop [] items) []

-- `items[:len(items)-retention]` once sorted, and nothing if the list is not longer than the
-- retention. The resource's schema keeps the retention positive, so the bound is within the list.
unfoldable pub excess : ℤ → List Snapshot → List Snapshot
excess retention items =
    if leb_ℤ (pos (length items)) retention
    then []
    else take (pos_part (pos (length items) -ℤ retention)) (sort_snapshots_by_age items)

module _ {W : Type 0} (kube : KubeClient W) where
  -- The deletions, in order, up to the first that fails.
  unfoldable pub delete_all : List Snapshot → W → Result (Unit {0}) × W
  delete_all [] w = (ok tt, w)
  delete_all (x ∷ xs) w =
      let (r, w') = kube.delete_snapshot x w in
      elim r [ ok _ ↦ delete_all xs w' | err e ↦ (err (wrap "delete snapshot %s: %w" e), w') ]

  unfoldable pub prune_listed : ℤ → Result (List Snapshot) → W → Result (Unit {0}) × W
  unfolding delete_all
  prune_listed retention (err e) w = (err (wrap "list snapshots: %w" e), w)
  prune_listed retention (ok items) w = delete_all (excess retention items) w

  unfoldable pub prune_old_snapshots :
      {Q : Type 0} → TaoNode Q → Option SnapshotPolicySpec → W → Result (Unit {0}) × W
  unfolding prune_listed
  prune_old_snapshots tn none w = (ok tt, w)
  prune_old_snapshots tn (some policy) w =
      prune_listed policy.retention_count (kube.list_snapshots tn.namespace_ (labels_for_node tn) w)
        w

abbrev snapshot_or_new : Option SnapshotStatus → SnapshotStatus
snapshot_or_new none = record {
  last_snapshot_time = none;
  last_snapshot_size = pos 0;
  available_snapshots = pos 0;
}
snapshot_or_new (some st) = st

unfoldable pub snapshot_request :
    {Q : Type 0} → ℕ → TaoNode Q → SnapshotPolicySpec → String → SnapshotRequest
snapshot_request now tn policy reason = record {
  name = sprintf "%s-%s" (str tn.name ∷ stamp (now / second) ∷ []);
  namespace_ = tn.namespace_;
  labels = labels_for_node tn;
  reason = reason;
  node_name = tn.name;
  timestamp = now / second;
  owner = tn.name;
  class = snapshot_class_for_destination policy.destination;
  pvc_name = join (join "chain-data-" tn.name) "-0";
}

module _ {Q W : Type 0} (kube : KubeClient W) (now : ℕ) where
  -- What follows a creation that succeeded; an error of the pruning is dropped.
  unfoldable pub note_snapshot : SnapshotPolicySpec → String → Run Q W → Run Q W
  note_snapshot policy reason s =
      let st = snapshot_or_new s.node.status.snapshot in
      let counted = record st {
        last_snapshot_time = some now;
        available_snapshots = wrap32 (st.available_snapshots +ℤ pos 1);
      } in
      let seen =
        emit (observe "snapshotDuration" (s.node.name ∷ s.node.namespace_ ∷ reason ∷ [])) s in
      let told =
        emit
          (event normal "SnapshotTriggered" (
            sprintf "VolumeSnapshot %s created (reason: %s)"
              (str s.node.name ∷ stamp (now / second) ∷ str reason ∷ [])))
          seen in
      let st' = record (s.node.status) { snapshot = some counted } in
      let noted = put_status st' told in
      record noted { world = (prune_old_snapshots kube noted.node (some policy) noted.world).1 }

  unfoldable pub trigger_with :
      Option SnapshotPolicySpec → String → Run Q W → Result (Unit {0}) × Run Q W
  unfolding snapshot_request note_snapshot
  trigger_with none reason s = (ok tt, s)
  trigger_with (some policy) reason s =
      let (r, w') = kube.create_snapshot (snapshot_request now s.node policy reason) s.world in
      let s' = record s { world = w' } in
      elim r [
        | ok _ ↦ (ok tt, note_snapshot policy reason s')
        | err e ↦ (err (wrap "create VolumeSnapshot %s: %w" e), s')
      ]

  unfoldable pub trigger_snapshot : String → Run Q W → Result (Unit {0}) × Run Q W
  unfolding trigger_with
  trigger_snapshot reason s = trigger_with s.node.spec.snapshot_policy reason s
