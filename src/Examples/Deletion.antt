-- ===== src/Examples/Deletion.antt =====
-- The deletion of a validator, on a cluster with at most one Lease.
use tao_node_guardian.Base.{
  ℕ, String, List, [], ◌∷◌, ◌≡◌, refl, none, some, Bool, true, false, ◌||◌, str_eq, if◌then◌else◌,
  arith,
}
use tao_node_guardian.Base.Errors.{Error, ok, err, api, not_found}
use tao_node_guardian.Api.Status.{synced}
use tao_node_guardian.Controller.State.{KubeClient, Run}
use tao_node_guardian.Controller.ValidatorGuard.{Lease, LeaseClient, lease_name}
use tao_node_guardian.Controller.Finalization.{
  finalizer_name, FinalizerOps, NodeClient, last_snapshot, handle_finalization,
}
use tao_node_guardian.Controller.Finalization.Cleanup.{Cleanable, LetGo, handle_finalization-LetGo}
use tao_node_guardian.Examples.Nodes.{node_in, limiter}

remove : List String → String → List String
remove [] f = []
remove (x ∷ xs) f = let rest = remove xs f in if str_eq x f then rest else x ∷ rest

contains : List String → String → Bool
contains [] f = false
contains (x ∷ xs) f = str_eq x f || contains xs f

contains-remove : (l : List String) (f : String) → contains (remove l f) f ≡ false
unfolding contains remove
contains-remove [] f = refl
contains-remove (x ∷ xs) f = ground (arith, contains-remove xs f)

abbrev finalizers : FinalizerOps
finalizers = record { contains_finalizer = contains; remove_finalizer = remove }

abbrev lease : Lease
lease = record {
  name = "alpha-validator-singleton";
  namespace_ = "tao";
  labels = [];
  holder_identity = some "tao/alpha";
  lease_duration_seconds = none;
  acquire_time = none;
  renew_time = none;
}

-- The cluster says whether the Lease is there.
abbrev leases : LeaseClient Bool
leases = record {
  get_lease = λ ns n w. if w then ok lease else err (api not_found);
  create_lease = λ l w. (ok tt, true);
  update_lease = λ l w. (ok tt, w);
  delete_lease = λ l w. (ok tt, false);
  set_controller_reference = λ owner l. ok tt;
}

abbrev nodes : NodeClient ℕ Bool
nodes = record { update_node = λ tn w. (ok tt, w) }

-- Snapshots cannot be taken.
abbrev kube : KubeClient Bool
kube = record {
  get_pod = λ ns name w. err (api not_found);
  delete_pod = λ pod w. (ok tt, w);
  create_snapshot = λ r w. (err (api not_found), w);
  list_snapshots = λ ns labels w. ok [];
  delete_snapshot = λ x w. (ok tt, w);
}

lease_missing :
    (w : Bool) (e : Error) → (if w then ok lease else err (api not_found)) ≡ err e → w ≡ false
lease_missing true e h = absurd (cc)
lease_missing false e h = refl

clean : Cleanable {Q = ℕ} finalizers leases nodes
clean = record {
  removed = contains-remove;
  held = λ w ns name. w;
  deleted = λ ns name l w found gone. refl;
  missing = λ ns name e w found absent. lease_missing w e found;
  untouched = λ tn w ns name. refl;
}

abbrev deleted : Run ℕ Bool
deleted = record {
  node = record (node_in synced none) { finalizers = finalizer_name ∷ []; is_deleted = true };
  limiter = limiter;
  world = true;
  outputs = [];
}

handle_finalization-LetGo_example :
    LetGo finalizers kube leases nodes 5 clean "tao"
      (lease_name deleted.node)
      (last_snapshot finalizers kube leases nodes 5 deleted).world
      (handle_finalization finalizers kube leases nodes 5 deleted)
unfolding contains
handle_finalization-LetGo_example =
    handle_finalization-LetGo finalizers kube leases nodes 5 clean deleted refl refl
