-- ===== src/Examples/Guard.antt =====
-- The guard on a cluster that is a table of Leases.
use tao_node_guardian.Base.{
  ℕ, [], ◌≡◌, ◌&&◌, refl, none, some, Option, String, arith, str_eq, eq_iff, if◌then◌else◌,
  Bool-cases, inl, inr,
}
use tao_node_guardian.Base.Errors.{Result, ok, err, api, not_found}
use tao_node_guardian.Api.Status.{pending}
use tao_node_guardian.Controller.State.{KubeClient, Run}
use tao_node_guardian.Controller.ValidatorGuard.{Lease, LeaseClient}
use tao_node_guardian.Controller.ValidatorGuard.Holder.{put, LeaseStore}
use tao_node_guardian.Controller.ValidatorGuard.Lonely.{
  Unhindered, ensure_validator_singleton-Unhindered,
}
use tao_node_guardian.Examples.Nodes.{node_in, limiter}

-- What a get of this Lease shows.
abbrev shown : String → String → Option Lease → Option Lease
shown ns n none = none
shown ns n (some l) = if str_eq l.namespace_ ns && str_eq l.name n then some l else none

abbrev Table : Type 0
Table = String → String → Option Lease

abbrev answer : Option Lease → Result Lease
answer none = err (api not_found)
answer (some l) = ok l

abbrev leases : LeaseClient Table
leases = record {
  get_lease = λ ns n w. answer (shown ns n (w ns n));
  create_lease = λ l w. (ok tt, put w l);
  update_lease = λ l w. (ok tt, put w l);
  delete_lease =
      λ l w. (ok tt, λ ns n. if str_eq l.namespace_ ns && str_eq l.name n then none else w ns n);
  set_controller_reference = λ owner l. ok tt;
}

shown_keyed :
    (o : Option Lease) (ns n : String) (l : Lease)
    → shown ns n o ≡ some l
    → (l.namespace_ ≡ ns) × (l.name ≡ n)
shown_keyed none ns n l e = absurd (cc)
shown_keyed (some k) ns n l e = ground (arith, eq_iff k.namespace_ ns, eq_iff k.name n)

shown-put :
    (w : Table) (l : Lease) (ns n : String)
    → shown ns n (put w l ns n) ≡ put (λ ns n. shown ns n (w ns n)) l ns n
shown-put w l ns n = elim (Bool-cases (str_eq l.namespace_ ns && str_eq l.name n)) [
  | inl here ↦ rw (here, here) refl
  | inr there ↦ rw there refl
]

store : LeaseStore leases
store = record {
  view = λ w ns n. shown ns n (w ns n);
  keyed = λ w ns n l e. shown_keyed (w ns n) ns n l e;
  found = λ w ns n l e. rw e refl;
  missing = λ w ns n e. rw e refl;
  created = λ w l e. (refl, λ ns n. shown-put w l ns n);
  updated = λ w l old e. (refl, λ ns n. shown-put w l ns n);
  referenced = λ owner l. refl;
}

abbrev no_pods : KubeClient Table
no_pods = record {
  get_pod = λ ns name w. err (api not_found);
  delete_pod = λ pod w. (ok tt, w);
  create_snapshot = λ r w. (ok tt, w);
  list_snapshots = λ ns labels w. ok [];
  delete_snapshot = λ x w. (ok tt, w);
}

abbrev empty : Run ℕ Table
empty = record {
  node = node_in pending none;
  limiter = limiter;
  world = λ ns n. none;
  outputs = [];
}

ensure_validator_singleton-Unhindered_example : Unhindered leases store no_pods 5 empty
unfolding store
ensure_validator_singleton-Unhindered_example =
    ensure_validator_singleton-Unhindered leases store no_pods 5 empty (λ ns n l e. absurd (cc))
