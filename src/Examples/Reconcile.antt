-- ===== src/Examples/Reconcile.antt =====
-- A whole call of Reconcile on a cluster that has one TaoNode and no Role.
use tao_node_guardian.Base.{
  ℕ, String, [], ◌∷◌, ◌≡◌, inl, inr, refl, sym, ap, ◌∙◌, subst, Option, none, some, false, any, ◌+◌,
  ◌-◌, ◌*◌, ◌/◌, leb, str_eq, Bool-cases,
}
use tao_node_guardian.Base.Int.{pos, pos_part}
use tao_node_guardian.Base.Errors.{Result, ok, err, api, not_found, is_not_found}
use tao_node_guardian.Base.Format.{nat}
use tao_node_guardian.Api.Spec.{SnapshotPolicySpec}
use tao_node_guardian.Api.Status.{TaoNode, TaoNodeStatus, synced}
use tao_node_guardian.Controller.State.{KubeClient, Run}
use tao_node_guardian.Controller.Snapshots.{trigger_with, trigger_snapshot}
use tao_node_guardian.Controller.ValidatorGuard.{is_validator, LeaseClient}
use tao_node_guardian.Controller.Finalization.{
  finalizer_name, FinalizerOps, NodeClient, wants_last_snapshot, last_snapshot, release_lease,
  let_go, delete_lease_if_exists, handle_finalization,
}
use tao_node_guardian.Controller.Preflight.{permissions_answer, validate_namespace_permissions}
use tao_node_guardian.Controller.Pod.{StatefulSet}
use tao_node_guardian.Controller.Workload.Ensure.{SetClient}
use tao_node_guardian.Controller.Workload.Services.{
  OwnedClient, ensure_service_account, ensure_headless_service,
}
use tao_node_guardian.Controller.Retry.{last}
use tao_node_guardian.Controller.StatusUpdate.{
  NodeStore, IncidentReport, advisory_of, status_attempt, update_status_and_requeue,
  update_ai_advisory_status,
}
use tao_node_guardian.Controller.StatusUpdate.Stored.{Has, StoreLaws, advisory_overwritten}
use tao_node_guardian.Controller.Cost.{Float64}
use tao_node_guardian.Controller.Reconcile.{
  Reconciler, Moment, fetched, provision, check_and_provision, persist,
}
use tao_node_guardian.Controller.Reconcile.Persisted.{Stored, fetched-IsPersisted}
use tao_node_guardian.Controller.Reconcile.Guarded.{Kept, fetched_keeps}
use tao_node_guardian.Examples.Nodes.{quantities, conditions, node_in, limiter}
use tao_node_guardian.Examples.Workload.{equal, texts, parse, own}

record Cluster : Type 0 where
  stored : TaoNode ℕ
  set : Option (StatefulSet ℕ)

abbrev node : TaoNode ℕ
node = record (node_in synced none) { finalizers = finalizer_name ∷ [] }

abbrev cluster : Cluster
cluster = record { stored = node; set = none }

abbrev run : Run ℕ Cluster
run = record { node = node; limiter = limiter; world = cluster; outputs = [] }

abbrev store : NodeStore ℕ Cluster
store = record {
  get_node = λ ns name w. ok (record (w.stored) { namespace_ = ns; name = name });
  update_status = λ tn w. (ok tt, record w { stored = tn });
  retry = λ f w. f w;
}

node_named :
    (ns name : String) (w : Cluster) (tn : TaoNode ℕ)
    → store.get_node ns name w ≡ ok tn
    → (tn.namespace_ ≡ ns) × (tn.name ≡ name)
node_named ns name w tn e = (
  sym (ap (λ r. elim r [ ok x ↦ x.namespace_ | err _ ↦ ns ]) e),
  sym (ap (λ r. elim r [ ok x ↦ x.name | err _ ↦ name ]) e),
)

node_updated :
    (tn : TaoNode ℕ) (w w' : Cluster)
    → store.update_status tn w ≡ (ok tt, w')
    → Has store tn.namespace_ tn.name tn.status w'
node_updated tn w w' e =
    let stored : w'.stored ≡ tn = sym (ap (λ t. t.1.stored) e) in
    subst (λ x. Has store tn.namespace_ tn.name x.status w') stored
      (record {
        node = record (w'.stored) { namespace_ = tn.namespace_; name = tn.name };
        found = refl;
        status = refl;
      })

laws : StoreLaws store
laws = record { get_named = node_named; updated = node_updated; retried = λ f w. last }

abbrev report : IncidentReport
report = record {
  severity = "high";
  summary = "lag";
  root_cause_category = "sync";
  recommended_action = "restart";
  confidence_units = 1;
}

advisory_overwritten_example :
    let w1 = (update_ai_advisory_status store 7 node report cluster).1 in
    ((st : TaoNodeStatus) × Has store "tao" "alpha" st w1
      × (st.ai_advisory ≡ some (advisory_of 7 report)))
    × ((st : TaoNodeStatus) × Has store "tao" "alpha" st
          (update_status_and_requeue store node (pos 30) w1).1
        × (st.ai_advisory ≡ none))
unfolding update_status_and_requeue update_ai_advisory_status status_attempt
advisory_overwritten_example =
    advisory_overwritten store laws 7 node report (pos 30) cluster refl refl (λ e. absurd (cc))

-- Every snapshot fails, there is no Lease, and no Role.
abbrev kube : KubeClient Cluster
kube = record {
  get_pod = λ ns name w. err (api not_found);
  delete_pod = λ pod w. (ok tt, w);
  create_snapshot = λ r w. (err (api not_found), w);
  list_snapshots = λ ns labels w. ok [];
  delete_snapshot = λ x w. (ok tt, w);
}

abbrev leases : LeaseClient Cluster
leases = record {
  get_lease = λ ns n w. err (api not_found);
  create_lease = λ l w. (ok tt, w);
  update_lease = λ l w. (ok tt, w);
  delete_lease = λ l w. (ok tt, w);
  set_controller_reference = λ owner l. ok tt;
}

abbrev finalizers : FinalizerOps
finalizers = record {
  contains_finalizer = λ l f. any (λ x. str_eq x f) l;
  remove_finalizer = λ l f. [];
}

abbrev nodes : NodeClient ℕ Cluster
nodes = record { update_node = λ tn w. (ok tt, w) }

abbrev accepting : {T : Type 0} → OwnedClient ℕ T Cluster
accepting = record { create_or_update = λ x f w. (ok tt, w); owned = λ tn x. ok x }

abbrev find_set : Option (StatefulSet ℕ) → Result (StatefulSet ℕ)
find_set none = err (api not_found)
find_set (some s) = ok s

abbrev sets : SetClient ℕ Cluster
sets = record {
  get = λ name ns w. find_set w.set;
  create = λ s w. (ok tt, record w { set = some s });
  delete_orphan = λ s w. (ok tt, record w { set = none });
  update = λ s w. (ok tt, record w { set = some s });
  retry = λ f w. f w;
}

-- Floats are whole numbers.
abbrev floats : Float64 ℕ
floats = record {
  literal = λ s. 0;
  of_int = pos_part;
  add = λ a b. a + b;
  sub = λ a b. a - b;
  mul = λ a b. a * b;
  div = λ a b. a / 1;
  at_least = λ a b. leb b a;
  shown = nat;
}

abbrev operator : Reconciler ℕ Cluster ℕ ℕ
operator = record {
  conds = conditions;
  kube = kube;
  finalizers = finalizers;
  add_finalizer = λ l f. f ∷ l;
  leases = leases;
  nodes = nodes;
  store = store;
  preflight = record {
    get_role = λ ns name w. err (api not_found);
    get_secret = λ ns name w. err (api not_found);
  };
  accounts = accepting;
  services = accepting;
  monitors = accepting;
  sets = sets;
  equal = equal;
  set_owner = own;
  pvcs = record { get_pvc = λ ns n w. err (api not_found); update_pvc = λ p w. (ok tt, w) };
  http = record { new_request = λ u. ok tt; send = λ u w. err (api not_found) };
  quantities = quantities;
  must_parse = parse;
  new_quantity = pos_part;
  texts = texts;
  float64 = floats;
  rates = record { zero_float = 0; per_second = λ n d. 0 };
  parse_score = λ s. none;
  default_image = "";
  has_advisor = false;
}

abbrev moment : Moment
moment = record { now = 5; answered = 6; answer = none }

minute_long : (fetched operator moment none run).outcome ≡ ok (pos 60_000_000_000)
unfolding fetched provision check_and_provision persist ensure_service_account
    ensure_headless_service validate_namespace_permissions permissions_answer is_not_found
    update_status_and_requeue status_attempt
minute_long = refl

fetched-IsPersisted_example :
    Stored operator moment laws (pos 60_000_000_000) (fetched operator moment none run).run
fetched-IsPersisted_example =
    fetched-IsPersisted operator moment laws none run (pos 60_000_000_000) minute_long

-- No StatefulSet.
abbrev IsBare : Cluster → Type 0
IsBare w = w.set ≡ none

snapshot_world :
    (o : Option SnapshotPolicySpec) (reason : String) (s : Run ℕ Cluster)
    → (trigger_with kube 5 o reason s).1.world ≡ s.world
unfolding trigger_with
snapshot_world none reason s = refl
snapshot_world (some policy) reason s = refl

last_snapshot_world :
    (s : Run ℕ Cluster) → (last_snapshot finalizers kube leases nodes 5 s).world ≡ s.world
unfolding last_snapshot trigger_snapshot
last_snapshot_world s = elim (Bool-cases (wants_last_snapshot s.node.spec.snapshot_policy)) [
  | inl wanted ↦ rw wanted (snapshot_world s.node.spec.snapshot_policy "pre-deletion" s)
  | inr no_one ↦ rw no_one refl
]

release_lease_world :
    (s : Run ℕ Cluster) → (release_lease finalizers kube leases nodes 5 s).world ≡ s.world
unfolding release_lease delete_lease_if_exists
release_lease_world s = elim (Bool-cases (is_validator s.node.spec.role)) [
  | inl guarded ↦ rw guarded refl
  | inr free ↦ rw free refl
]

deletion_world :
    (s : Run ℕ Cluster) → (handle_finalization finalizers kube leases nodes 5 s).1.world ≡ s.world
unfolding handle_finalization let_go
deletion_world s =
    elim (Bool-cases (finalizers.contains_finalizer s.node.finalizers finalizer_name)) [
      | inl held ↦ rw held (
          release_lease_world (last_snapshot finalizers kube leases nodes 5 s)
          ∙ last_snapshot_world s)
      | inr gone ↦ rw gone refl
    ]

kept : Kept operator moment IsBare
unfolding ensure_service_account ensure_headless_service update_status_and_requeue status_attempt
kept = record {
  deletion = λ s p. ap (λ (w : Cluster). w.set) (deletion_world s) ∙ p;
  finalizer = λ tn w p. p;
  account = λ tn w p. p;
  service = λ tn w p. p;
  status = λ tn after w p. p;
}

fetched_keeps_example : (fetched operator moment none run).run.world.set ≡ none
fetched_keeps_example = fetched_keeps operator moment IsBare none run kept (λ w p. inl refl) refl
