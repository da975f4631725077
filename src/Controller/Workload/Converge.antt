-- ===== src/Controller/Workload/Converge.antt =====
-- What a reconciliation of the StatefulSet that returns without an error leaves in the cluster,
-- `ensureNodeWorkload` of internal/controller/workload_manager.go.
use tao_node_guardian.Base.{
  String, Bool, true, false, ◌≡◌, ◌⊎◌, inl, inr, refl, sym, ap, ◌∙◌, subst, ◌||◌, if◌then◌else◌,
  Bool-cases, arith,
}
use tao_node_guardian.Base.Errors.{Result, ok, err, is_not_found}
use tao_node_guardian.Api.Status.{TaoNode}
use tao_node_guardian.Controller.Pod.{StatefulSet}
use tao_node_guardian.Controller.Retry.{Attempts, last, again}
use tao_node_guardian.Controller.Workload.Ensure.{
  DeepEqual, SetClient, stateful_set_needs_mutable_update, copy_mutable_stateful_set_fields,
  attempt_found, attempt, create_again, after_delete, recreate, ensure_found, ensure_desired,
  ensure_node_workload, vct_drift_detected, stateful_set_structural_changes,
}

-- What the API server and the client promise. `admitted` is what the server stores of an object, with
-- the defaults of the fields that are not set.
pub record SetLaws {Q W : Type 0} (client : SetClient Q W) : Type 0 where
  pub admitted : StatefulSet Q → StatefulSet Q
  pub get_named :
      (name ns : String) (w : W) (s : StatefulSet Q)
      → client.get name ns w ≡ ok s
      → (s.name ≡ name) × (s.namespace_ ≡ ns)
  pub created :
      (s : StatefulSet Q) (w w' : W)
      → client.create s w ≡ (ok tt, w')
      → client.get s.name s.namespace_ w' ≡ ok (admitted s)
  pub updated :
      (s : StatefulSet Q) (w w' : W)
      → client.update s w ≡ (ok tt, w')
      → client.get s.name s.namespace_ w' ≡ ok (admitted s)
  pub retried : (f : W → Result (Unit {0}) × W) (w : W) → Attempts f w (client.retry f w)

-- The object carries the desired labels, replicas, update strategy and pod template.
pub record Carries {Q : Type 0} (x desired : StatefulSet Q) : Type 0 where
  pub labels : x.labels ≡ desired.labels
  pub replicas : x.spec.replicas ≡ desired.spec.replicas
  pub update_strategy : x.spec.update_strategy ≡ desired.spec.update_strategy
  pub template : x.spec.template ≡ desired.spec.template

-- What was sent to a cluster that had no such object, or of which the old one was deleted: the desired
-- object itself, whole, or with the resource version taken off.
abbrev pub Whole : {Q : Type 0} → StatefulSet Q → StatefulSet Q → Type 0
Whole x desired = (x ≡ desired) ⊎ (x ≡ record desired { resource_version = "" })

module _ {Q W : Type 0} (equal : DeepEqual Q) (client : SetClient Q W) (laws : SetLaws client) where
  -- The cluster had the object `current`, whose immutable fields are those of the desired one.
  pub record InPlace (desired : StatefulSet Q) (before : W) : Type 0 where
    pub current : StatefulSet Q
    pub had : client.get desired.name desired.namespace_ before ≡ ok current
    pub no_drift : vct_drift_detected equal current desired ≡ false
    pub no_change : stateful_set_structural_changes equal current desired ≡ false

  -- In place: the tests find no difference in the mutable fields, or it is what the server made of an object
  -- that carries the desired ones.
  abbrev pub Updated : StatefulSet Q → StatefulSet Q → Type 0
  Updated desired stored =
      (stateful_set_needs_mutable_update equal stored desired ≡ false)
      ⊎ ((x : StatefulSet Q) × (stored ≡ laws.admitted x) × Carries x desired)

  -- The cluster has a StatefulSet of the desired name: what the server made of the whole desired object, or
  -- one that was updated in place, which needs immutable fields that agree.
  pub record Converged (desired : StatefulSet Q) (before after : W) : Type 0 where
    pub stored : StatefulSet Q
    pub found : client.get desired.name desired.namespace_ after ≡ ok stored
    pub way :
        ((x : StatefulSet Q) × (stored ≡ laws.admitted x) × Whole x desired)
        ⊎ (InPlace desired before × Updated desired stored)

  create-Converged :
      (d : StatefulSet Q) (b w w' : W) → client.create d w ≡ (ok tt, w') → Converged d b w'
  create-Converged d b w w' e = record {
    stored = laws.admitted d;
    found = laws.created d w w' e;
    way = inl (d, refl, inl refl);
  }

  create_again-Converged :
      (d : StatefulSet Q) (b w w' : W)
      → create_again equal client d w ≡ (ok tt, w')
      → Converged d b w'
  unfolding create_again
  create_again-Converged d b w w' e =
      let x = record d { resource_version = "" } in
      record {
        stored = laws.admitted x;
        found = laws.created x w w' e;
        way = inl (x, refl, inr refl);
      }

  update-Converged :
      (d latest : StatefulSet Q) (b w w' : W)
      → InPlace d b
      → client.get d.name d.namespace_ w ≡ ok latest
      → client.update (copy_mutable_stateful_set_fields latest d) w ≡ (ok tt, w')
      → Converged d b w'
  unfolding copy_mutable_stateful_set_fields
  update-Converged d latest b w w' place g e =
      let x = copy_mutable_stateful_set_fields latest d in
      let named = laws.get_named d.name d.namespace_ w latest g in
      record {
        stored = laws.admitted x;
        found =
            sym (ap (λ n. client.get n d.namespace_ w') named.0)
            ∙ (sym (ap (λ n. client.get latest.name n w') named.1) ∙ laws.updated x w w' e);
        way = inr (
          place,
          inr (
            x,
            refl,
            record { labels = refl; replicas = refl; update_strategy = refl; template = refl },
          ),
        );
      }

  attempt_found-Converged :
      (d : StatefulSet Q) (a : Result (StatefulSet Q)) (b w w' : W)
      → InPlace d b
      → client.get d.name d.namespace_ w ≡ a
      → attempt_found equal client d a w ≡ (ok tt, w')
      → Converged d b w'
  unfolding attempt_found
  attempt_found-Converged d (err e) b w w' place g h = absurd (cc)
  attempt_found-Converged d (ok latest) b w w' place g h =
      elim (Bool-cases (stateful_set_needs_mutable_update equal latest d)) [
        | inl differs ↦ update-Converged d latest b w w' place g (rw differs at h)
        | inr same ↦
            let moved = ap (λ t. t.1) (rw same at h) in
            subst (λ v. Converged d b v) moved
              (record { stored = latest; found = g; way = inr (place, inl same) })
      ]

  Attempts-Converged :
      (d : StatefulSet Q) (b w w' : W) (answer : Result (Unit {0}) × W)
      → InPlace d b
      → Attempts (attempt equal client d) w answer
      → answer ≡ (ok tt, w')
      → Converged d b w'
  unfolding attempt
  Attempts-Converged d b w w' _ place last h = attempt_found-Converged d _ b w w' place refl h
  Attempts-Converged d b w w' answer place (again _ more) h =
      Attempts-Converged d b _ w' answer place more h

  after_delete-Converged :
      (d : StatefulSet Q) (b : W) (t : Result (Unit {0}) × W) (w' : W)
      → after_delete equal client d t ≡ (ok tt, w')
      → Converged d b w'
  unfolding after_delete
  after_delete-Converged d b (ok _, w) w' h = create_again-Converged d b w w' h
  after_delete-Converged d b (err e, w) w' h = elim (Bool-cases (is_not_found e)) [
    | inl missing ↦ create_again-Converged d b w w' (rw missing at h)
    | inr other ↦ let refused = rw other at h in absurd (cc)
  ]

  by_deletion-Converged :
      (d current : StatefulSet Q) (gone : Bool) (w w' : W)
      → (if gone
          then create_again equal client d w
          else after_delete equal client d (client.delete_orphan current w))
        ≡ (ok tt, w')
      → Converged d w w'
  by_deletion-Converged d current true w w' h = create_again-Converged d w w w' h
  by_deletion-Converged d current false w w' h =
      after_delete-Converged d w (client.delete_orphan current w) w' h

  recreate-Converged :
      (d current : StatefulSet Q) (w w' : W)
      → recreate equal client current d w ≡ (ok tt, w')
      → Converged d w w'
  unfolding recreate
  recreate-Converged d current w w' h = by_deletion-Converged d current current.is_deleted w w' h

  neither : (a b : Bool) → (a || b) ≡ false → (a ≡ false) × (b ≡ false)
  neither a b h = ground arith

  ensure_found-Converged :
      (d : StatefulSet Q) (a : Result (StatefulSet Q)) (w w' : W)
      → client.get d.name d.namespace_ w ≡ a
      → ensure_found equal client d a w ≡ (ok tt, w')
      → Converged d w w'
  unfolding ensure_found
  ensure_found-Converged d (err e) w w' g h = elim (Bool-cases (is_not_found e)) [
    | inl missing ↦ create-Converged d w w w' (rw missing at h)
    | inr other ↦ let refused = rw other at h in absurd (cc)
  ]
  ensure_found-Converged d (ok current) w w' g h =
      elim (Bool-cases
        (vct_drift_detected equal current d || stateful_set_structural_changes equal current d)) [
          | inl immutable ↦ recreate-Converged d current w w' (rw immutable at h)
          | inr mutable ↦
              let (no_drift, no_change) =
                neither (vct_drift_detected equal current d)
                  (stateful_set_structural_changes equal current d) mutable in
              let place : InPlace d w = record {
                current = current;
                had = g;
                no_drift = no_drift;
                no_change = no_change;
              } in
              Attempts-Converged d w w w' _ place (laws.retried (attempt equal client d) w)
                (rw mutable at h)
        ]

  -- If the API server stores what it is sent, with its defaults, a reconciliation of the StatefulSet that
  -- returns without an error leaves a StatefulSet of the desired name. Either it is what the server made of
  -- the whole desired object, or the cluster had one before whose claim templates, service name and
  -- selector do not differ from the desired ones, and after any number of conflicts the tests find no
  -- difference to the desired labels, replicas, update strategy and template, or it is what the server made
  -- of an object that has exactly these.
  pub ensure_node_workload-Converged :
      (build_desired : TaoNode Q → Result (StatefulSet Q)) (tn : TaoNode Q) (d : StatefulSet Q)
      (w w' : W)
      → build_desired tn ≡ ok d
      → ensure_node_workload equal client build_desired tn w ≡ (ok tt, w')
      → Converged d w w'
  unfolding ensure_node_workload ensure_desired
  ensure_node_workload-Converged build_desired tn d w w' b h =
      ensure_found-Converged d (client.get d.name d.namespace_ w) w w' refl (rw b at h)
