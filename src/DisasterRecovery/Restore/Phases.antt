-- ===== src/DisasterRecovery/Restore/Phases.antt =====
-- The order of the phases of a restore, tools/tao-dr/internal/restore/restore.go.
use tao_node_guardian.Base.{
  String, List, [], ◌∷◌, ◌++◌, Option, Bool, true, false, ◌≡◌, refl, sym, subst, inl, inr,
  Bool-cases,
}
use tao_node_guardian.Base.Errors.{Result, ok, err, context}
use tao_node_guardian.DisasterRecovery.Restore.{
  Object, ObjectStore, Decoder, crd_resource, DynamicClient, Kubeconfig, RestoreOptions, prepare,
  for_each, and_then, established, wait_crd_established, wait_crds, patched, apply_resource,
  apply_crds, apply_nodes, apply_phases, connected, prepared, run_restore,
}

abbrev failed : Result (Unit {0}) → Bool
failed (ok _) = false
failed (err _) = true

failed_unless :
    (r : Result (Unit {0})) (format : String) → (r ≡ ok tt → ⊥) → failed (context format r) ≡ true
failed_unless (ok _) format h = absurd (h refl)
failed_unless (err e) format h = refl

module _ {X W : Type 0} (client : DynamicClient X W) (force : Bool) (P : W → Type 0) where
  -- A CRD of this name is not Established in any cluster with the property, which a patch of a CRD
  -- and the time that passes in a poll keep; a poll that succeeds does so with its condition.
  pub record Waiting (name : String) : Type 0 where
    pub pending : (w : W) → P w → established client name w ≡ false
    pub crds :
        (ns : Option String) (obj : Object X) (w : W)
        → P w
        → P (client.patch crd_resource ns obj force w).1
    pub time : (c : W → Bool) (w : W) → P w → P (client.poll c w).1
    pub polled : (c : W → Bool) (w : W) → (client.poll c w).0 ≡ ok tt → c (client.poll c w).1 ≡ true

  and_then_keeps :
      (t : Result (Unit {0}) × W) (next : W → Result (Unit {0}) × W)
      → P t.1
      → ((v : W) → P v → P (next v).1)
      → P (and_then t next).1
  and_then_keeps (ok _, w) next p keeps = keeps w p
  and_then_keeps (err e, w) next p keeps = p

  -- What fails is not followed by the next step.
  and_then_stops :
      (t : Result (Unit {0}) × W) (next : W → Result (Unit {0}) × W)
      → failed t.0 ≡ true
      → failed (and_then t next).0 ≡ true
  and_then_stops (ok _, w) next h = absurd (cc)
  and_then_stops (err e, w) next h = refl

  and_then_unchanged :
      (t : Result (Unit {0}) × W) (next : W → Result (Unit {0}) × W)
      → failed t.0 ≡ true
      → (and_then t next).1 ≡ t.1
  and_then_unchanged (ok _, w) next h = absurd (cc)
  and_then_unchanged (err e, w) next h = refl

  and_then_fails :
      (t : Result (Unit {0}) × W) (next : W → Result (Unit {0}) × W)
      → P t.1
      → ((v : W) → P v → failed (next v).0 ≡ true)
      → failed (and_then t next).0 ≡ true
  and_then_fails (ok _, w) next p fails = fails w p
  and_then_fails (err e, w) next p fails = refl

  for_each_keeps :
      {A : Type 0} (format : String) (f : A → W → Result (Unit {0}) × W) (l : List A) (w : W)
      → ((a : A) (v : W) → P v → P (f a v).1)
      → P w
      → P (for_each format f l w).1
  for_each_keeps format f [] w keeps p = p
  for_each_keeps format f (a ∷ rest) w keeps p =
      and_then_keeps (context format (f a w).0, (f a w).1) (λ v. for_each format f rest v)
        (keeps a w p) (λ v q. for_each_keeps format f rest v keeps q)

  patched_keeps :
      (name : String) (waiting : Waiting name) (obj : Object X) (a : Result (Unit {0})) (w : W)
      → P w
      → P (patched client force crd_resource obj a w).1
  patched_keeps name waiting obj (err e) w p = p
  patched_keeps name waiting obj (ok _) w p = waiting.crds _ obj w p

  apply_crds_keeps :
      (name : String) (waiting : Waiting name) (crds : List (Object X)) (w : W)
      → P w
      → P (apply_crds client force crds w).1
  unfolding apply_crds apply_resource
  apply_crds_keeps name waiting crds w p =
      for_each_keeps "applying CRD %s: %w" (apply_resource client force crd_resource) crds w
        (λ obj v q. patched_keeps name waiting obj (client.marshal obj) v q) p

  -- A wait that succeeds would have seen the CRD Established.
  never_established :
      (name : String) (waiting : Waiting name) (w : W)
      → P w
      → failed
          (context "CRD %s did not become Established: %w" (wait_crd_established client name w).0)
        ≡ true
  unfolding wait_crd_established
  never_established name waiting w p =
      failed_unless (client.poll (established client name) w).0
        "CRD %s did not become Established: %w"
        (λ e.
          let seen = waiting.polled (established client name) w e in
          let unseen =
            waiting.pending (client.poll (established client name) w).1
              (waiting.time (established client name) w p) in
          cc)

  waited_keeps :
      (name : String) (waiting : Waiting name) (other : String) (w : W)
      → P w
      → P (wait_crd_established client other w).1
  unfolding wait_crd_established
  waited_keeps name waiting other w p = waiting.time (established client other) w p

  wait_crds_fails :
      (crd : Object X) (waiting : Waiting crd.name) (before after : List (Object X)) (w : W)
      → P w
      → failed (wait_crds client (before ++ crd ∷ after) w).0 ≡ true
  unfolding wait_crds
  wait_crds_fails crd waiting [] after w p =
      let t = wait_crd_established client crd.name w in
      and_then_stops (context "CRD %s did not become Established: %w" t.0, t.1)
        (λ v.
          for_each "CRD %s did not become Established: %w" (λ c. wait_crd_established client c.name)
            after v)
        (never_established crd.name waiting w p)
  wait_crds_fails crd waiting (c ∷ before) after w p =
      let t = wait_crd_established client c.name w in
      and_then_fails (context "CRD %s did not become Established: %w" t.0, t.1)
        (λ v.
          for_each "CRD %s did not become Established: %w" (λ c. wait_crd_established client c.name)
            (before ++ crd ∷ after) v)
        (waited_keeps crd.name waiting c.name w p)
        (λ v q. wait_crds_fails crd waiting before after v q)

  wait_crds_keeps :
      (name : String) (waiting : Waiting name) (crds : List (Object X)) (w : W)
      → P w
      → P (wait_crds client crds w).1
  unfolding wait_crds
  wait_crds_keeps name waiting crds w p =
      for_each_keeps "CRD %s did not become Established: %w"
        (λ c. wait_crd_established client c.name) crds w
        (λ c v q. waited_keeps name waiting c.name v q) p

  apply_phases_keeps :
      (crd : Object X) (waiting : Waiting crd.name) (before after nodes : List (Object X)) (w : W)
      → P w
      → P (apply_phases client force (before ++ crd ∷ after) nodes w).1
  unfolding apply_phases
  apply_phases_keeps crd waiting before after nodes w p =
      let crds = before ++ crd ∷ after in
      let first = and_then (apply_crds client force crds w) (wait_crds client crds) in
      let applied = apply_crds_keeps crd.name waiting crds w p in
      subst P
        (sym (
          and_then_unchanged first (apply_nodes client force nodes) (
            and_then_fails (apply_crds client force crds w) (wait_crds client crds) applied
              (λ v q. wait_crds_fails crd waiting before after v q))))
        (and_then_keeps (apply_crds client force crds w) (wait_crds client crds) applied
          (λ v q. wait_crds_keeps crd.name waiting crds v q))

module _ {R B X C W : Type 0} (store : ObjectStore B) (decoder : Decoder R B X)
    (configs : Kubeconfig C) (client : DynamicClient X W) where
  connected_keeps :
      (P : W → Type 0) (options : RestoreOptions) (a : Result (Unit {0})) (crd : Object X)
      (before after nodes : List (Object X)) (w : W)
      → Waiting client options.force P crd.name
      → P w
      → P (connected store decoder configs client options a (before ++ crd ∷ after) nodes w).2
  connected_keeps P options (err e) crd before after nodes w waiting p = p
  connected_keeps P options (ok _) crd before after nodes w waiting p =
      apply_phases_keeps client options.force P crd waiting before after nodes w p

  prepared_keeps :
      (P : W → Type 0) (options : RestoreOptions) (crd : Object X)
      (before after nodes : List (Object X)) (w : W)
      → Waiting client options.force P crd.name
      → P w
      → P (prepared store decoder configs client options (ok (before ++ crd ∷ after, nodes)) w).2
  prepared_keeps P options crd before after nodes w waiting p = elim (Bool-cases options.dry_run) [
    | inl dry ↦ rw dry p
    | inr wet ↦ rw wet (connected_keeps P options _ crd before after nodes w waiting p)
  ]

  -- Take a property of the cluster that patches of CRDs and the time that passes while polling keep, and
  -- that a cluster has only while one of the CRDs of the backup is not Established, where a poll that
  -- succeeds has seen its condition. Then the whole restore keeps it, whatever the backup and the calls
  -- answer: as long as the CRD is not Established, no TaoNode is applied.
  pub run_restore_keeps :
      (P : W → Type 0) (options : RestoreOptions) (crd : Object X)
      (before after nodes : List (Object X)) (w : W)
      → prepare store decoder options ≡ ok (before ++ crd ∷ after, nodes)
      → Waiting client options.force P crd.name
      → P w
      → P (run_restore store decoder configs client options w).2
  unfolding run_restore
  run_restore_keeps P options crd before after nodes w e waiting p =
      subst (λ a. P (prepared store decoder configs client options a w).2) (sym e)
        (prepared_keeps P options crd before after nodes w waiting p)
