-- ===== src/Controller/Finalization/Cleanup.antt =====
-- What `handleFinalization` of internal/controller/taonode_controller.go leaves behind.
use tao_node_guardian.Base.{
  join, ℕ, ◌≡◌, refl, ap, ◌∙◌, subst, String, List, Option, none, some, Bool, true, false, ◌⊎◌,
  Bool-cases, arith, inl, inr,
}
use tao_node_guardian.Base.Errors.{Error, Result, ok, err, is_not_found}
use tao_node_guardian.Api.Status.{TaoNode}
use tao_node_guardian.Controller.State.{KubeClient, Run}
use tao_node_guardian.Api.Spec.{SnapshotPolicySpec}
use tao_node_guardian.Controller.Snapshots.{trigger_snapshot, trigger_with, note_snapshot}
use tao_node_guardian.Controller.ValidatorGuard.{
  Lease, LeaseClient, lease_name, singleton_suffix, is_validator,
}
use tao_node_guardian.Controller.Finalization.{
  removal_result, finalizer_name, FinalizerOps, NodeClient, wants_last_snapshot, delete_answered,
  delete_lease_if_exists, last_snapshot, release_lease, let_go, handle_finalization,
}

-- The documented behaviour of the calls: removing a finalizer removes it, a Lease is gone once its deletion
-- succeeds, and one that is not found is not there. Any call may fail. `held` tells which Leases are there,
-- and the update of a TaoNode touches none.
pub record Cleanable {Q W : Type 0} (finalizers : FinalizerOps) (leases : LeaseClient W)
    (nodes : NodeClient Q W) : Type 0 where
  pub removed :
      (l : List String) (f : String)
      → finalizers.contains_finalizer (finalizers.remove_finalizer l f) f ≡ false
  pub held : W → String → String → Bool
  pub deleted :
      (ns name : String) (l : Lease) (w : W)
      → leases.get_lease ns name w ≡ ok l
      → (leases.delete_lease l w).0 ≡ ok tt
      → held (leases.delete_lease l w).1 ns name ≡ false
  pub missing :
      (ns name : String) (e : Error) (w : W)
      → leases.get_lease ns name w ≡ err e
      → is_not_found e ≡ true
      → held w ns name ≡ false
  pub untouched :
      (tn : TaoNode Q) (w : W) (ns name : String)
      → held (nodes.update_node tn w).1 ns name ≡ held w ns name

module _ {Q W : Type 0} (finalizers : FinalizerOps) (kube : KubeClient W) (leases : LeaseClient W)
    (nodes : NodeClient Q W) (now : ℕ) where
  -- The same node but for its status.
  pub record SameNode (s t : Run Q W) : Type 0 where
    pub spec : t.node.spec ≡ s.node.spec
    pub name : t.node.name ≡ s.node.name
    pub namespace_ : t.node.namespace_ ≡ s.node.namespace_

  trigger-SameNode :
      (p : Option SnapshotPolicySpec) (reason : String) (s : Run Q W)
      → SameNode s (trigger_with kube now p reason s).1
  unfolding trigger_with note_snapshot
  trigger-SameNode none reason s = record { spec = refl; name = refl; namespace_ = refl }
  trigger-SameNode (some p) reason s = record {
    spec = ground arith;
    name = ground arith;
    namespace_ = ground arith;
  }

  snapshot-SameNode : (s : Run Q W) → SameNode s (last_snapshot finalizers kube leases nodes now s)
  unfolding last_snapshot trigger_snapshot
  snapshot-SameNode s = elim (Bool-cases (wants_last_snapshot s.node.spec.snapshot_policy)) [
    | inl wants ↦ rw wants (trigger-SameNode s.node.spec.snapshot_policy "pre-deletion" s)
    | inr no_policy ↦ rw no_policy (record { spec = refl; name = refl; namespace_ = refl })
  ]

  module _ (clean : Cleanable finalizers leases nodes) where
    -- The Lease is gone, or its deletion in the cluster `asked` returned an error.
    abbrev pub Released : String → String → W → W → Type 0
    Released ns name asked w =
        (clean.held w ns name ≡ false)
        ⊎ ((e : Error) × ((delete_lease_if_exists leases ns name asked).0 ≡ err e))

    answered-gone :
        (ns name : String) (w : W) (found : Result Lease)
        → leases.get_lease ns name w ≡ found
        → let t = delete_answered leases found w in
          (clean.held t.1 ns name ≡ false) ⊎ ((e : Error) × (t.0 ≡ err e))
    answered-gone ns name w (ok l) g = deletion (leases.delete_lease l w).0 refl
      where
        deletion :
            (r : Result (Unit {0}))
            → (leases.delete_lease l w).0 ≡ r
            → (clean.held (leases.delete_lease l w).1 ns name ≡ false)
              ⊎ ((e : Error) × ((leases.delete_lease l w).0 ≡ err e))
        deletion (ok _) a = inl (clean.deleted ns name l w g a)
        deletion (err e) a = inr (e, a)
    answered-gone ns name w (err e) g = elim (Bool-cases (is_not_found e)) [
      | inl absent ↦ inl (clean.missing ns name e w g absent)
      | inr other ↦ inr (e, rw other refl)
    ]

    delete-Released :
        (ns name : String) (w : W) → Released ns name w (delete_lease_if_exists leases ns name w).1
    unfolding delete_lease_if_exists
    delete-Released ns name w = answered-gone ns name w (leases.get_lease ns name w) refl

    release-Released :
        (s : Run Q W)
        → is_validator s.node.spec.role ≡ true
        → let t = release_lease finalizers kube leases nodes now s in
          Released s.node.namespace_ (lease_name s.node) s.world t.world × (t.node ≡ s.node)
    unfolding release_lease
    release-Released s v =
        rw v (delete-Released s.node.namespace_ (lease_name s.node) s.world, refl)

    -- What is left of a node: it has no finalizer, its Lease is gone or its deletion failed, and the outcome
    -- is that of the update that stored it.
    pub record LetGo (ns lease : String) (asked : W) (t : Result (Unit {0}) × Run Q W)
        : Type 0 where
      pub no_finalizer : finalizers.contains_finalizer t.1.node.finalizers finalizer_name ≡ false
      pub released : Released ns lease asked t.1.world
      pub before : W
      pub stored : t.1.world ≡ (nodes.update_node t.1.node before).1
      pub outcome :
          t.0
          ≡ removal_result finalizers kube leases nodes now (nodes.update_node t.1.node before).0

    carried :
        (ns lease : String) (asked w : W) (tn : TaoNode Q)
        → Released ns lease asked w
        → Released ns lease asked (nodes.update_node tn w).1
    carried ns lease asked w tn (inl gone) = inl (clean.untouched tn w ns lease ∙ gone)
    carried ns lease asked w tn (inr failed) = inr failed

    let_go-LetGo :
        (ns lease : String) (asked : W) (s : Run Q W)
        → Released ns lease asked s.world
        → LetGo ns lease asked (let_go finalizers kube leases nodes now s)
    unfolding let_go
    let_go-LetGo ns lease asked s released = record {
      no_finalizer = clean.removed s.node.finalizers finalizer_name;
      released = carried ns lease asked s.world _ released;
      before = s.world;
      stored = refl;
      outcome = refl;
    }

    -- The finalization of a validator that has the finalizer removes the finalizer, whatever the last
    -- snapshot and the calls on the Lease answer, and succeeds exactly as the update of the node does. The
    -- Lease is gone then, unless its deletion, asked for after the snapshot, returned an error.
    pub handle_finalization-LetGo :
        (s : Run Q W)
        → finalizers.contains_finalizer s.node.finalizers finalizer_name ≡ true
        → is_validator s.node.spec.role ≡ true
        → LetGo s.node.namespace_
            (lease_name s.node)
            (last_snapshot finalizers kube leases nodes now s).world
            (handle_finalization finalizers kube leases nodes now s)
    unfolding handle_finalization
    handle_finalization-LetGo s has v =
        let u = last_snapshot finalizers kube leases nodes now s in
        let same = snapshot-SameNode s in
        let t = release_lease finalizers kube leases nodes now u in
        let (released, kept) = release-Released u (ap (λ x. is_validator x.role) same.spec ∙ v) in
        let named =
          subst (λ n. Released u.node.namespace_ (join n singleton_suffix) u.world t.world)
            same.name released in
        let placed =
          subst (λ ns. Released ns (lease_name s.node) u.world t.world) same.namespace_ named in
        rw has (let_go-LetGo s.node.namespace_ (lease_name s.node) u.world t placed)
