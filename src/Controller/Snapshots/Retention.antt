-- ===== src/Controller/Snapshots/Retention.antt =====
-- Which snapshots the pruning deletes, and what is left in the cluster.
use tao_node_guardian.Base.{
  ℕ, zero, suc, ◌-◌, ◌≤◌, ◌≡◌, inl, inr, refl, sym, ap, subst, String, List, [], ◌∷◌, ◌++◌, length,
  take, drop, All, arith, some, leb, if◌then◌else◌, Bool-cases, take-append-drop, length-drop,
  leb→le,
}
use tao_node_guardian.Base.Int.{pos, pos_part, ◌-ℤ◌}
use tao_node_guardian.Base.Dict.{Dict}
use tao_node_guardian.Base.Errors.{ok}
use tao_node_guardian.Base.Format.{Formatted}
use tao_node_guardian.Api.Spec.{SnapshotPolicySpec}
use tao_node_guardian.Api.Status.{TaoNode}
use tao_node_guardian.Controller.State.{Snapshot, KubeClient}
use mathlib.Core.List.{Perm}
use mathlib.Core.List.Perm
use tao_node_guardian.Controller.Snapshots.{
  labels_for_node, sort_snapshots_by_age, excess, delete_all, prune_old_snapshots,
}
use tao_node_guardian.Controller.Snapshots.Sorting.{
  AtLeast, Rising, sort-Rising, sort-perm, length-sort,
}

-- Every snapshot of the first list is at least as old as every one of the second.
abbrev pub Older : List Snapshot → List Snapshot → Type 0
Older xs ys = All (λ x. All (λ y. x.created ≤ y.created) ys) xs

Rising-All : (t : ℕ) (xs : List Snapshot) → AtLeast t xs → Rising xs → All (λ y. t ≤ y.created) xs
Rising-All t [] h r = tt
Rising-All t (x ∷ xs) h r = (h, Rising-All t xs (weaken xs r.0) r.1)
  where
    weaken : (ys : List Snapshot) → AtLeast x.created ys → AtLeast t ys
    weaken [] a = tt
    weaken (y ∷ ys) a = omega arith

All-drop :
    (t n : ℕ) (xs : List Snapshot)
    → All (λ y. t ≤ y.created) xs
    → All (λ y. t ≤ y.created) (drop n xs)
All-drop t zero xs a = a
All-drop t (suc n) [] a = tt
All-drop t (suc n) (x ∷ xs) a = All-drop t n xs a.1

split-Older : (n : ℕ) (xs : List Snapshot) → Rising xs → Older (take n xs) (drop n xs)
split-Older zero xs r = tt
split-Older (suc n) [] r = tt
split-Older (suc n) (x ∷ xs) r =
    (All-drop x.created n xs (Rising-All x.created xs r.0 r.1), split-Older n xs r.1)

-- What the pruning deletes and what it spares: `kept` is a choice of the listed snapshots.
pub record Pruned (retention : ℕ) (items deleted kept : List Snapshot) : Type 0 where
  pub all_there : Perm items (deleted ++ kept)
  pub older : Older deleted kept
  pub few : length kept ≤ retention
  pub no_more : length items ≤ retention → deleted ≡ []
  pub full : retention ≤ length items → length kept ≡ retention

-- The sorted list after what is cut off its front.
pub kept_of : ℕ → List Snapshot → List Snapshot
kept_of r items =
    if leb (length items) r then items else drop (length items - r) (sort_snapshots_by_age items)

excess_pos :
    (r : ℕ) (items : List Snapshot)
    → excess (pos r) items
      ≡ (if leb (length items) r then [] else take (length items - r) (sort_snapshots_by_age items))
unfolding excess ◌-ℤ◌
excess_pos r items = elim (Bool-cases (leb (length items) r)) [
  | inl few ↦ ground arith
  | inr many ↦
      let e : pos_part (pos (length items) -ℤ pos r) ≡ length items - r = ground arith in
      ground (arith, ap (λ n. take n (sort_snapshots_by_age items)) e)
]

-- Of any list the pruning deletes the oldest snapshots and just as many as exceed the retention: the
-- deleted and the kept ones together are the list, no deleted one is younger than a kept one, at
-- most `r` are kept, and exactly `r` if there are that many.
excess-Pruned :
    (r : ℕ) (items : List Snapshot) → Pruned r items (excess (pos r) items) (kept_of r items)
unfolding kept_of
excess-Pruned r items = rw (excess_pos r items) (elim (Bool-cases (leb (length items) r)) [
  | inl few ↦ rw few (record {
    all_there = Perm.refl items;
    older = tt;
    few = leb→le (length items) r few;
    no_more = λ h. refl;
    full = λ h. ground arith;
  })
  | inr many ↦
      let sorted = sort_snapshots_by_age items in
      let n = length items - r in
      let left : length (drop n sorted) ≡ r =
        ground (arith, length-drop n sorted, length-sort items) in
      rw many (record {
        all_there =
            subst (Perm items) (sym (take-append-drop n sorted)) (Perm.symm (sort-perm items));
        older = split-Older n sorted (sort-Rising items);
        few = omega (arith, left);
        no_more = λ h. absurd (ground arith);
        full = λ h. left;
      })
])

-- A cluster whose snapshots of the node can be listed and deleted: `view` is what is there, in some
-- order, and deleting one that is there removes that one.
pub record SnapshotStore {W : Type 0} (kube : KubeClient W) : Type 0 where
  pub view : W → List Snapshot
  pub listed :
      (ns : String) (labels : Dict Formatted) (w : W)
      → kube.list_snapshots ns labels w ≡ ok (view w)
  pub deleted :
      (x : Snapshot) (rest : List Snapshot) (w : W)
      → Perm (view w) (x ∷ rest)
      → ((kube.delete_snapshot x w).0 ≡ ok tt) × Perm (view (kube.delete_snapshot x w).1) rest

module _ {W : Type 0} (kube : KubeClient W) (store : SnapshotStore kube) where
  delete_all-Perm :
      (xs rest : List Snapshot) (w : W)
      → Perm (store.view w) (xs ++ rest)
      → ((delete_all kube xs w).0 ≡ ok tt) × Perm (store.view (delete_all kube xs w).1) rest
  unfolding delete_all
  delete_all-Perm [] rest w p = (refl, p)
  delete_all-Perm (x ∷ xs) rest w p =
      let (fine, q) = store.deleted x (xs ++ rest) w p in
      rw (fine, delete_all) (delete_all-Perm xs rest (kube.delete_snapshot x w).1 q)

  -- On such a cluster pruning succeeds, and leaves the newest snapshots, as many as the retention
  -- says or all if there are fewer: what is there afterwards is, up to order, what the retention
  -- keeps of what was there before.
  pub prune-Pruned :
      {Q : Type 0} (tn : TaoNode Q) (policy : SnapshotPolicySpec) (r : ℕ) (w : W)
      → policy.retention_count ≡ pos r
      → let (result, w') = prune_old_snapshots kube tn (some policy) w in
        (result ≡ ok tt)
        × ((deleted kept : List Snapshot) × Pruned r (store.view w) deleted kept
            × Perm (store.view w') kept)
  unfolding prune_old_snapshots
  prune-Pruned tn policy r w e =
      let items = store.view w in
      let cut = excess-Pruned r items in
      let (fine, left) = delete_all-Perm (excess (pos r) items) (kept_of r items) w cut.all_there in
      rw (e, store.listed tn.namespace_ (labels_for_node tn) w)
        (fine, (excess (pos r) items, kept_of r items, cut, left))
