-- ===== src/Examples/Snapshots.antt =====
-- Pruning on a cluster that is the list of its snapshots.
use tao_node_guardian.Base.{
  ℕ, ◌∷◌, [], ◌≡◌, ◌==◌, ◌&&◌, refl, sym, subst, none, some, List, arith, str_eq, eq_iff,
  Bool-cases, inl, inr, true, false,
}
use tao_node_guardian.Base.Errors.{ok, err, api, not_found}
use tao_node_guardian.Api.Status.{pending}
use tao_node_guardian.Controller.State.{Snapshot, KubeClient}
use tao_node_guardian.Controller.Snapshots.{prune_old_snapshots}
use tao_node_guardian.Controller.Snapshots.Retention.{Pruned, SnapshotStore, prune-Pruned}
use tao_node_guardian.Examples.Nodes.{node_in, snapshot_policy}
use mathlib.Core.List.{Perm, erase}
use mathlib.Core.List.Perm
use mathlib.Core.Logic.{ite}

snapshot_eq : (a b : Snapshot) → (a.name ≡ b.name) × (a.created ≡ b.created) → a ≡ b
snapshot_eq a b e = cc

same_refl : (a : Snapshot) → (str_eq a.name a.name && (a.created == a.created)) ≡ true
same_refl a = ground (arith, eq_iff a.name a.name)

subst_no : (a b : Snapshot) → a ≡ b → (str_eq a.name b.name && (a.created == b.created)) ≡ false → ⊥
subst_no a b e n =
    let different =
      subst (λ c. (str_eq a.name c.name && (a.created == c.created)) ≡ false) (sym e) n in
    absurd (ground (arith, same_refl a, different))

same? : (a b : Snapshot) → Dec (a ≡ b)
same? a b = elim (Bool-cases (str_eq a.name b.name && (a.created == b.created))) [
  | inl e ↦ yes (snapshot_eq a b (ground (arith, eq_iff a.name b.name)))
  | inr n ↦ no (λ e. subst_no a b e n)
]

abbrev cluster : KubeClient (List Snapshot)
cluster = record {
  get_pod = λ ns name w. err (api not_found);
  delete_pod = λ pod w. (ok tt, w);
  create_snapshot = λ r w. (ok tt, w);
  list_snapshots = λ ns labels w. ok w;
  delete_snapshot = λ x w. (ok tt, erase same? w x);
}

erase_head : (x : Snapshot) (rest : List Snapshot) → erase same? (x ∷ rest) x ≡ rest
erase_head x rest = go (same? x x)
  where
    go : (d : Dec (x ≡ x)) → ite d rest (x ∷ erase same? rest x) ≡ rest
    go (yes e) = refl
    go (no n) = absurd (n refl)

store : SnapshotStore cluster
store = record {
  view = λ w. w;
  listed = λ ns labels w. refl;
  deleted = λ x rest w p. (refl, rw (erase_head x rest) at (Perm.erase same? x p));
}

abbrev taken : ℕ → Snapshot
taken t = record { name = "snap"; created = t }

abbrev four : List Snapshot
four = taken 3 ∷ taken 1 ∷ taken 4 ∷ taken 2 ∷ []

prune-Pruned_example :
    let (result, w') =
      prune_old_snapshots cluster (node_in pending none) (some snapshot_policy) four in
    (result ≡ ok tt) × ((deleted kept : List Snapshot) × Pruned 2 four deleted kept × Perm w' kept)
unfolding store
prune-Pruned_example = prune-Pruned cluster store (node_in pending none) snapshot_policy 2 four refl
