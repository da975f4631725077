-- ===== src/Controller/Snapshots/Sorting.antt =====
-- The insertion sort of `sortSnapshotsByAge`: it orders by age and keeps the snapshots that are there.
use tao_node_guardian.Base.{ℕ, suc, ◌+◌, ◌≤◌, ◌≡◌, refl, List, [], ◌∷◌, ◌++◌, length, arith}
use tao_node_guardian.Controller.State.{Snapshot}
use mathlib.Core.List.{Perm, perm_middle, append-nil}
use mathlib.Core.List.Perm
use tao_node_guardian.Controller.Snapshots.{sink, sort_loop, to_front, sort_snapshots_by_age}

abbrev AtMost : ℕ → List Snapshot → Type 0
AtMost t [] = Unit {0}
AtMost t (x ∷ xs) = x.created ≤ t

abbrev pub AtLeast : ℕ → List Snapshot → Type 0
AtLeast t [] = Unit {0}
AtLeast t (x ∷ xs) = t ≤ x.created

-- Newest first, as the prefix stands in the loops.
abbrev Falling : List Snapshot → Type 0
Falling [] = Unit {0}
Falling (x ∷ xs) = AtMost x.created xs × Falling xs

-- Oldest first.
abbrev pub Rising : List Snapshot → Type 0
Rising [] = Unit {0}
Rising (x ∷ xs) = AtLeast x.created xs × Rising xs

sink_head :
    (t : ℕ) (x : Snapshot) (xs : List Snapshot) → x.created ≤ t → AtMost t xs → AtMost t (sink x xs)
unfolding sink
sink_head t x [] h a = h
sink_head t x (y ∷ ys) h a = ground arith

sink-Falling : (x : Snapshot) (xs : List Snapshot) → Falling xs → Falling (sink x xs)
unfolding sink
sink-Falling x [] f = (tt, tt)
sink-Falling x (y ∷ ys) f =
    ground
      (arith, sink-Falling x ys f.1, λ (h : x.created ≤ y.created). sink_head y.created x ys h f.0)

sort_loop-Falling :
    (sorted items : List Snapshot) → Falling sorted → Falling (sort_loop sorted items)
unfolding sort_loop
sort_loop-Falling sorted [] f = f
sort_loop-Falling sorted (x ∷ xs) f = sort_loop-Falling (sink x sorted) xs (sink-Falling x sorted f)

abbrev Joins : List Snapshot → List Snapshot → Type 0
Joins [] ys = Unit {0}
Joins (x ∷ xs) ys = AtLeast x.created ys

to_front-Rising :
    (xs acc : List Snapshot) → Falling xs → Rising acc → Joins xs acc → Rising (to_front xs acc)
unfolding to_front
to_front-Rising [] acc f r j = r
to_front-Rising (x ∷ xs) acc f r j = to_front-Rising xs (x ∷ acc) f.1 (j, r) (next xs f.0)
  where
    next : (xs : List Snapshot) → AtMost x.created xs → Joins xs (x ∷ acc)
    next [] a = tt
    next (y ∷ ys) a = a

start-Joins : (xs : List Snapshot) → Joins xs []
start-Joins [] = tt
start-Joins (x ∷ xs) = tt

-- Sorting any list of snapshots puts the oldest first: no snapshot is younger than the next one.
pub sort-Rising : (items : List Snapshot) → Rising (sort_snapshots_by_age items)
unfolding sort_snapshots_by_age
sort-Rising items =
    to_front-Rising (sort_loop [] items) [] (sort_loop-Falling [] items tt) tt (start-Joins _)

sink-perm : (x : Snapshot) (xs : List Snapshot) → Perm (sink x xs) (x ∷ xs)
unfolding sink
sink-perm x [] = Perm.refl (x ∷ [])
sink-perm x (y ∷ ys) =
    ground
      (arith, Perm.refl (x ∷ y ∷ ys), Perm.trans (Perm.cons y (sink-perm x ys)) (Perm.swap x y ys))

sort_loop-perm : (sorted items : List Snapshot) → Perm (sort_loop sorted items) (sorted ++ items)
unfolding sort_loop
sort_loop-perm sorted [] = rw append-nil (Perm.refl sorted)
sort_loop-perm sorted (x ∷ xs) =
    Perm.trans (sort_loop-perm (sink x sorted) xs)
      (Perm.trans (Perm.append_right xs (sink-perm x sorted)) (Perm.symm (perm_middle sorted xs)))

to_front-perm : (xs acc : List Snapshot) → Perm (to_front xs acc) (xs ++ acc)
unfolding to_front
to_front-perm [] acc = Perm.refl acc
to_front-perm (x ∷ xs) acc = Perm.trans (to_front-perm xs (x ∷ acc)) (perm_middle xs acc)

-- Sorting any list of snapshots keeps the snapshots that it holds, each as often.
pub sort-perm : (items : List Snapshot) → Perm (sort_snapshots_by_age items) items
unfolding sort_snapshots_by_age
sort-perm items =
    Perm.trans (to_front-perm (sort_loop [] items) []) (rw append-nil (sort_loop-perm [] items))

length-sink : (x : Snapshot) (xs : List Snapshot) → length (sink x xs) ≡ suc (length xs)
unfolding sink
length-sink x [] = refl
length-sink x (y ∷ ys) = ground (arith, length-sink x ys)

length-sort_loop :
    (sorted items : List Snapshot) → length (sort_loop sorted items) ≡ length sorted + length items
unfolding sort_loop
length-sort_loop sorted [] = omega arith
length-sort_loop sorted (x ∷ xs) =
    omega (arith, length-sort_loop (sink x sorted) xs, length-sink x sorted)

length-to_front : (xs acc : List Snapshot) → length (to_front xs acc) ≡ length xs + length acc
unfolding to_front
length-to_front [] acc = omega arith
length-to_front (x ∷ xs) acc = omega (arith, length-to_front xs (x ∷ acc))

pub length-sort : (items : List Snapshot) → length (sort_snapshots_by_age items) ≡ length items
unfolding sort_snapshots_by_age
length-sort items =
    omega (arith, length-to_front (sort_loop [] items) [], length-sort_loop [] items)
