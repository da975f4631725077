-- ===== src/Analytics/Detector/Arrivals.antt =====
-- The scores that the detector returns, whatever the order in which its queries answer.
use tao_node_guardian.Base.{
  ℕ, zero, suc, ◌≤◌, ◌≡◌, refl, sym, ◌∙◌, subst, List, [], ◌∷◌, ◌++◌, length, arith,
}
use tao_node_guardian.Base.Errors.{ok}
use mathlib.Core.List.{Perm, Permᴰ, append-nil, append_assoc, perm_append_comm, Perm-prop}
use mathlib.Core.Logic.{∥∥₁_elim}
use mathlib.Core.List.Perm
use tao_node_guardian.Controller.Health.{AnomalyScore}
use tao_node_guardian.Analytics.Detector.{
  ScoreFloats, Telemetry, Query, queries, run_query, kept_score, receive_results, evaluate_node,
}

module _ {F : Type 0} (s : ScoreFloats F) (t : Telemetry F) (now : ℕ) where
  -- The scores above the noise floor, in the order of the queries.
  abbrev pub scores_of : List Query → List AnomalyScore
  scores_of [] = []
  scores_of (q ∷ rest) = kept_score s t now (run_query s t q) ++ scores_of rest

  receive_results-eq :
      (left : ℕ) (arrivals : List Query) (scores : List AnomalyScore)
      → length arrivals ≤ left
      → receive_results s t now left arrivals scores ≡ scores ++ scores_of arrivals
  unfolding receive_results
  receive_results-eq zero [] scores h = sym (append-nil scores)
  receive_results-eq zero (q ∷ rest) scores h = absurd (omega (arith, h))
  receive_results-eq (suc left) [] scores h = sym (append-nil scores)
  receive_results-eq (suc left) (q ∷ rest) scores h =
      let one = kept_score s t now (run_query s t q) in
      receive_results-eq left rest (scores ++ one) (omega (arith, h))
      ∙ append_assoc scores one (scores_of rest)

  exchanged :
      (p q : Query) (rest : List Query) → Perm (scores_of (p ∷ q ∷ rest)) (scores_of (q ∷ p ∷ rest))
  exchanged p q rest =
      let one = kept_score s t now (run_query s t p) in
      let two = kept_score s t now (run_query s t q) in
      let left = append_assoc one two (scores_of rest) in
      let right = append_assoc two one (scores_of rest) in
      rw⁻¹ (left, right) (Perm.append_right (scores_of rest) (perm_append_comm one two))

  same_length : {xs ys : List Query} → Permᴰ xs ys → length xs ≡ length ys
  same_length Permᴰ.nil = refl
  same_length (Permᴰ.cons e d) = omega (arith, same_length d)
  same_length (Permᴰ.swap e₁ e₂) = omega arith
  same_length (Permᴰ.trans d₁ d₂) = same_length d₁ ∙ same_length d₂

  reordered : (xs ys : List Query) → Permᴰ xs ys → Perm (scores_of xs) (scores_of ys)
  reordered _ _ Permᴰ.nil = Perm.refl []
  reordered _ _ (Permᴰ.cons {a} {b} {l₁} {l₂} e d) =
      subst (λ c. Perm (scores_of (a ∷ l₁)) (scores_of (c ∷ l₂))) e
        (Perm.append_left (kept_score s t now (run_query s t a)) (reordered l₁ l₂ d))
  reordered _ _ (Permᴰ.swap {a} {b} {a'} {b'} {l} e₁ e₂) =
      subst (λ c. Perm (scores_of (a ∷ b ∷ l)) (scores_of (a' ∷ c ∷ l))) e₁
        (subst (λ c. Perm (scores_of (a ∷ b ∷ l)) (scores_of (c ∷ a ∷ l))) e₂ (exchanged a b l))
  reordered _ _ (Permᴰ.trans {l₁} {l₂} {l₃} d₁ d₂) =
      Perm.trans (reordered l₁ l₂ d₁) (reordered l₂ l₃ d₂)

  -- If all queries answer before the deadline, in whatever order, the detector returns the scores above
  -- the noise floor that the queries give one by one: each of them, as often, and stamped.
  pub evaluate_node_perm :
      (arrivals : List Query)
      → Perm arrivals queries
      → (scores : List AnomalyScore) × (evaluate_node s t now arrivals ≡ ok scores)
        × Perm scores (scores_of queries)
  unfolding evaluate_node
  evaluate_node_perm arrivals p =
      let received = λ (d : Permᴰ arrivals queries).
        subst (λ l. Perm l (scores_of queries))
          (sym (receive_results-eq 5 arrivals [] (omega (arith, same_length d))))
          (reordered arrivals queries d) in
      (receive_results s t now 5 arrivals [], refl, ∥∥₁_elim p Perm-prop received)
