-- ===== src/DisasterRecovery/Failover/Variables.antt =====
-- A failover with variables, tools/tao-dr/internal/failover/failover.go.
use tao_node_guardian.Base.{
  String, List, [], ◌∷◌, none, some, Bool, true, false, ◌≡◌, ◌≢◌, ap, refl, if◌then◌else◌,
}
use tao_node_guardian.Base.Errors.{Result, ok, err, >>=-eq-ok, context}
use tao_node_guardian.DisasterRecovery.Failover.{
  applied, Terraform, resolve_path, var_of, build_var_opts, plan_file, apply_ended, plan_ended,
  init_ended, set_up, with_vars, run_failover,
}

module _ {W : Type 0} (tf : Terraform W) where
  -- Terraform refuses to set variables when it applies a saved plan.
  abbrev pub RefusesVariables : Type 0
  RefusesVariables =
      (file var : String) (vars : List String) (w w' : W)
      → tf.apply file (var ∷ vars) w ≡ (ok tt, w')
      → ⊥

  -- At least one variable stays at least one.
  abbrev Has : List String → Type 0
  Has [] = ⊥
  Has (_ ∷ _) = Unit

  build_var_opts-Has :
      (pair : String) (pairs vars : List String)
      → build_var_opts tf (pair ∷ pairs) ≡ ok vars
      → Has vars
  unfolding build_var_opts
  build_var_opts-Has pair pairs [] h =
      let (v, _, more) = >>=-eq-ok (var_of (tf.cut pair)) _ [] h in
      let (vs, _, none_left) = >>=-eq-ok (build_var_opts tf pairs) (λ vs. ok (v ∷ vs)) [] more in
      absurd (cc)
  build_var_opts-Has pair pairs (v ∷ vs) h = tt

  set_up-Has :
      (dir pair : String) (pairs vars : List String)
      → set_up tf dir (pair ∷ pairs) ≡ ok vars
      → Has vars
  unfolding set_up
  set_up-Has dir pair pairs vars h =
      let (bin, _, h1) =
        >>=-eq-ok (context "terraform binary not found in PATH: %w" (tf.look_path "terraform")) _
          vars h in
      let (abs, _, h2) =
        >>=-eq-ok (context "resolving --tf-dir %q: %w" (resolve_path tf dir)) _ vars h1 in
      let (_, _, h3) =
        >>=-eq-ok (context "initializing tfexec: %w" (tf.new_terraform abs bin)) _ vars h2 in
      build_var_opts-Has pair pairs vars h3

  apply_not_ended :
      (t : Result (Unit {0}) × W) → (t.0 ≡ ok tt → ⊥) → (apply_ended t).0 ≡ ok applied → ⊥
  apply_not_ended (ok _, w) fails h = fails refl
  apply_not_ended (err e, w) fails h = cc

  refused_apply :
      (vars : List String) (w : W)
      → RefusesVariables
      → Has vars
      → (tf.apply plan_file vars w).0 ≡ ok tt
      → ⊥
  refused_apply [] w refuses has h = absurd has
  refused_apply (v ∷ vs) w refuses has h =
      let t : Result (Unit {0}) × W = tf.apply plan_file (v ∷ vs) w in
      refuses plan_file v vs w t.1 (ap (λ (r : Result (Unit {0})). (r, t.1)) h)

  plan_not_ended :
      (dry_run : Bool) (vars : List String) (t : Result Bool × W)
      → RefusesVariables
      → Has vars
      → (plan_ended tf dry_run vars t).0 ≡ ok applied
      → ⊥
  plan_not_ended dry_run vars (err e, w) refuses has h = cc
  plan_not_ended dry_run vars (ok false, w) refuses has h = absurd (cc)
  plan_not_ended true vars (ok true, w) refuses has h = absurd (cc)
  plan_not_ended false vars (ok true, w) refuses has h =
      apply_not_ended (tf.apply plan_file vars w) (refused_apply vars w refuses has) h

  init_not_ended :
      (dry_run : Bool) (vars : List String) (t : Result (Unit {0}) × W)
      → RefusesVariables
      → Has vars
      → (init_ended tf dry_run vars t).0 ≡ ok applied
      → ⊥
  init_not_ended dry_run vars (err e, w) refuses has h = cc
  init_not_ended dry_run vars (ok _, w) refuses has h =
      plan_not_ended dry_run vars (tf.plan vars (if dry_run then none else some plan_file) w)
        refuses has h

  vars_not_ended :
      (dry_run : Bool) (a : Result (List String)) (w : W)
      → RefusesVariables
      → ((vars : List String) → a ≡ ok vars → Has vars)
      → (with_vars tf dry_run a w).0 ≡ ok applied
      → ⊥
  vars_not_ended dry_run (err e) w refuses has h = cc
  vars_not_ended dry_run (ok vars) w refuses has h =
      init_not_ended dry_run vars (tf.init w) refuses (has vars refl) h

  -- If Terraform refuses to set variables while it applies a saved plan, then a failover with at least
  -- one --tf-var never ends with the plan applied, whatever the plan says and Terraform answers.
  pub run_failover_never_applies :
      (dir pair : String) (pairs : List String) (dry_run : Bool) (w : W)
      → RefusesVariables
      → (run_failover tf dir (pair ∷ pairs) dry_run w).0 ≢ ok applied
  unfolding run_failover
  run_failover_never_applies dir pair pairs dry_run w refuses h =
      vars_not_ended dry_run (set_up tf dir (pair ∷ pairs)) w refuses
        (λ vars e. set_up-Has dir pair pairs vars e) h
