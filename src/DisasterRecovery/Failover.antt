-- ===== src/DisasterRecovery/Failover.antt =====
-- The failover command, tools/tao-dr/internal/failover/failover.go. Terraform and the file system are an
-- interface; what is printed is left out, and the message at the end is the ending.
pub mod Variables
use tao_node_guardian.Base.{
  String, List, [], ◌∷◌, Option, none, some, Bool, false, not, ◌||◌, join, str_eq, if◌then◌else◌,
}
use text.Mathlib.Text.{starts_with, get?}
use tao_node_guardian.Base.Errors.{Error, plain, wrap, Result, ok, err, ◌>>=◌, context}

-- `no_changes` and `planned` are the two returns after the plan.
pub data Ending : Type 0 where
  no_changes planned applied : Ending

-- `cut` is `strings.Cut` at "=", `stat` says whether a path is a directory, and `plan` whether there are changes; `init` may download, so that it changes the state.
pub record Terraform (W : Type 0) : Type 0 where
  pub cut : String → Option (String × String)
  pub look_path : String → Result String
  pub is_not_exist : Error → Bool
  pub stat : String → Result Bool
  pub getwd : Result String
  pub new_terraform : String → String → Result (Unit {0})
  pub init : W → Result (Unit {0}) × W
  pub plan : List String → Option String → W → Result Bool × W
  pub apply : String → List String → W → Result (Unit {0}) × W

abbrev is_colon : Option String → Bool
is_colon none = false
is_colon (some b) = str_eq b ":"

abbrev absolute_in : String → Result String → Result String
absolute_in dir (err _) = ok dir
absolute_in dir (ok here) =
    if starts_with dir "/" || is_colon (get? dir 1 2) then ok dir else ok (join (join here "/") dir)

abbrev pub var_of : Option (String × String) → Result String
var_of none = err (plain "invalid --tf-var %q: expected key=value format")
var_of (some (key, value)) =
    if str_eq key ""
    then err (plain "invalid --tf-var %q: expected key=value format")
    else ok (join (join key "=") value)

abbrev pub plan_file : String
plan_file = "tao-dr-failover.tfplan"

abbrev pub apply_ended : {W : Type 0} → Result (Unit {0}) × W → Result Ending × W
apply_ended (err e, w) = (err (wrap "terraform apply: %w" e), w)
apply_ended (ok _, w) = (ok applied, w)

module _ {W : Type 0} (tf : Terraform W) where
  abbrev stat_answered : String → Result Bool → Result String
  stat_answered dir (err e) =
      if tf.is_not_exist e then err (plain "directory does not exist: %s") else err e
  stat_answered dir (ok is_dir) =
      if is_dir then absolute_in dir tf.getwd else err (plain "%s is not a directory")

  unfoldable pub resolve_path : String → Result String
  resolve_path dir = stat_answered dir (tf.stat dir)

  -- The options of the plan and of the apply are the same texts.
  unfoldable pub build_var_opts : List String → Result (List String)
  build_var_opts [] = ok []
  build_var_opts (pair ∷ pairs) =
      let rest = build_var_opts pairs in
      var_of (tf.cut pair) >>= (λ v. rest >>= (λ vs. ok (v ∷ vs)))

  abbrev pub plan_ended : Bool → List String → Result Bool × W → Result Ending × W
  plan_ended dry_run vars (err e, w) = (err (wrap "terraform plan: %w" e), w)
  plan_ended dry_run vars (ok changes, w) =
      if not changes
      then (ok no_changes, w)
      else if dry_run
      then (ok planned, w)
      else apply_ended (tf.apply plan_file vars w)

  abbrev pub init_ended : Bool → List String → Result (Unit {0}) × W → Result Ending × W
  init_ended dry_run vars (err e, w) = (err (wrap "terraform init: %w" e), w)
  init_ended dry_run vars (ok _, w) =
      plan_ended dry_run vars (tf.plan vars (if dry_run then none else some plan_file) w)

  -- What is settled before Terraform runs: the variables.
  unfoldable pub set_up : String → List String → Result (List String)
  unfolding resolve_path build_var_opts
  set_up dir pairs =
      context "terraform binary not found in PATH: %w" (tf.look_path "terraform") >>= (λ bin.
        context "resolving --tf-dir %q: %w" (resolve_path dir) >>= (λ abs.
          context "initializing tfexec: %w" (tf.new_terraform abs bin)
          >>= (λ _. build_var_opts pairs)))

  abbrev pub with_vars : Bool → Result (List String) → W → Result Ending × W
  with_vars dry_run (err e) w = (err e, w)
  with_vars dry_run (ok vars) w = init_ended dry_run vars (tf.init w)

  unfoldable pub run_failover : String → List String → Bool → W → Result Ending × W
  unfolding set_up
  run_failover dir pairs dry_run w = with_vars dry_run (set_up dir pairs) w
