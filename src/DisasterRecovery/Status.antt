-- ===== src/DisasterRecovery/Status.antt =====
-- The status command, tools/tao-dr/internal/status/status.go. The pages of the object store, the
-- cluster and the floats are interfaces; the sizes of columns are left out of the report.
pub mod Breach
use tao_node_guardian.Base.{
  ℕ, ◌+◌, ◌*◌, String, List, [], ◌∷◌, ◌++◌, Option, none, some, Bool, ◌&&◌, str_eq, ltb, length,
  if◌then◌else◌,
}
use tao_node_guardian.Base.Int.{ℤ, pos, ◌-ℤ◌, ltb_ℤ, leb_ℤ}
use tao_node_guardian.Base.Dict.{Dict, lookup, insert}
use tao_node_guardian.Base.Errors.{Result, ok, err, plain, ◌>>=◌, context}
use tao_node_guardian.Base.Format.{Formatted, str, nat, int, sprintf, text}
use tao_node_guardian.Controller.Cost.{Float64}
use tao_node_guardian.DisasterRecovery.Restore.{Kubeconfig, kube_rest_config}

-- A duration is in nanoseconds.
abbrev minute : ℕ
minute = 60_000_000_000

abbrev hour : ℕ
hour = 3_600_000_000_000

abbrev pub rpo : ℕ
rpo = 4 * hour

pub record BackupEntry : Type 0 where
  pub key : String
  pub last_modified : ℕ
  pub size_bytes : ℤ

pub record S3Object : Type 0 where
  pub key : Option String
  pub last_modified : Option ℕ
  pub size : Option ℤ

-- What `aws.ToString` and its like give: the zero value for nil.
abbrev or_zero : {A : Type 0} → A → Option A → A
or_zero zero none = zero
or_zero zero (some a) = a

-- `pages` are the answers of the paginator, in order: after an error none is asked for. `zero_time` is
-- the zero `time.Time`, and `since` is `time.Since`, of a reading of the clock.
pub record Backups : Type 0 where
  pub load_config : Result (Unit {0})
  pub pages : List (Result (List S3Object))
  pub has_suffix : String → String → Bool
  pub zero_time : ℕ

abbrev age : ℕ → BackupEntry → ℤ
age now e = pos now -ℤ pos e.last_modified

-- `age > rpo`
abbrev pub is_breach : ℕ → BackupEntry → Bool
is_breach now e = ltb_ℤ (pos rpo) (age now e)

module _ (store : Backups) where
  unfoldable pub entries_of : List S3Object → List BackupEntry
  entries_of [] = []
  entries_of (obj ∷ rest) =
      let key = or_zero "" obj.key in
      let entries = entries_of rest in
      if store.has_suffix key ".json.gz"
      then record {
        key = key;
        last_modified = or_zero store.zero_time obj.last_modified;
        size_bytes = or_zero (pos 0) obj.size;
      }
        ∷ entries
      else entries

  unfoldable pub listed_pages : List (Result (List S3Object)) → Result (List BackupEntry)
  unfolding entries_of
  listed_pages [] = ok []
  listed_pages (page ∷ rest) =
      let others = listed_pages rest in
      context "listing s3://%s/dr-backups/: %w" page
      >>= (λ contents. others >>= (λ entries. ok (entries_of contents ++ entries)))

  unfoldable pub list_backups : Result (List BackupEntry)
  unfolding listed_pages
  list_backups = listed_pages store.pages

-- `sort.Slice` by `LastModified.After`: the order of backups of the same time, which Go leaves open, is
-- that of the listing.
unfoldable pub place : BackupEntry → List BackupEntry → List BackupEntry
place e [] = e ∷ []
place e (other ∷ rest) =
    let placed = place e rest in
    if ltb e.last_modified other.last_modified then other ∷ placed else e ∷ other ∷ rest

unfoldable pub newest_first : List BackupEntry → List BackupEntry
unfolding place
newest_first [] = []
newest_first (e ∷ rest) = place e (newest_first rest)

-- A line of the report: one of text, that of a backup with its key, size, age and label, or the
-- warning with the age of the latest backup.
pub data Line : Type 0 where
  line : Formatted → Line
  backup_line : String → Formatted → Formatted → String → Line
  breach_line : Formatted → Line

module _ {F : Type 0} (f : Float64 F) where
  abbrev quotient : ℤ → ℕ → F
  quotient a b = f.div (f.of_int a) (f.of_int (pos b))

  unfoldable pub human_bytes : ℤ → Formatted
  human_bytes b =
      if leb_ℤ (pos 0x10_0000) b
      then sprintf "%.1f MB" (f.shown (quotient b 0x10_0000) ∷ [])
      else if leb_ℤ (pos 0x400) b
      then sprintf "%.1f KB" (f.shown (quotient b 0x400) ∷ [])
      else sprintf "%d B" (int b ∷ [])

  -- `d.Hours()` and `d.Minutes()` are quotients.
  unfoldable pub human_duration : ℤ → Formatted
  human_duration d =
      if leb_ℤ (pos (24 * hour)) d
      then sprintf "%.0fd" (f.shown (f.div (quotient d hour) (f.literal "24")) ∷ [])
      else if leb_ℤ (pos hour) d
      then sprintf "%.0fh" (f.shown (quotient d hour) ∷ [])
      else sprintf "%.0fm" (f.shown (quotient d minute) ∷ [])

  unfoldable pub rpo_label : ℕ → BackupEntry → String
  rpo_label now e = if is_breach now e then "✗ BREACH" else "✓ ok"

  -- The clock is read once for each backup, and once more for the warning.
  unfoldable pub backup_lines : (ℕ → ℕ) → ℕ → List BackupEntry → List Line
  unfolding human_bytes human_duration rpo_label
  backup_lines clock i [] = []
  backup_lines clock i (e ∷ rest) =
      backup_line e.key (human_bytes e.size_bytes) (human_duration (age (clock i) e))
        (rpo_label (clock i) e)
      ∷ backup_lines clock (i + 1) rest

  unfoldable pub latest_lines : ℕ → List BackupEntry → List Line
  unfolding human_duration
  latest_lines now [] = line (text "(no backups found under dr-backups/)") ∷ []
  latest_lines now (e ∷ _) =
      if is_breach now e then breach_line (human_duration (age now e)) ∷ [] else []

  unfoldable pub backup_report : (ℕ → ℕ) → String → List BackupEntry → List Line
  unfolding newest_first backup_lines latest_lines
  backup_report clock bucket entries =
      let sorted = newest_first entries in
      line (sprintf "DR BACKUP INVENTORY  (s3://%s)\n" (str bucket ∷ []))
      ∷ line (text "KEY\tSIZE\tAGE\tRPO")
      ∷ line (text "───\t────\t───\t───")
      ∷ (backup_lines clock 0 sorted ++ latest_lines (clock (length entries)) sorted)

  unfoldable pub print_backup_status : Backups → (ℕ → ℕ) → String → Result (List Line)
  unfolding list_backups backup_report
  print_backup_status store clock bucket =
      context "loading AWS config: %w" store.load_config
      >>= (λ _. list_backups store >>= (λ entries. ok (backup_report clock bucket entries)))

pub record NodeCondition : Type 0 where
  pub type_ : String
  pub status : String

-- `nodes` are the conditions of the cluster's nodes, and `tao_nodes` what `NestedString` gives of the phase
-- of each TaoNode: "" without one. `kubernetes` and `dynamic` are the `NewForConfig` of both clients.
pub record ClusterReads (C : Type 0) : Type 0 where
  pub configs : Kubeconfig C
  pub kubernetes : C → Result (Unit {0})
  pub dynamic : C → Result (Unit {0})
  pub nodes : Result (List (List NodeCondition))
  pub tao_nodes : Result (List String)

abbrev is_ready : NodeCondition → Bool
is_ready c = str_eq c.type_ "Ready" && str_eq c.status "True"

unfoldable pub ready_conditions : List NodeCondition → ℕ
ready_conditions [] = 0
ready_conditions (c ∷ rest) =
    let count = ready_conditions rest in if is_ready c then count + 1 else count

unfoldable pub ready_count : List (List NodeCondition) → ℕ
unfolding ready_conditions
ready_count [] = 0
ready_count (n ∷ rest) = ready_conditions n + ready_count rest

abbrev phase_or_unknown : String → String
phase_or_unknown phase = if str_eq phase "" then "Unknown" else phase

abbrev pub count_of : String → Dict ℕ → ℕ
count_of phase counts = or_zero 0 (lookup phase counts)

unfoldable pub count_phases : Dict ℕ → List String → Dict ℕ
count_phases counts [] = counts
count_phases counts (found ∷ rest) =
    let phase = phase_or_unknown found in
    count_phases (insert phase (count_of phase counts + 1) counts) rest

unfoldable pub tao_node_phase_counts : List String → Dict ℕ
unfolding count_phases
tao_node_phase_counts list = count_phases [] list

abbrev pub shown_phases : List String
shown_phases =
    "Synced" ∷ "Syncing" ∷ "Degraded" ∷ "Recovering" ∷ "Failed" ∷ "Pending" ∷ "Unknown" ∷ []

unfoldable pub phase_lines : Dict ℕ → List String → List Formatted
phase_lines counts [] = []
phase_lines counts (phase ∷ rest) =
    let others = phase_lines counts rest in
    if ltb 0 (count_of phase counts)
    then sprintf "    %-14s\t%d\n" (str phase ∷ nat (count_of phase counts) ∷ []) ∷ others
    else others

unfoldable pub tao_node_lines : Result (List String) → List Formatted
unfolding phase_lines tao_node_phase_counts
tao_node_lines (err _) = text "  TaoNode CRD:\t✗ not installed (run 'make install' first)\n" ∷ []
tao_node_lines (ok list) =
    sprintf "  TaoNodes:\t%d total\n" (nat (length list) ∷ [])
    ∷ phase_lines (tao_node_phase_counts list) shown_phases

unfoldable pub health_lines : List (List NodeCondition) → Result (List String) → List Formatted
unfolding ready_count tao_node_lines
health_lines nodes tao_nodes =
    text "CLUSTER HEALTH"
    ∷ text "──────────────────────────────────────────────"
    ∷ text "  K8s API:\t✓ reachable\n"
    ∷ sprintf "  Nodes:\t%d Ready / %d Total\n" (nat (ready_count nodes) ∷ nat (length nodes) ∷ [])
    ∷ tao_node_lines tao_nodes

module _ {C : Type 0} (cluster : ClusterReads C) where
  unfoldable pub health_of : Result C → Result (List Formatted)
  unfolding health_lines
  health_of (err _) =
      ok (text "CLUSTER HEALTH  ✗ unreachable (kubeconfig not found or invalid)" ∷ [])
  health_of (ok config) =
      context "building kubernetes client: %w" (cluster.kubernetes config) >>= (λ _.
        context "building dynamic client: %w" (cluster.dynamic config) >>= (λ _.
          context "listing nodes: %w" cluster.nodes
          >>= (λ nodes. ok (health_lines nodes cluster.tao_nodes))))

  unfoldable pub print_cluster_health : String → Result (List Formatted)
  unfolding kube_rest_config health_of
  print_cluster_health kubeconfig = health_of (kube_rest_config cluster.configs kubeconfig)

  module _ {F : Type 0} (f : Float64 F) (store : Backups) where
    -- Both sections are printed before either error is returned; a section that fails prints nothing.
    unfoldable pub run_status :
        (ℕ → ℕ) → String → String → Result (Unit {0}) × Result (List Line) × Result (List Formatted)
    unfolding print_backup_status print_cluster_health
    run_status clock bucket kubeconfig =
        let backup = print_backup_status f store clock bucket in
        let health = print_cluster_health kubeconfig in
        if str_eq bucket ""
        then (err (plain "--s3-bucket is required"), ok [], ok [])
        else (first_error backup health, backup, health)
      where
        first_error : Result (List Line) → Result (List Formatted) → Result (Unit {0})
        first_error backup health =
            context "backup status: %w" backup >>= (λ _. health >>= (λ _. ok tt))
