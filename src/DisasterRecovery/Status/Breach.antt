-- ===== src/DisasterRecovery/Status/Breach.antt =====
-- The warning of the status command about the latest backup, as a statement about all of them.
use tao_node_guardian.Base.{
  ℕ, String, List, [], ◌∷◌, ◌++◌, Bool, true, false, ◌&&◌, ◌≡◌, refl, subst, any, ltb, length,
  arith, ◌+◌,
}
use tao_node_guardian.Base.Errors.{Result, ok, err, ◌>>=◌, context}
use tao_node_guardian.Base.Int.{◌-ℤ◌}
use tao_node_guardian.Controller.Cost.{Float64}
use tao_node_guardian.DisasterRecovery.Status.{
  BackupEntry, Backups, is_breach, list_backups, place, newest_first, Line, line, backup_line,
  breach_line, backup_lines, latest_lines, backup_report, print_backup_status, rpo,
}

abbrev pub is_warning : Line → Bool
is_warning (line _) = false
is_warning (backup_line _ _ _ _) = false
is_warning (breach_line _) = true

abbrev pub has_backups : List BackupEntry → Bool
has_backups [] = false
has_backups (_ ∷ _) = true

abbrev pub all_breach : ℕ → List BackupEntry → Bool
all_breach now [] = true
all_breach now (e ∷ rest) = is_breach now e && all_breach now rest

abbrev head_breach : ℕ → List BackupEntry → Bool
head_breach now [] = true
head_breach now (e ∷ _) = is_breach now e

is_breach-eq : (now : ℕ) (e : BackupEntry) → is_breach now e ≡ ltb (rpo + e.last_modified) now
unfolding ◌-ℤ◌
is_breach-eq now e = ground arith

place-head_breach :
    (now : ℕ) (e : BackupEntry) (sorted : List BackupEntry)
    → head_breach now (place e sorted) ≡ (is_breach now e && head_breach now sorted)
unfolding place
place-head_breach now e [] = ground arith
place-head_breach now e (other ∷ rest) = ground (arith, is_breach-eq now e, is_breach-eq now other)

newest_first-head_breach :
    (now : ℕ) (entries : List BackupEntry)
    → head_breach now (newest_first entries) ≡ all_breach now entries
unfolding newest_first
newest_first-head_breach now [] = refl
newest_first-head_breach now (e ∷ rest) =
    rw (place-head_breach now e (newest_first rest)) (rw (newest_first-head_breach now rest) refl)

place-has_backups :
    (e : BackupEntry) (sorted : List BackupEntry) → has_backups (place e sorted) ≡ true
unfolding place
place-has_backups e [] = refl
place-has_backups e (other ∷ rest) = ground arith

newest_first-has_backups :
    (entries : List BackupEntry) → has_backups (newest_first entries) ≡ has_backups entries
unfolding newest_first
newest_first-has_backups [] = refl
newest_first-has_backups (e ∷ rest) = place-has_backups e (newest_first rest)

module _ {F : Type 0} (f : Float64 F) where
  latest_lines-any :
      (now : ℕ) (sorted : List BackupEntry)
      → any is_warning (latest_lines f now sorted) ≡ (has_backups sorted && head_breach now sorted)
  unfolding latest_lines
  latest_lines-any now [] = refl
  latest_lines-any now (e ∷ rest) = ground arith

  backup_lines-any :
      (clock : ℕ → ℕ) (i : ℕ) (entries : List BackupEntry) (after : List Line)
      → any is_warning (backup_lines f clock i entries ++ after) ≡ any is_warning after
  unfolding backup_lines
  backup_lines-any clock i [] after = refl
  backup_lines-any clock i (e ∷ rest) after = backup_lines-any clock (i + 1) rest after

  backup_report-any :
      (clock : ℕ → ℕ) (bucket : String) (entries : List BackupEntry)
      → any is_warning (backup_report f clock bucket entries)
        ≡ (has_backups entries && all_breach (clock (length entries)) entries)
  unfolding backup_report
  backup_report-any clock bucket entries =
      let now = clock (length entries) in
      rw
        (backup_lines-any clock 0 (newest_first entries)
          (latest_lines f now (newest_first entries)))
        (rw (latest_lines-any now (newest_first entries))
          (rw (newest_first-has_backups entries) (rw (newest_first-head_breach now entries) refl)))

  printed_report :
      (clock : ℕ → ℕ) (bucket : String) (lines : List Line) (config : Result (Unit {0}))
      (found : Result (List BackupEntry))
      → (context "loading AWS config: %w" config
          >>= (λ _. found >>= (λ entries. ok (backup_report f clock bucket entries))))
        ≡ ok lines
      → (entries : List BackupEntry) × (found ≡ ok entries)
        × (backup_report f clock bucket entries ≡ lines)
  printed_report clock bucket lines (ok _) (ok entries) printed = (entries, refl, cc)
  printed_report clock bucket lines (ok _) (err e) printed = absurd (cc)
  printed_report clock bucket lines (err e) found printed = absurd (cc)

  -- A backup section that is printed without error has the warning exactly when backups were listed
  -- and every one of them, not only the latest, is older than the objective at the last reading of
  -- the clock.
  pub print_backup_status_warns :
      (store : Backups) (clock : ℕ → ℕ) (bucket : String) (lines : List Line)
      → print_backup_status f store clock bucket ≡ ok lines
      → (entries : List BackupEntry) × (list_backups store ≡ ok entries)
        × (any is_warning lines
            ≡ (has_backups entries && all_breach (clock (length entries)) entries))
  unfolding print_backup_status
  print_backup_status_warns store clock bucket lines printed =
      let (entries, found, same) =
        printed_report clock bucket lines store.load_config (list_backups store) printed in
      let warns = λ (ls : List Line).
        any is_warning ls ≡ (has_backups entries && all_breach (clock (length entries)) entries) in
      (entries, found, subst warns same (backup_report-any clock bucket entries))
