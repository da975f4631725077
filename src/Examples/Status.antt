-- ===== src/Examples/Status.antt =====
-- A bucket with two backups, six and five hours old when the report is made.
use tao_node_guardian.Base.{ℕ, ◌*◌, ◌∷◌, [], ◌≡◌, refl, List, some, any, true, ◌&&◌, length}
use tao_node_guardian.Base.Int.{pos}
use tao_node_guardian.Base.Errors.{ok}
use tao_node_guardian.DisasterRecovery.Status.{
  BackupEntry, Backups, S3Object, Line, listed_pages, list_backups, entries_of, backup_report,
  print_backup_status,
}
use tao_node_guardian.DisasterRecovery.Status.Breach.{
  is_warning, has_backups, all_breach, print_backup_status_warns,
}
use tao_node_guardian.Examples.Detector.{thousandths}

abbrev hour : ℕ
hour = 3_600_000_000_000

abbrev object : ℕ → S3Object
object hours = record {
  key = some "dr-backups/prod/backup.json.gz";
  last_modified = some (hours * hour);
  size = some (pos 5000);
}

abbrev bucket : Backups
bucket = record {
  load_config = ok tt;
  pages = ok (object 1 ∷ []) ∷ ok (object 2 ∷ []) ∷ [];
  has_suffix = λ text suffix. true;
  zero_time = 0;
}

abbrev clock : ℕ → ℕ
clock i = 7 * hour

abbrev entry : ℕ → BackupEntry
entry hours = record {
  key = "dr-backups/prod/backup.json.gz";
  last_modified = hours * hour;
  size_bytes = pos 5000;
}

abbrev lines : List Line
lines = backup_report thousandths clock "backups" (entry 1 ∷ entry 2 ∷ [])

bucket_lines : print_backup_status thousandths bucket clock "backups" ≡ ok lines
unfolding print_backup_status list_backups listed_pages entries_of
bucket_lines = refl

print_backup_status_warns_example :
    (entries : List BackupEntry) × (list_backups bucket ≡ ok entries)
    × (any is_warning lines ≡ (has_backups entries && all_breach (clock (length entries)) entries))
print_backup_status_warns_example =
    print_backup_status_warns thousandths bucket clock "backups" lines bucket_lines
