-- ===== src/Examples/Backup.antt =====
-- Backups at concrete inputs, in an object store that keeps a dictionary.
use text.Mathlib.TextEquality.{eq_iff}
use analytics_hub.Prelude.{
  ◌≡◌, ◌≢◌, refl, ap, ◌∙◌, String, Option, none, some, false, [], ◌∷◌, Outcome, ok, err, arith,
}
use analytics_hub.Prelude.Int.{pos}
use analytics_hub.Prelude.Dict.{Dict, lookup, insert, remove, str_eq, lookup-insert}
use analytics_hub.Backup.{
  default_config, full, completed, BackupMetadata, BackupEntry, new_metadata,
}
use analytics_hub.Backup.Store.{
  ObjectHead, ObjectStore, Rfc3339, upload_backup, get_backup_metadata,
}
use analytics_hub.Backup.Retention.{cleanup_old_backups}
use analytics_hub.Backup.Verifier.{Format, backup_location, verify_backup}
use analytics_hub.Backup.Verdict.{IsFinal, is_restorable, verify_backup_verdict}
use analytics_hub.Backup.Lost.{
  IsObjectStore, uploaded_not_found, expired_ids, delete_all, archives_stay,
}

abbrev found_or_404 : Option ObjectHead → Outcome ObjectHead String
found_or_404 none = err "404"
found_or_404 (some h) = ok h

abbrev disk : ObjectStore
disk = record {
  Bucket = Dict ObjectHead;
  head_object = λ key b. found_or_404 (lookup key b);
  put_object = λ key head b. (ok tt, insert key head b);
  delete_object = λ key b. (ok tt, remove key b);
}

differ : (a b : String) → str_eq a b ≡ false → a ≢ b
differ a b d e = ground (arith, eq_iff a b)

str_eq_other : (a b : String) → a ≢ b → str_eq a b ≡ false
str_eq_other a b other = ground (arith, eq_iff a b)

lookup-remove_other :
    (key asked : String) (b : Dict ObjectHead)
    → key ≢ asked
    → lookup asked (remove key b) ≡ lookup asked b
unfolding lookup remove
lookup-remove_other key asked [] other = refl
lookup-remove_other key asked (entry ∷ b) other =
    let later = lookup-remove_other key asked b other in
    ground (arith, later, eq_iff (entry.0) key, eq_iff (entry.0) asked)

disk-IsObjectStore : IsObjectStore disk
disk-IsObjectStore = record {
  head-put = λ key asked head b other.
      ap found_or_404 (lookup-insert key asked head b ∙ rw (str_eq_other key asked other) refl);
  head-delete = λ key asked b other. ap found_or_404 (lookup-remove_other key asked b other);
}

-- The tests read no time from a text.
abbrev no_times : Rfc3339
no_times = record { to_rfc3339 = λ t. ""; parse_from_rfc3339 = λ s. none }

abbrev plain : Format
plain = record { number = λ n. "n"; integer = λ n. "i"; error = λ e. "error" }

abbrev nightly : BackupMetadata
nightly = record (new_metadata (pos 0) "backup-hub-1" "hub") {
  checksum = some "c0ffee";
  wal_position = some "0/16B3748";
}

verify_backup_verdict_example :
    IsFinal (verify_backup plain disk no_times default_config (pos 0) (pos 0) "backup-hub-1" [])
    × ((verify_backup plain disk no_times default_config (pos 0) (pos 0) "backup-hub-1" []).valid
        ≡ is_restorable (pos 0) (
            get_backup_metadata disk no_times default_config
              (pos 0)
              (backup_location "backup-hub-1")
              []))
verify_backup_verdict_example =
    verify_backup_verdict plain disk no_times default_config (pos 0) (pos 0) "backup-hub-1" []

abbrev archive_key : String
archive_key = "timescaledb/hub/backup-hub-1.tar.gz"

other_key : archive_key ≢ "backup-hub-1/backup-hub-1"
other_key = differ archive_key "backup-hub-1/backup-hub-1" refl

nothing_there : found_or_404 (lookup "backup-hub-1/backup-hub-1" []) ≡ err "404"
unfolding lookup
nothing_there = refl

uploaded_not_found_example :
    (verify_backup plain disk no_times default_config
      (pos 0)
      (pos 0)
      "backup-hub-1"
      (upload_backup disk no_times default_config "backup-hub-1.tar.gz" 4096 nightly []).1).valid
    ≡ false
unfolding new_metadata
uploaded_not_found_example =
    uploaded_not_found disk default_config no_times plain (pos 0) (pos 0) 4096 nightly []
      disk-IsObjectStore other_key nothing_there

abbrev old : BackupEntry
old = record {
  backup_id = "backup-hub-1";
  timestamp = pos 0;
  size_bytes = 4096;
  backup_type = full;
  status = completed;
  age_days = pos 31;
}

not_the_archive : "timescaledb/hub/backup-hub-1" ≢ archive_key
not_the_archive = differ "timescaledb/hub/backup-hub-1" archive_key refl

deletes_old :
    (cleanup_old_backups disk default_config "hub"
      (old ∷ [])
      []
      ((archive_key, record { metadata = none; content_length = some 4096 }) ∷ [])).0
    ≡ ok ("backup-hub-1" ∷ [])
unfolding cleanup_old_backups
deletes_old = refl

archives_stay_example :
    ("backup-hub-1" ∷ [] ≡ expired_ids disk default_config "hub" (old ∷ []))
    × ((cleanup_old_backups disk default_config "hub"
          (old ∷ [])
          []
          ((archive_key, record { metadata = none; content_length = some 4096 }) ∷ [])).1
        ≡ delete_all disk default_config "hub"
            (expired_ids disk default_config "hub" (old ∷ []))
            ((archive_key, record { metadata = none; content_length = some 4096 }) ∷ []))
    × (disk.head_object archive_key
          (cleanup_old_backups disk default_config "hub"
            (old ∷ [])
            []
            ((archive_key, record { metadata = none; content_length = some 4096 }) ∷ [])).1
        ≡ disk.head_object archive_key
            ((archive_key, record { metadata = none; content_length = some 4096 }) ∷ []))
archives_stay_example =
    archives_stay disk default_config "hub" "backup-hub-1" (old ∷ [])
      ((archive_key, record { metadata = none; content_length = some 4096 }) ∷ [])
      disk-IsObjectStore (not_the_archive, tt) deletes_old
