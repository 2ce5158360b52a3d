-- ===== src/Backup/Verifier.antt =====
-- `verify_backup` and `test_restore` of src/infra/backup/verification.rs. How numbers, errors and
-- types are written is the formatter's, an argument; the restore is what the backup manager answers.
use analytics_hub.Prelude.Text.{◌++◌}
use analytics_hub.Prelude.{
  ℕ, String, Option, none, some, Bool, List, [], ◌∷◌, ltb, if◌then◌else◌, Outcome, ok, err,
}
use analytics_hub.Prelude.Int.{ℤ, pos, ltb_ℤ}
use analytics_hub.Backup.{
  BackupConfig, BackupMetadata, VerificationCheck, VerificationResult, passes, fails, new_result,
  add_check, complete,
}
use analytics_hub.Backup.Store.{
  ObjectStore, Rfc3339, StorageError, days_since, get_backup_metadata, type_name,
}

-- `{}` of a number, of a signed number and of an error.
pub record Format : Type 0 where
  pub number : ℕ → String
  pub integer : ℤ → String
  pub error : StorageError → String

pub record RestoreResult : Type 0 where
  pub success : Bool
  pub duration_seconds : ℕ
  pub restored_size_bytes : ℕ
  pub tables_restored : ℕ
  pub messages : List String

-- Where `verify_backup_exists` looks for a backup.
abbrev pub backup_location : String → String
backup_location backup_id = "s3://backups/" ++ backup_id ++ "/" ++ backup_id

module _ (format : Format) where
  abbrev pub exists_check : VerificationCheck
  exists_check = passes "Backup exists in S3" "Backup found in S3 storage"

  abbrev pub missing_check : StorageError → VerificationCheck
  missing_check e = fails "Backup exists in S3" ("Backup not found: " ++ format.error e)

  abbrev pub size_check : BackupMetadata → VerificationCheck
  size_check m =
      if ltb 0 m.size_bytes
      then passes "Backup size" ("Valid backup size: " ++ format.number m.size_bytes ++ " bytes")
      else fails "Backup size" "Backup size is zero or invalid"

  abbrev pub checksum_check : Option String → VerificationCheck
  checksum_check (some checksum) = passes "Checksum" ("Checksum present: " ++ checksum)
  checksum_check none = fails "Checksum" "No checksum available for verification"

  abbrev pub encryption_check : BackupMetadata → VerificationCheck
  encryption_check m =
      if m.encryption
      then passes "Encryption" "Backup is encrypted"
      else passes "Encryption" "Backup is not encrypted (warning)"

  abbrev pub compression_check : Option String → VerificationCheck
  compression_check (some compression) = passes "Compression" ("Compression: " ++ compression)
  compression_check none = passes "Compression" "No compression applied"

  abbrev pub type_check : BackupMetadata → VerificationCheck
  type_check m = passes "Backup type" ("Type: " ++ type_name m.backup_type)

  abbrev pub timestamp_check : ℤ → VerificationCheck
  timestamp_check age_days =
      if ltb_ℤ age_days (pos 0)
      then fails "Timestamp" "Backup timestamp is in the future"
      else passes "Timestamp" ("Backup age: " ++ format.integer age_days ++ " days")

  abbrev pub wal_check : Option String → VerificationCheck
  wal_check (some wal_pos) = passes "PITR capability" ("WAL position available: " ++ wal_pos)
  wal_check none = fails "PITR capability" "No WAL position - PITR not available"

  abbrev pub add_checks : List VerificationCheck → VerificationResult → VerificationResult
  add_checks [] r = r
  add_checks (c ∷ cs) r = add_checks cs (add_check c r)

  -- The checks of a backup that exists, in their order.
  abbrev pub checks_of : ℤ → BackupMetadata → List VerificationCheck
  checks_of now m =
      exists_check
      ∷ size_check m
      ∷ checksum_check m.checksum
      ∷ encryption_check m
      ∷ compression_check m.compression
      ∷ type_check m
      ∷ timestamp_check (days_since now m.timestamp)
      ∷ wal_check m.wal_position
      ∷ []

  unfoldable pub verified_as : ℤ → String → Outcome BackupMetadata StorageError → VerificationResult
  unfolding add_check complete
  verified_as now backup_id (ok m) = complete (add_checks (checks_of now m) (new_result backup_id))
  verified_as now backup_id (err e) = complete (add_check (missing_check e) (new_result backup_id))

  -- `read` is the time at which a backup without a timestamp is read, `now` that of the check.
  unfoldable pub verify_backup :
      (store : ObjectStore)
      → Rfc3339
      → BackupConfig
      → ℤ
      → ℤ
      → String
      → store.Bucket
      → VerificationResult
  unfolding verified_as get_backup_metadata
  verify_backup store rfc config read now backup_id b =
      verified_as now backup_id
        (get_backup_metadata store rfc config read (backup_location backup_id) b)

  abbrev pub positive_check : String → ℕ → String → String → String → VerificationCheck
  positive_check name n before after otherwise =
      if ltb 0 n then passes name (before ++ format.number n ++ after) else fails name otherwise

  abbrev pub restore_checks : RestoreResult → List VerificationCheck
  restore_checks r =
      (if r.success
        then passes "Restore test" (
            "Restore successful: "
            ++ format.number r.tables_restored
            ++ " tables, "
            ++ format.number r.restored_size_bytes
            ++ " bytes")
        else fails "Restore test" "Restore completed but reported as unsuccessful")
      ∷ positive_check "Restore duration" r.duration_seconds "Completed in " " seconds"
          "Invalid restore duration"
      ∷ positive_check "Table restoration" r.tables_restored "" " tables restored"
          "No tables were restored"
      ∷ positive_check "Data size" r.restored_size_bytes "" " bytes restored" "No data was restored"
      ∷ []

  unfoldable pub test_restore : String → Outcome RestoreResult StorageError → VerificationResult
  unfolding add_check complete
  test_restore backup_id (ok r) = complete (add_checks (restore_checks r) (new_result backup_id))
  test_restore backup_id (err e) = complete (
      add_check (fails "Restore test" ("Restore failed: " ++ format.error e))
        (new_result backup_id))
