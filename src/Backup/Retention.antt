-- ===== src/Backup/Retention.antt =====
-- The retention of src/infra/backup/s3.rs, and the statistics of src/infra/backup/verification.rs,
-- over the backups that the store listed.
use analytics_hub.Prelude.{
  ℕ, ◌+◌, String, Bool, true, false, List, [], ◌∷◌, ◌++◌, length, count, u64, if◌then◌else◌,
  Outcome, ok, err,
}
use analytics_hub.Prelude.Int.{ℤ, pos, ltb_ℤ}
use analytics_hub.Backup.{BackupConfig, full, incremental, BackupEntry}
use analytics_hub.Backup.Store.{ObjectStore, StorageError, object_key, client}

pub record BackupStatistics : Type 0 where
  pub database : String
  pub total_backups : ℕ
  pub total_size_bytes : ℕ
  pub full_backups : ℕ
  pub incremental_backups : ℕ
  pub oldest_backup_age_days : ℤ
  pub newest_backup_age_days : ℤ

abbrev pub is_full : BackupEntry → Bool
is_full e = elim e.backup_type [ full ↦ true | _ ↦ false ]

abbrev pub is_incremental : BackupEntry → Bool
is_incremental e = elim e.backup_type [ incremental ↦ true | _ ↦ false ]

-- `sum::<u64>()`, which wraps around.
abbrev pub sizes_from : ℕ → List BackupEntry → ℕ
sizes_from sum [] = sum
sizes_from sum (e ∷ es) = sizes_from (u64 (sum + e.size_bytes)) es

-- `max()` and `min()` of the ages, from the first on.
unfoldable pub oldest_from : ℤ → List BackupEntry → ℤ
oldest_from age [] = age
oldest_from age (e ∷ es) = oldest_from (if ltb_ℤ e.age_days age then age else e.age_days) es

unfoldable pub newest_from : ℤ → List BackupEntry → ℤ
newest_from age [] = age
newest_from age (e ∷ es) = newest_from (if ltb_ℤ e.age_days age then e.age_days else age) es

-- `unwrap_or(0)`
abbrev pub ages_of : List BackupEntry → ℤ × ℤ
ages_of [] = (pos 0, pos 0)
ages_of (e ∷ es) = (oldest_from e.age_days es, newest_from e.age_days es)

unfoldable pub get_backup_statistics : String → List BackupEntry → BackupStatistics
unfolding oldest_from newest_from
get_backup_statistics database backups = record {
  database = database;
  total_backups = length backups;
  total_size_bytes = sizes_from 0 backups;
  full_backups = count is_full backups;
  incremental_backups = count is_incremental backups;
  oldest_backup_age_days = (ages_of backups).0;
  newest_backup_age_days = (ages_of backups).1;
}

module _ (store : ObjectStore) where
  abbrev pub and_then :
      {A : Type 0}
      → Outcome (Unit {0}) StorageError × store.Bucket
      → (store.Bucket → Outcome A StorageError × store.Bucket)
      → Outcome A StorageError × store.Bucket
  and_then (ok _, b) next = next b
  and_then (err e, b) next = (err e, b)

  module _ (config : BackupConfig) (database : String) where
    abbrev pub is_expired : BackupEntry → Bool
    is_expired e = ltb_ℤ (pos config.retention_days) e.age_days

    abbrev pub delete_backup :
        BackupEntry → store.Bucket → Outcome (Unit {0}) StorageError × store.Bucket
    delete_backup e b =
        let sent = store.delete_object (object_key config database e.backup_id) b in
        (client sent.0, sent.1)

    -- What was deleted so far is `deleted`.
    unfoldable pub cleanup_old_backups :
        List BackupEntry
        → List String
        → store.Bucket
        → Outcome (List String) StorageError × store.Bucket
    cleanup_old_backups [] deleted b = (ok deleted, b)
    cleanup_old_backups (e ∷ es) deleted b =
        let kept = cleanup_old_backups es deleted b in
        let gone = cleanup_old_backups es (deleted ++ e.backup_id ∷ []) in
        if is_expired e then and_then (delete_backup e b) gone else kept
