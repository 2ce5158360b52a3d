-- ===== src/Backup/Lost.antt =====
-- The keys under which src/infra/backup writes, looks for and deletes a backup.
use analytics_hub.Prelude.Text.{◌++◌}
use mathlib.Core.List.{append_assoc, append-nil}
use mathlib.Core.List
use analytics_hub.Prelude.{
  ℕ, ◌≡◌, ◌≢◌, refl, sym, ap, ◌∙◌, String, Bool, true, false, List, [], ◌∷◌, All, Outcome, ok, err,
  ◌>>=◌, arith, if◌then◌else◌,
}
use analytics_hub.Prelude.Int.{ℤ}
use analytics_hub.Backup.{BackupConfig, BackupMetadata, BackupEntry}
use analytics_hub.Backup.Store.{
  ObjectHead, ObjectStore, Rfc3339, StorageError, client_error, parse_s3_location, object_key,
  client, read_head, head_of, upload_backup, get_backup_metadata,
}
use analytics_hub.Backup.Retention.{and_then, is_expired, delete_backup, cleanup_old_backups}
use analytics_hub.Backup.Verifier.{Format, backup_location, verify_backup}
use analytics_hub.Backup.Verdict.{verify_backup_verdict, is_restorable}

-- A request changes no object but the one it names.
pub record IsObjectStore (store : ObjectStore) : Type 0 where
  pub head-put :
      (key asked : String) (head : ObjectHead) (b : store.Bucket)
      → key ≢ asked
      → store.head_object asked (store.put_object key head b).1 ≡ store.head_object asked b
  pub head-delete :
      (key asked : String) (b : store.Bucket)
      → key ≢ asked
      → store.head_object asked (store.delete_object key b).1 ≡ store.head_object asked b

parse_backup_location :
    (id : String) → parse_s3_location (backup_location id) ≡ ok (id ++ "/" ++ id)
unfolding parse_s3_location
parse_backup_location id = refl

ok_value :
    {a b : List String} → (r : Outcome (List String) StorageError) → r ≡ ok a → r ≡ ok b → a ≡ b
ok_value r d e = ground arith

module _ (store : ObjectStore) (config : BackupConfig) where
  module _ (rfc : Rfc3339) where
    metadata_missing :
        (read : ℤ) (id : String) (b : store.Bucket) {x : String}
        → store.head_object (id ++ "/" ++ id) b ≡ err x
        → get_backup_metadata store rfc config read (backup_location id) b ≡ err (client_error x)
    unfolding get_backup_metadata
    metadata_missing read id b missing =
        let read_it = read_head store rfc config read (backup_location id) in
        ap (λ o. o >>= λ key. client (store.head_object key b) >>= read_it)
          (parse_backup_location id)
        ∙ ap (λ o. client o >>= read_it) missing

    -- A backup is written under its prefix, its database and its file name, and looked for under its
    -- identifier twice: where these are different keys, and no object stands under the second, a
    -- backup that was uploaded is not found by its verification, which calls it invalid.
    pub uploaded_not_found :
        (format : Format) (read now : ℤ) (size : ℕ) (m : BackupMetadata) (b : store.Bucket)
        {x : String}
        → IsObjectStore store
        → object_key config m.database (m.backup_id ++ ".tar.gz")
          ≢ m.backup_id ++ "/" ++ m.backup_id
        → store.head_object (m.backup_id ++ "/" ++ m.backup_id) b ≡ err x
        → (verify_backup format store rfc config read now m.backup_id
            (upload_backup store rfc config (m.backup_id ++ ".tar.gz") size m b).1).valid
          ≡ false
    unfolding upload_backup
    uploaded_not_found format read now size m b laws other missing =
        let key = object_key config m.database (m.backup_id ++ ".tar.gz") in
        let after = (upload_backup store rfc config (m.backup_id ++ ".tar.gz") size m b).1 in
        (verify_backup_verdict format store rfc config read now m.backup_id after).1
        ∙ ap (is_restorable now) (
            metadata_missing read m.backup_id after (
              laws.head-put key (m.backup_id ++ "/" ++ m.backup_id)
                (head_of store rfc config m size) b other
              ∙ missing))

  module _ (database : String) where
    -- The backups that are due, by their identifiers.
    abbrev pub expired_ids : List BackupEntry → List String
    expired_ids [] = []
    expired_ids (e ∷ es) =
        let later = expired_ids es in
        if is_expired store config database e then e.backup_id ∷ later else later

    -- The deletions of the objects under the identifiers, asked of the store one after the other.
    abbrev pub delete_all : List String → store.Bucket → store.Bucket
    delete_all [] b = b
    delete_all (id ∷ ids) b =
        delete_all ids (store.delete_object (object_key config database id) b).1

    abbrev NamesNone : String → List BackupEntry → Type 0
    NamesNone key es = All (λ e. object_key config database e.backup_id ≢ key) es

    -- After a cleanup that answers `deleted` with what was due, the bucket is what the deletions of
    -- what was due make of `b`, and `key` is as it was in `b`.
    abbrev Cleaned :
        String
        → List String
        → List BackupEntry
        → store.Bucket
        → List String
        → Outcome (List String) StorageError × store.Bucket
        → Type 0
    Cleaned key deleted es b ids r =
        r.0 ≡ ok ids
        → (ids ≡ List.◌++◌ deleted (expired_ids es))
          × (r.1 ≡ delete_all (expired_ids es) b)
          × (store.head_object key r.1 ≡ store.head_object key b)

    next_entry :
        (due : Bool) (sent : Outcome (Unit {0}) StorageError × store.Bucket)
        (gone : store.Bucket → Outcome (List String) StorageError × store.Bucket)
        (kept : Outcome (List String) StorageError × store.Bucket)
        (Q : Bool → Outcome (List String) StorageError × store.Bucket → Type 0)
        → Q true (gone sent.1)
        → ((e : StorageError) → Q true (err e, sent.1))
        → Q false kept
        → Q due (if due then and_then store sent gone else kept)
    next_entry true (ok x, b) gone kept Q h k l = h
    next_entry true (err e, b) gone kept Q h k l = k e
    next_entry false sent gone kept Q h k l = l

    deletes_others :
        (key : String) (es : List BackupEntry) (deleted : List String) (b : store.Bucket)
        (ids : List String)
        → IsObjectStore store
        → NamesNone key es
        → Cleaned key deleted es b ids (cleanup_old_backups store config database es deleted b)
    unfolding cleanup_old_backups
    deletes_others key [] deleted b ids laws others =
        λ done. (sym (ok_value _ refl done) ∙ sym (append-nil deleted), refl, refl)
    deletes_others key (e ∷ es) deleted b ids laws others =
        let sent = delete_backup store config database e b in
        let untouched = laws.head-delete (object_key config database e.backup_id) key b others.0 in
        let later =
          deletes_others key es (List.◌++◌ deleted (e.backup_id ∷ [])) sent.1 ids laws others.1 in
        let same = deletes_others key es deleted b ids laws others.1 in
        next_entry (is_expired store config database e) sent
          (cleanup_old_backups store config database es (List.◌++◌ deleted (e.backup_id ∷ [])))
          (cleanup_old_backups store config database es deleted b)
          (λ due r.
            r.0 ≡ ok ids
            → (ids
                ≡ List.◌++◌ deleted (if due then e.backup_id ∷ expired_ids es else expired_ids es))
              × (r.1 ≡ delete_all (if due then e.backup_id ∷ expired_ids es else expired_ids es) b)
              × (store.head_object key r.1 ≡ store.head_object key b))
          (λ done.
            let h = later done in
            (h.0 ∙ append_assoc deleted (e.backup_id ∷ []) (expired_ids es), h.1, h.2 ∙ untouched))
          (λ x done. ground arith) same

    -- A cleanup that succeeds deletes, one after the other, the object under each expired backup's
    -- identifier, and nothing else, and reports all of them as deleted; an archive, which stands under
    -- its file name, is still there after it, where no listed backup's identifier is that file name.
    pub archives_stay :
        (id : String) (es : List BackupEntry) (b : store.Bucket) {ids : List String}
        → IsObjectStore store
        → All
            (λ e.
              object_key config database e.backup_id ≢ object_key config database (id ++ ".tar.gz"))
            es
        → (cleanup_old_backups store config database es [] b).0 ≡ ok ids
        → (ids ≡ expired_ids es)
          × ((cleanup_old_backups store config database es [] b).1 ≡ delete_all (expired_ids es) b)
          × (store.head_object
                (object_key config database (id ++ ".tar.gz"))
                (cleanup_old_backups store config database es [] b).1
              ≡ store.head_object (object_key config database (id ++ ".tar.gz")) b)
    archives_stay id es b {ids} laws others done =
        deletes_others (object_key config database (id ++ ".tar.gz")) es [] b ids laws others done
