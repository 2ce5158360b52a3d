-- ===== src/Backup/Store.antt =====
-- src/infra/backup/s3.rs over an object store, which is a parameter: its bucket, and the calls of
-- the client that the storage makes. RFC 3339 texts are chrono's, a parameter too.
use Prim.Native.Char.{code}
use analytics_hub.Prelude.Text.{◌++◌, strip_prefix}
use analytics_hub.Prelude.{
  ℕ, ◌==◌, String, Option, none, some, [], ◌∷◌, if◌then◌else◌, Outcome, ok, err, ◌>>=◌,
}
use analytics_hub.Prelude.Int.{ℤ, sub_ℤ, div_ℕ}
use analytics_hub.Prelude.Dict.{Dict, lookup, str_eq}
use analytics_hub.Backup.{
  BackupConfig, BackupType, full, incremental, differential, completed, BackupMetadata,
}

-- The answer to a HEAD request.
pub record ObjectHead : Type 0 where
  pub metadata : Option (Dict String)
  pub content_length : Option ℕ

pub record ObjectStore : Type 1 where
  pub Bucket : Type 0
  pub head_object : String → Bucket → Outcome ObjectHead String
  pub put_object : String → ObjectHead → Bucket → Outcome (Unit {0}) String × Bucket
  pub delete_object : String → Bucket → Outcome (Unit {0}) String × Bucket

pub record Rfc3339 : Type 0 where
  pub to_rfc3339 : ℤ → String
  pub parse_from_rfc3339 : String → Option ℤ

pub data StorageError : Type 0 where
  invalid_location no_metadata missing_backup_id missing_database : StorageError
  client_error : String → StorageError

-- `{:?}`, and what it is read back as.
abbrev pub type_name : BackupType → String
type_name full = "Full"
type_name incremental = "Incremental"
type_name differential = "Differential"

abbrev pub type_of : Option String → BackupType
type_of none = full
type_of (some s) =
    if str_eq s "Full"
    then full
    else if str_eq s "Incremental"
    then incremental
    else if str_eq s "Differential"
    then differential
    else full

-- The second part of `splitn(2, '/')`.
abbrev pub after_slash : String → Option String
after_slash String.[] = none
after_slash (String.◌∷◌ c s) = let rest = after_slash s in if code c == 47 then some s else rest

abbrev pub or_invalid : Option String → Outcome String StorageError
or_invalid none = err invalid_location
or_invalid (some s) = ok s

unfoldable pub parse_s3_location : String → Outcome String StorageError
parse_s3_location s3_location =
    or_invalid (strip_prefix "s3://" s3_location) >>= λ location. or_invalid (after_slash location)

abbrev pub required : {A : Type 0} → StorageError → Option A → Outcome A StorageError
required e none = err e
required e (some a) = ok a

abbrev pub or_else : {A : Type 0} → A → Option A → A
or_else a none = a
or_else a (some b) = b

abbrev pub maybe_entry : String → Option String → Dict String → Dict String
maybe_entry key none d = d
maybe_entry key (some v) d = (key, v) ∷ d

-- `num_days` of the time since `t`.
abbrev pub days_since : ℤ → ℤ → ℤ
days_since now t = div_ℕ (sub_ℤ now t) 86400000000000

-- `cleanup_old_backups` and `upload_backup` name an object after its database.
abbrev pub object_key : BackupConfig → String → String → String
object_key config database name = config.s3_prefix ++ "/" ++ database ++ "/" ++ name

-- `context(…)?` of a call of the client.
abbrev pub client : {A : Type 0} → Outcome A String → Outcome A StorageError
client (ok a) = ok a
client (err x) = err (client_error x)

module _ (store : ObjectStore) (rfc : Rfc3339) (config : BackupConfig) where
  abbrev pub head_of : BackupMetadata → ℕ → ObjectHead
  head_of m size = record {
    metadata = some (
        ("backup-id", m.backup_id)
        ∷ ("database", m.database)
        ∷ ("backup-type", type_name m.backup_type)
        ∷ ("timestamp", rfc.to_rfc3339 m.timestamp)
        ∷ maybe_entry "checksum-sha256" m.checksum (maybe_entry "wal-position" m.wal_position []));
    content_length = some size;
  }

  -- The file is given by its name and its size.
  unfoldable pub upload_backup :
      String → ℕ → BackupMetadata → store.Bucket → Outcome String StorageError × store.Bucket
  upload_backup file_name size m b =
      let s3_key = object_key config m.database file_name in
      let sent = store.put_object s3_key (head_of m size) b in
      (client sent.0 >>= λ _. ok ("s3://" ++ config.s3_bucket ++ "/" ++ s3_key), sent.1)

  abbrev timestamp_of : ℤ → Option String → ℤ
  timestamp_of now none = now
  timestamp_of now (some s) = or_else now (rfc.parse_from_rfc3339 s)

  abbrev metadata_of : ℤ → String → Option ℕ → Dict String → String → String → BackupMetadata
  metadata_of now s3_location size map backup_id database = record {
    backup_id = backup_id;
    timestamp = timestamp_of now (lookup "timestamp" map);
    database = database;
    size_bytes = or_else 0 size;
    backup_type = type_of (lookup "backup-type" map);
    status = completed;
    s3_location = s3_location;
    checksum = lookup "checksum-sha256" map;
    compression = if config.compression then some "gzip" else none;
    encryption = config.encryption;
    wal_position = lookup "wal-position" map;
    metadata = [];
  }

  -- What is read from the answer to a HEAD request.
  abbrev pub read_head : ℤ → String → ObjectHead → Outcome BackupMetadata StorageError
  read_head now s3_location response = required no_metadata response.metadata >>= λ map.
      required missing_backup_id (lookup "backup-id" map) >>= λ backup_id.
      required missing_database (lookup "database" map) >>= λ database.
      ok (metadata_of now s3_location response.content_length map backup_id database)

  unfoldable pub get_backup_metadata :
      ℤ → String → store.Bucket → Outcome BackupMetadata StorageError
  unfolding parse_s3_location
  get_backup_metadata now s3_location b = parse_s3_location s3_location >>= λ s3_key.
      client (store.head_object s3_key b) >>= read_head now s3_location
