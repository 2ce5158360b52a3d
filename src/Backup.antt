-- ===== src/Backup.antt =====
-- src/infra/backup/types.rs. What the source keeps as JSON beside a backup is a text under a name,
-- or nothing.
pub mod Store
pub mod Verifier
pub mod Verdict
pub mod Retention
pub mod Lost
pub mod Ages
use analytics_hub.Prelude.{
  ℕ, String, Option, none, some, Bool, true, false, List, [], ◌∷◌, ◌++◌, if◌then◌else◌,
}
use analytics_hub.Prelude.Int.{ℤ}
use analytics_hub.Prelude.Dict.{Dict}

pub record BackupConfig : Type 0 where
  pub s3_bucket : String
  pub s3_prefix : String
  pub aws_region : String
  pub encryption : Bool
  pub compression : Bool
  pub retention_days : ℕ

abbrev pub default_config : BackupConfig
default_config = record {
  s3_bucket = "llm-analytics-backups";
  s3_prefix = "timescaledb";
  aws_region = "us-east-1";
  encryption = true;
  compression = true;
  retention_days = 30;
}

pub data BackupType : Type 0 where
  full incremental differential : BackupType

pub data BackupStatus : Type 0 where
  in_progress completed failed verification_pending verified : BackupStatus

pub record BackupMetadata : Type 0 where
  pub backup_id : String
  pub timestamp : ℤ
  pub database : String
  pub size_bytes : ℕ
  pub backup_type : BackupType
  pub status : BackupStatus
  pub s3_location : String
  pub checksum : Option String
  pub compression : Option String
  pub encryption : Bool
  pub wal_position : Option String
  pub metadata : Dict String

-- `BackupMetadata::new`, at the time `now`.
unfoldable pub new_metadata : ℤ → String → String → BackupMetadata
new_metadata now backup_id database = record {
  backup_id = backup_id;
  timestamp = now;
  database = database;
  size_bytes = 0;
  backup_type = full;
  status = in_progress;
  s3_location = "";
  checksum = none;
  compression = none;
  encryption = false;
  wal_position = none;
  metadata = [];
}

unfoldable pub complete_backup : ℕ → String → BackupMetadata → BackupMetadata
complete_backup size s3_location b = record b {
  status = completed;
  size_bytes = size;
  s3_location = s3_location;
}

unfoldable pub fail_backup : String → BackupMetadata → BackupMetadata
fail_backup error b = record b { status = failed; metadata = ("error", error) ∷ [] }

pub record VerificationCheck : Type 0 where
  pub name : String
  pub passed : Bool
  pub message : String

pub record VerificationResult : Type 0 where
  pub backup_id : String
  pub valid : Bool
  pub checks : List VerificationCheck
  pub status : String

-- `VerificationCheck::new` with `pass` or `fail`.
abbrev pub passes : String → String → VerificationCheck
passes name message = record { name = name; passed = true; message = message }

abbrev pub fails : String → String → VerificationCheck
fails name message = record { name = name; passed = false; message = message }

-- `VerificationResult::new`
abbrev pub new_result : String → VerificationResult
new_result backup_id = record {
  backup_id = backup_id;
  valid = true;
  checks = [];
  status = "pending";
}

unfoldable pub add_check : VerificationCheck → VerificationResult → VerificationResult
add_check check r = record r {
  valid = if check.passed then r.valid else false;
  checks = r.checks ++ check ∷ [];
}

unfoldable pub complete : VerificationResult → VerificationResult
complete r = record r { status = if r.valid then "valid" else "invalid" }

pub record BackupEntry : Type 0 where
  pub backup_id : String
  pub timestamp : ℤ
  pub size_bytes : ℕ
  pub backup_type : BackupType
  pub status : BackupStatus
  pub age_days : ℤ
