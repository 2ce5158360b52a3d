-- ===== src/Backup/Verdict.antt =====
-- What a verification of src/infra/backup/verification.rs says of a backup.
use mathlib.Core.List.{append_assoc, append-nil}
use analytics_hub.Prelude.{
  ◌≡◌, refl, sym, ap, ◌∙◌, subst, String, Option, none, some, Bool, true, false, not, ◌&&◌, List,
  [], ◌∷◌, ◌++◌, all, all-append, ltb, if◌then◌else◌, Outcome, ok, err,
}
use analytics_hub.Prelude.Int.{ℤ, pos, ltb_ℤ}
use analytics_hub.Backup.{
  BackupConfig, BackupMetadata, VerificationCheck, VerificationResult, passes, fails, new_result,
  add_check, complete,
}
use analytics_hub.Backup.Store.{ObjectStore, Rfc3339, StorageError, days_since, get_backup_metadata}
use analytics_hub.Backup.Verifier.{
  Format, size_check, encryption_check, checksum_check, compression_check, wal_check,
  timestamp_check, add_checks, checks_of, backup_location, missing_check, verified_as,
  verify_backup,
}

abbrev pub all_passed : List VerificationCheck → Bool
all_passed cs = all (λ c. c.passed) cs

-- A result that says what its checks say.
pub record Concludes (cs : List VerificationCheck) (r : VerificationResult) : Type 0 where
  pub listed : r.checks ≡ cs
  pub verdict : r.valid ≡ all_passed cs

pub record IsFinal (r : VerificationResult) : Type 0 where
  pub verdict : r.valid ≡ all_passed r.checks
  pub status : r.status ≡ (if r.valid then "valid" else "invalid")

and_true : (b : Bool) → (b && true) ≡ b
and_true true = refl
and_true false = refl

and_if : (b c : Bool) → (if c then b else false) ≡ (b && (c && true))
and_if true true = refl
and_if true false = refl
and_if false true = refl
and_if false false = refl

add_check-Concludes :
    (c : VerificationCheck) (seen : List VerificationCheck) (r : VerificationResult)
    → Concludes seen r
    → Concludes (seen ++ c ∷ []) (add_check c r)
unfolding add_check
add_check-Concludes c seen r h = record {
  listed = ap (λ l. l ++ c ∷ []) h.listed;
  verdict =
      ap (λ b. if c.passed then b else false) h.verdict
      ∙ and_if (all_passed seen) c.passed
      ∙ sym (all-append (λ d. d.passed) seen (c ∷ []));
}

add_checks-Concludes :
    (format : Format) (cs seen : List VerificationCheck) (r : VerificationResult)
    → Concludes seen r
    → Concludes (seen ++ cs) (add_checks format cs r)
add_checks-Concludes format [] seen r h = subst (λ l. Concludes l r) (sym (append-nil seen)) h
add_checks-Concludes format (c ∷ cs) seen r h =
    subst (λ l. Concludes l (add_checks format cs (add_check c r))) (append_assoc seen (c ∷ []) cs)
      (add_checks-Concludes format cs (seen ++ c ∷ []) (add_check c r)
        (add_check-Concludes c seen r h))

complete-IsFinal :
    (cs : List VerificationCheck) (r : VerificationResult) → Concludes cs r → IsFinal (complete r)
unfolding complete
complete-IsFinal cs r h = record {
  verdict = h.verdict ∙ ap all_passed (sym h.listed);
  status = refl;
}

new_result-Concludes : (id : String) → Concludes [] (new_result id)
new_result-Concludes id = record { listed = refl; verdict = refl }

abbrev pub is_some : {A : Type 0} → Option A → Bool
is_some none = false
is_some (some a) = true

-- What the store knows of a backup, at the time of the verification.
abbrev pub is_restorable : ℤ → Outcome BackupMetadata StorageError → Bool
is_restorable now (err e) = false
is_restorable now (ok m) =
    ltb 0 m.size_bytes
    && is_some m.checksum
    && not (ltb_ℤ (days_since now m.timestamp) (pos 0))
    && is_some m.wal_position

chosen_passed :
    (b : Bool) (name m n : String) → (if b then passes name m else fails name n).passed ≡ b
chosen_passed true name m n = refl
chosen_passed false name m n = refl

future_check :
    (b : Bool) (name m n : String) → (if b then fails name m else passes name n).passed ≡ not b
future_check true name m n = refl
future_check false name m n = refl

always_passed :
    (b : Bool) (name m n : String) → (if b then passes name m else passes name n).passed ≡ true
always_passed true name m n = refl
always_passed false name m n = refl

conjunction : (a b c d : Bool) → (a && (b && (c && (d && true)))) ≡ (a && b && c && d)
conjunction true true true true = refl
conjunction true true true false = refl
conjunction true true false d = refl
conjunction true false c d = refl
conjunction false b c d = refl

module _ (format : Format) where
  checksum_passed : (o : Option String) → (checksum_check format o).passed ≡ is_some o
  checksum_passed none = refl
  checksum_passed (some c) = refl

  compression_passed : (o : Option String) → (compression_check format o).passed ≡ true
  compression_passed none = refl
  compression_passed (some c) = refl

  wal_passed : (o : Option String) → (wal_check format o).passed ≡ is_some o
  wal_passed none = refl
  wal_passed (some w) = refl

  size_passed : (m : BackupMetadata) → (size_check format m).passed ≡ ltb 0 m.size_bytes
  size_passed m = chosen_passed (ltb 0 m.size_bytes) _ _ _

  encryption_passed : (m : BackupMetadata) → (encryption_check format m).passed ≡ true
  encryption_passed m = always_passed m.encryption _ _ _

  timestamp_passed :
      (age_days : ℤ) → (timestamp_check format age_days).passed ≡ not (ltb_ℤ age_days (pos 0))
  timestamp_passed age_days = future_check (ltb_ℤ age_days (pos 0)) _ _ _

  checks_pass :
      (now : ℤ) (m : BackupMetadata)
      → all_passed (checks_of format now m) ≡ is_restorable now (ok m)
  checks_pass now m =
      rw
        (
          size_passed m,
          checksum_passed m.checksum,
          encryption_passed m,
          compression_passed m.compression,
          timestamp_passed (days_since now m.timestamp),
          wal_passed m.wal_position,
        )
        (conjunction (ltb 0 m.size_bytes) (is_some m.checksum)
          (not (ltb_ℤ (days_since now m.timestamp) (pos 0))) (is_some m.wal_position))

  verified_as-IsFinal :
      (now : ℤ) (id : String) (o : Outcome BackupMetadata StorageError)
      → IsFinal (verified_as format now id o)
        × ((verified_as format now id o).valid ≡ is_restorable now o)
  unfolding verified_as complete
  verified_as-IsFinal now id (ok m) =
      let h =
        add_checks-Concludes format (checks_of format now m) [] (new_result id)
          (new_result-Concludes id) in
      (complete-IsFinal _ _ h, h.verdict ∙ checks_pass now m)
  verified_as-IsFinal now id (err e) =
      let h =
        add_check-Concludes (missing_check format e) [] (new_result id) (new_result-Concludes id) in
      (complete-IsFinal _ _ h, h.verdict)

  -- A verification finds a backup valid if, and only if, the store has its metadata, it is not
  -- empty, it has a checksum and a WAL position, and its age in whole days is not negative; the
  -- result is valid where every check in it has passed, and its status says the same.
  pub verify_backup_verdict :
      (store : ObjectStore) (rfc : Rfc3339) (config : BackupConfig) (read now : ℤ) (id : String)
      (b : store.Bucket)
      → IsFinal (verify_backup format store rfc config read now id b)
        × ((verify_backup format store rfc config read now id b).valid
            ≡ is_restorable now (get_backup_metadata store rfc config read (backup_location id) b))
  unfolding verify_backup
  verify_backup_verdict store rfc config read now id b = verified_as-IsFinal now id _
