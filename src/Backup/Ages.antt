-- ===== src/Backup/Ages.antt =====
-- The ages in the statistics of src/infra/backup/verification.rs.
use analytics_hub.Prelude.{String, List, [], ◌∷◌, All, Bool-cases, inl, inr, arith, if◌then◌else◌}
use analytics_hub.Prelude.Int.{ℤ, ltb_ℤ, ◌≤ℤ◌}
use analytics_hub.Backup.{BackupEntry}
use analytics_hub.Backup.Retention.{oldest_from, newest_from, get_backup_statistics}

abbrev Above : ℤ → BackupEntry → Type 0
Above age e = e.age_days ≤ℤ age

abbrev Below : ℤ → BackupEntry → Type 0
Below age e = age ≤ℤ e.age_days

oldest_two :
    (age next : ℤ)
    → (age ≤ℤ (if ltb_ℤ next age then age else next))
      × (next ≤ℤ (if ltb_ℤ next age then age else next))
oldest_two age next = elim (Bool-cases (ltb_ℤ next age)) [
  | inl e ↦ rw e (omega arith, ground (arith, e))
  | inr e ↦ rw e (ground (arith, e), omega arith)
]

newest_two :
    (age next : ℤ)
    → ((if ltb_ℤ next age then next else age) ≤ℤ age)
      × ((if ltb_ℤ next age then next else age) ≤ℤ next)
newest_two age next = elim (Bool-cases (ltb_ℤ next age)) [
  | inl e ↦ rw e (ground (arith, e), omega arith)
  | inr e ↦ rw e (omega arith, ground (arith, e))
]

oldest_from_lem :
    (age : ℤ) (es : List BackupEntry)
    → (age ≤ℤ oldest_from age es) × All (Above (oldest_from age es)) es
unfolding oldest_from
oldest_from_lem age [] = (omega arith, tt)
oldest_from_lem age (e ∷ es) =
    let best = if ltb_ℤ e.age_days age then age else e.age_days in
    let two = oldest_two age e.age_days in
    let rest = oldest_from_lem best es in
    (omega (arith, two.0, rest.0), (omega (arith, two.1, rest.0), rest.1))

newest_from_lem :
    (age : ℤ) (es : List BackupEntry)
    → (newest_from age es ≤ℤ age) × All (Below (newest_from age es)) es
unfolding newest_from
newest_from_lem age [] = (omega arith, tt)
newest_from_lem age (e ∷ es) =
    let best = if ltb_ℤ e.age_days age then e.age_days else age in
    let two = newest_two age e.age_days in
    let rest = newest_from_lem best es in
    (omega (arith, two.0, rest.0), (omega (arith, two.1, rest.0), rest.1))

-- The statistics of a database bound the ages of its backups: none is older than the oldest age, or
-- newer than the newest.
pub statistics_bound_ages :
    (database : String) (es : List BackupEntry)
    → All (λ e. e.age_days ≤ℤ (get_backup_statistics database es).oldest_backup_age_days) es
      × All (λ e. (get_backup_statistics database es).newest_backup_age_days ≤ℤ e.age_days) es
unfolding get_backup_statistics
statistics_bound_ages database [] = (tt, tt)
statistics_bound_ages database (e ∷ es) =
    let oldest = oldest_from_lem e.age_days es in
    let newest = newest_from_lem e.age_days es in ((oldest.0, oldest.1), (newest.0, newest.1))
