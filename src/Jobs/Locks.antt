-- ===== src/Jobs/Locks.antt =====
-- The locks of app/services/jobs.py and app/routers/admin.py, with the SQL functions of
-- db/migrations/006_job_locks.sql that they call. Jobs and holders are numbers, instants are in
-- microseconds.
use sih.Prelude.{
  ==_iff, Bool, Bool-cases, Option, Option-cases, arith, false, if◌then◌else◌, inl, inr, ltb, none,
  some, sym, true, ℕ, ◌+◌, ◌==◌, ◌≡◌, ◌≢◌, ◌≤◌, ◌⊎◌,
}

-- 45 minutes, and the 15 minutes of a claim that names no time.
abbrev pub lock_ttl : ℕ
lock_ttl = 2_700_000_000

abbrev pub default_ttl : ℕ
default_ttl = 900_000_000

-- `job_locks`: for a job the holder and the instant at which the lock expires; acquired_at, which
-- nothing reads, is left out.
abbrev pub Locks : Type 0
Locks = ℕ → Option (ℕ × ℕ)

abbrev pub set_lock : ℕ → Option (ℕ × ℕ) → Locks → Locks
set_lock k l m j = if j == k then l else m j

-- `claim_job_lock`: a lock is only taken over once it has expired.
unfoldable pub claim_job_lock : ℕ → ℕ → ℕ → ℕ → Locks → Bool × Locks
claim_job_lock now ttl key holder m =
    let taken = set_lock key (some (holder, now + ttl)) m in
    elim (m key) [
      | none ↦ (true, taken)
      | some (_, expires) ↦ if ltb expires now then (true, taken) else (false, m)
    ]

unfoldable pub release_job_lock : ℕ → ℕ → Locks → Locks
release_job_lock key holder m = elim (m key) [
  | none ↦ m
  | some (h, _) ↦ if h == holder then set_lock key none m else m
]

-- What happens while a job runs, up to an instant: any claims, and releases under other holders'
-- names or of other jobs.
pub data Meanwhile (limit key holder : ℕ) (from : Locks) : Locks → Type 0 where
  at_first : Meanwhile limit key holder from from
  claims :
      {m : Locks}
      → Meanwhile limit key holder from m
      → (now ttl job other : ℕ) → now ≤ limit
      → Meanwhile limit key holder from (claim_job_lock now ttl job other m).1
  releases :
      {m : Locks}
      → Meanwhile limit key holder from m
      → (job other : ℕ) → (other ≢ holder) ⊎ (job ≢ key)
      → Meanwhile limit key holder from (release_job_lock job other m)

-- The job is locked by the holder until the instant.
abbrev pub IsHeld : ℕ → ℕ → ℕ → Locks → Type 0
IsHeld limit key holder m = m key ≡ some (holder, limit)

claim-IsHeld :
    (limit key holder now ttl job other : ℕ) (m : Locks)
    → now ≤ limit
    → IsHeld limit key holder m
    → IsHeld limit key holder (claim_job_lock now ttl job other m).1
unfolding claim_job_lock
claim-IsHeld limit key holder now ttl job other m e h = elim (Bool-cases (key == job)) [
  | inr f ↦ elim (Option-cases (m job)) [
    | inl free ↦ ground (arith, free, f, h)
    | inr (l, held) ↦ elim (Bool-cases (ltb l.1 now)) [
      | inl over ↦ ground (arith, held, over, f, h)
      | inr live ↦ ground (arith, held, live, f, h)
    ]
  ]
  | inl t ↦ let same : job ≡ key = sym ((==_iff key job).0 t) in ground (arith, same, h, e)
]

release-IsHeld :
    (limit key holder job other : ℕ) (m : Locks)
    → (other ≢ holder) ⊎ (job ≢ key)
    → IsHeld limit key holder m
    → IsHeld limit key holder (release_job_lock job other m)
unfolding release_job_lock
release-IsHeld limit key holder job other m e h = elim (Bool-cases (key == job)) [
  | inl t ↦
      let same : job ≡ key = sym ((==_iff key job).0 t) in
      elim e [ inr apart ↦ absurd (apart same) | inl foreign ↦ ground (arith, same, h, foreign) ]
  | inr f ↦ elim (Option-cases (m job)) [
    | inl free ↦ ground (arith, free, h)
    | inr (l, held) ↦ elim (Bool-cases (l.0 == other)) [
      | inl t ↦ ground (arith, held, t, f, h)
      | inr o ↦ ground (arith, held, o, h)
    ]
  ]
]

pub Meanwhile-IsHeld :
    {limit key holder : ℕ} {from m : Locks}
    → Meanwhile limit key holder from m
    → IsHeld limit key holder from
    → IsHeld limit key holder m
Meanwhile-IsHeld at_first h = h
Meanwhile-IsHeld {limit} {key} {holder} (claims {m} path now ttl job other e) h =
    claim-IsHeld limit key holder now ttl job other m e (Meanwhile-IsHeld path h)
Meanwhile-IsHeld {limit} {key} {holder} (releases {m} path job other e) h =
    release-IsHeld limit key holder job other m e (Meanwhile-IsHeld path h)

pub claim_job_lock-IsHeld :
    (now ttl key holder : ℕ) (m : Locks)
    → (claim_job_lock now ttl key holder m).0 ≡ true
    → IsHeld (now + ttl) key holder (claim_job_lock now ttl key holder m).1
unfolding claim_job_lock
claim_job_lock-IsHeld now ttl key holder m won = elim (Option-cases (m key)) [
  | inl free ↦ ground (arith, free)
  | inr (l, held) ↦ elim (Bool-cases (ltb l.1 now)) [
    | inl over ↦ ground (arith, held, over)
    | inr live ↦ ground (arith, held, live, won)
  ]
]

-- After a claim for a time has succeeded, every claim of the same job fails for that time, whatever
-- claims and releases come in between, when nobody else releases the job under the same holder's name.
pub claim_job_lock-exclusive :
    (now ttl key holder : ℕ) (m : Locks) {m' : Locks}
    → (claim_job_lock now ttl key holder m).0 ≡ true
    → Meanwhile (now + ttl) key holder (claim_job_lock now ttl key holder m).1 m'
    → (later other_ttl other : ℕ) → later ≤ now + ttl
    → claim_job_lock later other_ttl key other m' ≡ (false, m')
unfolding claim_job_lock
claim_job_lock-exclusive now ttl key holder m {m'} won path later other_ttl other e =
    let held : m' key ≡ some (holder, now + ttl) =
      Meanwhile-IsHeld path (claim_job_lock-IsHeld now ttl key holder m won) in
    ground (arith, held, e)
