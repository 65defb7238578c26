-- ===== src/Jobs/Free.antt =====
-- The lock of a job during and after its run.
use mathlib.Core.Path.{subst}
use sih.Prelude.{
  Bool, Bool-cases, Option-cases, ap, arith, false, inl, inr, ltb, refl, some, sym, true, ℕ, ◌+◌,
  ◌<◌, ◌≡◌, ◌≤◌, ◌⊎◌,
}
use sih.Jobs.Locks.{
  IsHeld, Locks, Meanwhile, Meanwhile-IsHeld, claim_job_lock, claim_job_lock-IsHeld,
  release_job_lock,
}
use sih.Jobs.Runs.{Ended, Guarded, LockCalls, body_ran, guard_job, released, run_body, was_locked}

module _ {Db A : Type 0} (calls : LockCalls) (now ttl key holder : ℕ)
    (body : Locks × Db → Ended A × Locks × Db) where
  -- While the body runs, others only claim, up to the end of the lock's time, and release what is not
  -- this lock.
  abbrev pub IsUndisturbed : Type 0
  IsUndisturbed = (m : Locks) (db : Db) → Meanwhile (now + ttl) key holder m (body (m, db)).1

  -- What the next claim of the job needs.
  abbrev pub IsClaimable : ℕ → Type 0
  IsClaimable later = (calls.release_works ≡ true) ⊎ (now + ttl < later)

  claim-free :
      (later other_ttl other : ℕ) (m : Locks)
      → IsHeld (now + ttl) key holder m
      → IsClaimable later
      → (claim_job_lock later other_ttl key other (released calls.release_works key holder m)).0
        ≡ true
  unfolding claim_job_lock release_job_lock
  claim-free later other_ttl other m held (inl works) = ground (arith, works, held)
  claim-free later other_ttl other m held (inr late) = elim (Bool-cases calls.release_works) [
    | inl works ↦ ground (arith, works, held)
    | inr fails ↦ ground (arith, fails, held, late)
  ]

  -- The body has run while the lock was held, what it did and how it ended is the result, and then the
  -- lock is free.
  abbrev pub IsHonest : Db → Guarded A × Locks × Db → Type 0
  IsHonest db (g, m', db') =
      (m : Locks) × IsHeld (now + ttl) key holder m
      × (g ≡ body_ran (body (m, db)).0)
      × (db' ≡ (body (m, db)).2)
      × ((later other_ttl other : ℕ)
          → IsClaimable later
          → (claim_job_lock later other_ttl key other m').0 ≡ true)

  -- Nothing has changed, as another run holds the lock.
  abbrev pub IsLocked : Locks → Db → Guarded A × Locks × Db → Type 0
  IsLocked m db (g, m', db') =
      (g ≡ was_locked)
      × (m' ≡ m)
      × (db' ≡ db)
      × ((h : ℕ) × (e : ℕ) × (m key ≡ some (h, e)) × (now ≤ e))

  run_body-IsHonest :
      (m : Locks) (db : Db)
      → IsUndisturbed
      → IsHeld (now + ttl) key holder m
      → IsHonest db (run_body calls key holder body (true, m) db)
  unfolding run_body
  run_body-IsHonest m db calm held = (
    m,
    held,
    refl,
    refl,
    (λ later other_ttl other.
        claim-free later other_ttl other (body (m, db)).1 (Meanwhile-IsHeld (calm m db) held)),
  )

  claim_job_lock_lem :
      (m : Locks)
      → ((claim_job_lock now ttl key holder m).0 ≡ true)
        ⊎ ((claim_job_lock now ttl key holder m ≡ (false, m))
            × ((h : ℕ) × (e : ℕ) × (m key ≡ some (h, e)) × (now ≤ e)))
  unfolding claim_job_lock
  claim_job_lock_lem m = elim (Option-cases (m key)) [
    | inl free ↦ inl (ground (arith, free))
    | inr (l, held) ↦ elim (Bool-cases (ltb l.1 now)) [
      | inl over ↦ inl (ground (arith, held, over))
      | inr live ↦
          inr (rw (claim_job_lock, held, live) refl, (l.0, l.1, held, ground (arith, live)))
    ]
  ]

  -- A guarded job that can call the lock either finds the job locked until now or later, and changes
  -- nothing; or it runs its body once, while it holds the lock, and afterwards anyone can claim the job,
  -- however the body ends: at once if the release goes through, and otherwise when the lock's time is
  -- over. Nobody else releases the lock under this holder's name meanwhile, or claims it after its time.
  pub guard_job-frees :
      (m : Locks) (db : Db)
      → calls.claim_works ≡ true
      → IsUndisturbed
      → let end = guard_job calls now ttl key holder body (m, db) in
        IsLocked m db end ⊎ IsHonest db end
  unfolding guard_job run_body
  guard_job-frees m db works calm = elim (claim_job_lock_lem m) [
    | inl won ↦
        let (b, taken) = claim_job_lock now ttl key holder m in
        let claimed = ap (λ (c : Bool). run_body calls key holder body (c, taken) db) won in
        rw works (
          subst (λ end. IsLocked m db end ⊎ IsHonest db end) (sym claimed)
            (inr
              (run_body-IsHonest taken db calm (claim_job_lock-IsHeld now ttl key holder m won))))
    | inr (lost, live) ↦ rw (works, lost) (inl (refl, refl, refl, live))
  ]
