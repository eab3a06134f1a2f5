-- ===== src/Forge/Budget/Laws.antt =====
-- How long a failing forge is left alone, and how far the refresh is stretched.
use status_pipe.Base.{
  get_or, leb, if◌then◌else◌, ℕ, zero, suc, ◌+◌, ◌^◌, ◌≤◌, ◌<◌, ◌≡◌, max, true, false, Option, none,
  some, arith,
}
use status_pipe.Forge.Budget.{stretch_factor, BackoffState, next_backoff, backoff_active}

pow_pos : (n : ℕ) → 1 ≤ 2 ^ n
pow_pos zero = omega arith
pow_pos (suc n) = omega (arith, pow_pos n)

pow_sixteen : (n : ℕ) → leb 4 n ≡ true → 16 ≤ 2 ^ n
pow_sixteen (suc (suc (suc (suc n)))) h = omega (arith, pow_pos n)
pow_sixteen zero h = absurd (cc)
pow_sixteen (suc zero) h = absurd (cc)
pow_sixteen (suc (suc zero)) h = absurd (cc)
pow_sixteen (suc (suc (suc zero))) h = absurd (cc)

-- After a failure, whether the forge names a time to wait for or not, the backoff is active for a minute at least, and for a
-- quarter of an hour from the fifth failure in a row on; nor does it end before the time that the forge names.
pub next_backoff-holds :
    (s : BackoffState) (retry_after : Option ℕ) (now t : ℕ)
    → t
      < max (get_or retry_after 0) (now + (if leb 4 s.consecutive_failures then 900000 else 60000))
    → backoff_active (next_backoff s retry_after now) t ≡ true
unfolding next_backoff backoff_active
next_backoff-holds s none now t h =
    ground (arith, h, pow_pos s.consecutive_failures, pow_sixteen s.consecutive_failures)
next_backoff-holds s (some retry_after) now t h =
    ground (arith, h, pow_pos s.consecutive_failures, pow_sixteen s.consecutive_failures)

-- A forge that asks for no wait is left alone for a quarter of an hour at most, however many failures came before.
pub next_backoff-ends :
    (s : BackoffState) (now t : ℕ)
    → now + 900000 ≤ t
    → backoff_active (next_backoff s none now) t ≡ false
unfolding next_backoff backoff_active
next_backoff-ends s now t h = ground (arith, h)

-- The less of the budget is left, the longer the interval is stretched, and it is never more than eightfold.
stretch_factor-antitone :
    (limit more less now : ℕ) (reset_at : Option ℕ)
    → less ≤ more
    → let factor = λ (remaining : ℕ).
      stretch_factor
        (some (record { limit = some limit; remaining = some remaining; reset_at = reset_at }))
        now in
      (factor more ≤ factor less) × (factor less ≤ 8)
unfolding stretch_factor
stretch_factor-antitone zero more less now reset_at h = (omega arith, omega arith)
stretch_factor-antitone (suc limit) more less now reset_at h = ground (arith, h)
