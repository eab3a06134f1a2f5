-- ===== src/Forge/Budget.antt =====
-- The request budget of a forge: src/forge/budget.ts. The source compares the fraction of the budget with 0.1 as floats; for a
-- limit below 2 ^ 48 that is the comparison of the products here.
pub mod Laws
use status_pipe.Base.{
  ℕ, zero, suc, ◌+◌, ◌-◌, ◌*◌, ◌^◌, ◌≤◌, ◌<◌, ◌≡◌, refl, min, max, Bool, true, false, Option, none,
  some, ltb, leb, if◌then◌else◌, arith,
}

pub record RateInfo : Type 0 where
  pub limit : Option ℕ
  pub remaining : Option ℕ
  pub reset_at : Option ℕ

abbrev has_reset : Option ℕ → ℕ → Bool
has_reset none now = false
has_reset (some at) now = leb at now

-- By the fraction remaining: under a tenth, a twentieth, a fortieth.
abbrev stretch_by : ℕ → ℕ → ℕ
stretch_by remaining limit =
    if leb limit (10 * remaining)
    then 1
    else if leb limit (20 * remaining)
    then 2
    else if leb limit (40 * remaining)
    then 4
    else 8

abbrev stretch_known : ℕ → ℕ → Option ℕ → ℕ → ℕ
stretch_known remaining zero reset_at now = 1
stretch_known remaining (suc limit) reset_at now =
    if has_reset reset_at now then 1 else stretch_by remaining (suc limit)

unfoldable pub stretch_factor : Option RateInfo → ℕ → ℕ
stretch_factor none now = 1
stretch_factor (some rate) now = elim rate.remaining [
  | none ↦ 1
  | some remaining ↦ elim rate.limit [
    | none ↦ 1
    | some limit ↦ stretch_known remaining limit rate.reset_at now
  ]
]

pub record BackoffState : Type 0 where
  pub consecutive_failures : ℕ
  pub until : Option ℕ

abbrev pub no_backoff : BackoffState
no_backoff = record { consecutive_failures = 0; until = none }

abbrev later_of : Option ℕ → ℕ → ℕ
later_of none at = at
later_of (some retry_after) at = max retry_after at

-- The error is its `retryAfter`.
unfoldable pub next_backoff : BackoffState → Option ℕ → ℕ → BackoffState
next_backoff s retry_after now = record {
  consecutive_failures = s.consecutive_failures + 1;
  until =
      some (later_of retry_after (now + min 900000 (60000 * 2 ^ (s.consecutive_failures + 1 - 1))));
}

abbrev is_before : ℕ → Option ℕ → Bool
is_before now none = false
is_before now (some until) = ltb now until

unfoldable pub backoff_active : BackoffState → ℕ → Bool
backoff_active s now = is_before now s.until
