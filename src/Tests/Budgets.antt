-- ===== src/Tests/Budgets.antt =====
-- The budget's theorems after a third failure and at a window of a hundred requests.
use status_pipe.Base.{◌≡◌, none, true, arith}
use status_pipe.Forge.Budget.{BackoffState, next_backoff, backoff_active}
use status_pipe.Forge.Budget.Laws.{next_backoff-holds}

abbrev twice_failed : BackoffState
twice_failed = record { consecutive_failures = 2; until = none }

next_backoff-holds_example : backoff_active (next_backoff twice_failed none 1000) 60000 ≡ true
next_backoff-holds_example = next_backoff-holds twice_failed none 1000 60000 (ground arith)
