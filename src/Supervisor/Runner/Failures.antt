-- ===== src/Supervisor/Runner/Failures.antt =====
-- Backoff and giving up.
use status_pipe.Base.{
  ℕ, zero, suc, Bool, true, ◌+◌, ◌≡◌, false, Option, none, some, ◌||◌, leb, if◌then◌else◌, List, [],
  ◌∷◌,
}
use status_pipe.Queue.{backoff, failed}
use status_pipe.Supervisor.Runner.{
  Env, Runner, Spawned, threw, exited, started, step, timer_fires, exits, is_parked, backoff_ms,
}

-- A signal, or a code other than 0.
abbrev pub is_failure : Option ℕ → Bool
is_failure none = true
is_failure (some zero) = false
is_failure (some (suc n)) = true

-- One tick whose run fails: the timer fires, and the process, if the spawner yields one, exits with this code.
abbrev failing_round : Env × Option ℕ → Runner → Runner
failing_round (env, code) r =
    let up = step env timer_fires r in step env (exits code up.spawn_seq) up

-- What the spawner may do in it: throw, report a failing exit at once, or yield a process.
abbrev fails_at : Spawned → Bool
fails_at threw = true
fails_at (exited wrote code) = is_failure code
fails_at started = true

-- The scheduler runs, with this limit, and the run fails.
pub record Fires (limit : ℕ) (e : Env × Option ℕ) : Type 0 where
  pub awake : (is_parked e.0.parked || e.0.idle_paused) ≡ false
  pub limit_kept : e.0.max_restarts ≡ limit
  pub spawns : (n : ℕ) → fails_at (e.0.spawn n) ≡ true
  pub fails : is_failure e.1 ≡ true

-- What one failing run makes of a runner.
abbrev HasFailed : Env → Runner → Runner → Type 0
HasFailed env r s =
    let gives_up = leb env.max_restarts (r.consecutive_failures + 1) in
    (s.consecutive_failures ≡ r.consecutive_failures + 1)
    × (s.state ≡ (if gives_up then failed else backoff))
    × (s.timer
        ≡ (if gives_up then none else some (env.now + backoff_ms (r.consecutive_failures + 1))))
    × (s.agent ≡ r.agent)
    × (s.spawn_seq ≡ r.spawn_seq + 1)

unfoldable pub rounds : List (Env × Option ℕ) → Runner → Runner
rounds [] r = r
rounds (e ∷ es) r = rounds es (failing_round e r)
