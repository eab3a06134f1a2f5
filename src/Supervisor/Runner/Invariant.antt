-- ===== src/Supervisor/Runner/Invariant.antt =====
-- What holds of a runner between events.
use status_pipe.Base.{
  ℕ, suc, ◌+◌, ◌<◌, ◌≡◌, refl, Bool, true, false, Option, none, some, ◌&&◌, not, arith, is_some,
  eqb, if-intro,
}
use status_pipe.Queue.{AgentRunState}
use status_pipe.Supervisor.Runner.{
  Env, Runner, Spawned, threw, exited, started, is_daemon, is_live, is_launching, is_running,
  is_due, schedule_next, record_failure, route_exit, on_exit_by, take_handle, mark_running,
  wrote_output, after_spawn, spawning, launch_by, launch, is_clean,
}
use status_pipe.Supervisor.Runner.Fuel.{after_spawn-no_wake}

-- The states in which a runner waits for the next event.
abbrev pub is_settled : AgentRunState → Bool
is_settled AgentRunState.stopped = true
is_settled AgentRunState.scheduled = true
is_settled AgentRunState.running = true
is_settled AgentRunState.backoff = true
is_settled AgentRunState.failed = true
is_settled _ = false

abbrev Holds : Option ℕ → ℕ → Type 0
Holds none seq = Unit {0}
Holds (some s) seq = s ≡ seq

abbrev Graded : AgentRunState → ℕ → Type 0
Graded AgentRunState.scheduled n = n ≡ 0
Graded AgentRunState.backoff n = 0 < n
Graded _ n = Unit {0}

pub record Inv (r : Runner) : Type 0 where
  pub settled : is_settled r.state ≡ true
  -- A process is held, with its start time, exactly while running, and it is the last one spawned.
  pub held : is_some r.handle ≡ is_running r.state
  pub since : is_some r.running_since ≡ is_running r.state
  pub current : Holds r.handle r.spawn_seq
  -- The timer is armed exactly while scheduled or backing off, the timeout exactly during a scheduled run.
  pub armed : is_some r.timer ≡ is_due r.state
  pub limited : is_some r.timeout ≡ (is_running r.state && not (is_daemon r.agent.lifetime))
  -- `backoff` means failures, `scheduled` none.
  pub graded : Graded r.state r.consecutive_failures

-- Nothing held and nothing armed.
pub record Rests (r : Runner) : Type 0 where
  pub handle : r.handle ≡ none
  pub since : r.running_since ≡ none
  pub timer : r.timer ≡ none
  pub timeout : r.timeout ≡ none

settled-not_launching : (s : AgentRunState) → is_settled s ≡ true → is_launching s ≡ false
settled-not_launching AgentRunState.stopped h = refl
settled-not_launching _ h = ground arith

pub schedule_next-Inv :
    (env : Env) (delay : ℕ) (r : Runner)
    → r.handle ≡ none
    → r.running_since ≡ none
    → Inv (schedule_next env delay r)
unfolding schedule_next
schedule_next-Inv env delay r h s = ground arith

record_failure-Inv :
    (env : Env) (code : Option ℕ) (r : Runner) → Rests r → Inv (record_failure env code r)
unfolding record_failure schedule_next
record_failure-Inv env code r q = ground arith

-- A settled runner is past its launch, so the handle is not taken.
take_handle-Inv : (env : Env) (seq : ℕ) (r : Runner) → Inv r → Inv (take_handle env seq r)
unfolding take_handle
take_handle-Inv env seq r v = rw (settled-not_launching r.state v.settled) v

take_fresh-Inv :
    (env : Env) (r : Runner) → Rests r → Inv (take_handle env (r.spawn_seq + 1) (spawning r))
unfolding take_handle mark_running
take_fresh-Inv env r q = ground arith

module _ (env : Env) (r : Runner) (q : Rests r) (wrote : Bool) where
  wrote_timer : (wrote_output env wrote (spawning r)).timer ≡ none
  unfolding wrote_output
  wrote_timer = ground (arith, q.timer)

  wrote_seq : eqb (r.spawn_seq + 1) (wrote_output env wrote (spawning r)).spawn_seq ≡ true
  unfolding wrote_output
  wrote_seq = ground arith

  wrote_live : is_live (wrote_output env wrote (spawning r)).state ≡ true
  unfolding wrote_output
  wrote_live = ground arith

module _ (relaunch : Runner → Runner) (env : Env)
    (launches : (r : Runner) → Rests r → r.pending_wake ≡ false → Inv (relaunch r)) where
  pub route_exit-Inv :
      (code : Option ℕ) (uptime : ℕ) (r : Runner)
      → Rests r
      → Inv (route_exit relaunch env code uptime r)
  unfolding route_exit
  route_exit-Inv code uptime r q =
      if-intro Inv (is_clean r code uptime)
        (λ _.
          if-intro Inv r.pending_wake
            (λ _.
              launches (record r { consecutive_failures = 0; detail = none; pending_wake = false })
                (record {
                  handle = q.handle;
                  since = q.since;
                  timer = q.timer;
                  timeout = q.timeout;
                })
                refl)
            (λ _. schedule_next-Inv env _ _ q.handle q.since))
        (λ _. record_failure-Inv env code r q)

  -- An exit of a live runner that has no timer armed.
  on_exit_by-Inv :
      (code : Option ℕ) (seq : ℕ) (r : Runner)
      → r.timer ≡ none
      → eqb seq r.spawn_seq ≡ true
      → is_live r.state ≡ true
      → Inv (on_exit_by relaunch env code seq r)
  unfolding on_exit_by
  on_exit_by-Inv code seq r t e l =
      rw (e, l)
        (route_exit-Inv code _ _
          (record { handle = refl; since = refl; timer = t; timeout = refl }))

  after_spawn-Inv :
      (s : Spawned) (r : Runner)
      → Rests r
      → Inv (after_spawn relaunch env s (r.spawn_seq + 1) (spawning r))
  unfolding after_spawn
  after_spawn-Inv threw r q = on_exit_by-Inv (some 127) _ _ q.timer (ground arith) refl
  after_spawn-Inv (exited wrote code) r q = take_handle-Inv env _ _ (
      on_exit_by-Inv code _ _ (wrote_timer env r q wrote) (wrote_seq env r q wrote)
        (wrote_live env r q wrote))
  after_spawn-Inv started r q = take_fresh-Inv env r q

module _ (env : Env) where
  fallback-Inv : (r : Runner) → Rests r → r.pending_wake ≡ false → Inv (schedule_next env 0 r)
  fallback-Inv r q _ = schedule_next-Inv env 0 r q.handle q.since

  launch_no_wake-Inv :
      (fuel : ℕ) (r : Runner) → Rests r → r.pending_wake ≡ false → Inv (launch_by (suc fuel) env r)
  unfolding launch_by
  launch_no_wake-Inv fuel r q h =
      rw
        (after_spawn-no_wake (launch_by fuel env) (schedule_next env 0) env
          (env.spawn (r.spawn_seq + 1)) (r.spawn_seq + 1) (spawning r) h)
        (after_spawn-Inv (schedule_next env 0) env fallback-Inv (env.spawn (r.spawn_seq + 1)) r q)

  pub launch-Inv : (r : Runner) → Rests r → Inv (launch env r)
  unfolding launch launch_by
  launch-Inv r q =
      after_spawn-Inv (launch_by 1 env) env (launch_no_wake-Inv 0) (env.spawn (r.spawn_seq + 1)) r q
