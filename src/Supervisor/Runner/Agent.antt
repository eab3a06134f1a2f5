-- ===== src/Supervisor/Runner/Agent.antt =====
-- A runner supervises one launch entry for its life: the events of src/supervisor/supervisedRunner.ts.
use status_pipe.Base.{ℕ, zero, suc, false, ◌≡◌, refl, Option, none, some, arith}
use status_pipe.Supervisor.Runner.{
  Env, Runner, Spawned, threw, exited, started, Event, starts, ticks_now, stops, retries, wakes,
  parks, outputs, timer_fires, timeout_fires, disposes, wedge_check, exits, after_spawn, on_exit_by,
  route_exit, launch_by, launch, on_exit, kill, start, wake, tick_now, stop, park_daemon,
  check_daemon_wedged, on_timer_fired, on_timeout, on_output, retry, step, fire, record_failure,
  schedule_next, take_handle, mark_running, wrote_output, spawning, halted,
}

module _ (env : Env) where
  schedule_next-agent : (delay : ℕ) (r : Runner) → (schedule_next env delay r).agent ≡ r.agent
  unfolding schedule_next
  schedule_next-agent delay r = refl

  module _ (f : Runner → Runner) (same : (r : Runner) → (f r).agent ≡ r.agent) where
    route_exit-agent :
        (code : Option ℕ) (uptime : ℕ) (r : Runner)
        → (route_exit f env code uptime r).agent ≡ r.agent
    unfolding route_exit record_failure schedule_next
    route_exit-agent code uptime r =
        ground
          (arith, same (record r { consecutive_failures = 0; detail = none; pending_wake = false }))

    on_exit_by-agent :
        (code : Option ℕ) (seq : ℕ) (r : Runner) → (on_exit_by f env code seq r).agent ≡ r.agent
    unfolding on_exit_by
    on_exit_by-agent code seq r = grind (arith, route_exit-agent)

    after_spawn-agent :
        (s : Spawned) (seq : ℕ) (r : Runner) → (after_spawn f env s seq r).agent ≡ r.agent
    unfolding after_spawn take_handle mark_running wrote_output
    after_spawn-agent threw seq r = on_exit_by-agent (some 127) seq r
    after_spawn-agent (exited wrote code) seq r = grind (arith, on_exit_by-agent)
    after_spawn-agent started seq r = ground arith

  launch_by-agent : (fuel : ℕ) (r : Runner) → (launch_by fuel env r).agent ≡ r.agent
  unfolding launch_by
  launch_by-agent zero r = refl
  launch_by-agent (suc fuel) r =
      after_spawn-agent (launch_by fuel env) (launch_by-agent fuel) _ _ (spawning r)

  launch-agent : (r : Runner) → (launch env r).agent ≡ r.agent
  unfolding launch
  launch-agent r = launch_by-agent 2 r

  on_exit-agent :
      (code : Option ℕ) (seq : ℕ) (r : Runner) → (on_exit env code seq r).agent ≡ r.agent
  unfolding on_exit
  on_exit-agent code seq r = on_exit_by-agent (launch env) launch-agent code seq r

  kill-agent : (held : Option ℕ) (r : Runner) → (kill env held r).agent ≡ r.agent
  unfolding kill
  kill-agent none r = refl
  kill-agent (some seq) r = grind (arith, on_exit-agent)

  start-agent : (r : Runner) → (start env r).agent ≡ r.agent
  unfolding start
  start-agent r = grind (arith, launch-agent)

  wake-agent : (r : Runner) → (wake env r).agent ≡ r.agent
  unfolding wake
  wake-agent r = grind (arith, launch-agent)

  fire-agent :
      (armed : Option ℕ) (r s : Runner) → s.agent ≡ r.agent → (fire armed r s).agent ≡ r.agent
  unfolding fire
  fire-agent none r s e = refl
  fire-agent (some due) r s e = e

  on_timer_fired-agent : (r : Runner) → (on_timer_fired env r).agent ≡ r.agent
  unfolding on_timer_fired
  on_timer_fired-agent r = grind (arith, launch-agent, schedule_next-agent)

  on_timeout-agent : (r : Runner) → (on_timeout env r).agent ≡ r.agent
  unfolding on_timeout
  on_timeout-agent r = grind (arith, kill-agent)

  -- No event changes the entry that a runner supervises.
  pub step-agent : (e : Event) (r : Runner) → (step env e r).agent ≡ r.agent
  unfolding step tick_now stop retry park_daemon on_output check_daemon_wedged
  step-agent starts r = start-agent r
  step-agent ticks_now r = grind (arith, wake-agent, start-agent)
  step-agent stops r = kill-agent r.handle (halted r)
  step-agent retries r = grind (arith, launch-agent)
  step-agent wakes r = wake-agent r
  step-agent parks r = grind (arith, kill-agent, schedule_next-agent)
  step-agent outputs r = refl
  step-agent timer_fires r = fire-agent r.timer r _ (on_timer_fired-agent r)
  step-agent timeout_fires r = fire-agent r.timeout r _ (on_timeout-agent r)
  step-agent disposes r = kill-agent r.handle (halted r)
  step-agent (wedge_check last_pass) r = grind (arith, kill-agent)
  step-agent (exits code seq) r = on_exit-agent code seq r
