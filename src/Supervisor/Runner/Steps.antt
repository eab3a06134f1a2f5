-- ===== src/Supervisor/Runner/Steps.antt =====
-- The events of a runner and its invariant.
use status_pipe.Base.{
  ℕ, ◌≡◌, refl, Bool, true, false, Option, none, some, ◌&&◌, ◌||◌, arith, Option-cases, inl, inr,
  List, [], ◌∷◌, String, eqb, if-intro,
}
use status_pipe.Protocol.{LaunchAgent}
use status_pipe.Queue.{AgentRunState}
use status_pipe.Supervisor.Runner.{
  Env, Runner, Event, new_runner, is_daemon, is_live, is_running, is_due, is_failed, launch,
  on_exit, kill, start, wake, tick_now, stop, park_daemon, check_daemon_wedged, on_timer_fired,
  on_timeout, on_output, retry, step, run, starts, ticks_now, stops, retries, wakes, parks, outputs,
  timer_fires, timeout_fires, disposes, wedge_check, exits, fire, clear_timers, is_parked,
  is_wedged, wedged, ended, deferred, suspended, parked_recheck_ms, uptime_of,
}
use status_pipe.Supervisor.Runner.Invariant.{
  Inv, Rests, launch-Inv, schedule_next-Inv, route_exit-Inv, is_settled,
}

live_running : (s : AgentRunState) → is_settled s ≡ true → is_live s ≡ true → is_running s ≡ true
live_running AgentRunState.stopped h l = cc
live_running _ h l = ground arith

module _ {r : Runner} (v : Inv r) where
  running_of_live : is_live r.state ≡ true → is_running r.state ≡ true
  running_of_live l = live_running r.state v.settled l

  cleared-Rests : is_running r.state ≡ false → Rests (clear_timers r)
  cleared-Rests n = record {
    handle = ground (arith, v.held);
    since = ground (arith, v.since);
    timer = refl;
    timeout = refl;
  }

  idle-Rests : is_running r.state ≡ false → is_due r.state ≡ false → Rests r
  idle-Rests n d = record {
    handle = ground (arith, v.held);
    since = ground (arith, v.since);
    timer = ground (arith, v.armed);
    timeout = ground (arith, v.limited);
  }

module _ (env : Env) {r : Runner} (v : Inv r) where
  on_exit-Inv : (code : Option ℕ) (seq : ℕ) → Inv (on_exit env code seq r)
  unfolding on_exit
  on_exit-Inv code seq =
      if-intro Inv (eqb seq r.spawn_seq && is_live r.state)
        (λ t.
          route_exit-Inv (launch env) env (λ s q _. launch-Inv env s q) code
            (uptime_of env r.running_since) (ended code r)
            (record { handle = refl; since = refl; timer = exit_timer t; timeout = refl }))
        (λ _. v)
    where
      exit_timer : (eqb seq r.spawn_seq && is_live r.state) ≡ true → r.timer ≡ none
      exit_timer t = ground (arith, v.armed, running_of_live v)

  failed-Rests : is_failed r.state ≡ true → Rests (record r { consecutive_failures = 0 })
  failed-Rests f =
      let q = idle-Rests v (ground arith) (ground arith) in
      record { handle = q.handle; since = q.since; timer = q.timer; timeout = q.timeout }

  start-Inv : Inv (start env r)
  unfolding start
  start-Inv =
      if-intro Inv (is_live r.state) (λ _. v)
        (λ n. launch-Inv env _ (cleared-Rests v (ground arith)))

  wake-Inv : Inv (wake env r)
  unfolding wake
  wake-Inv =
      if-intro Inv (is_due r.state) (λ d. launch-Inv env _ (cleared-Rests v (ground arith)))
        (λ _. if-intro Inv (is_live r.state) (λ _. ground (arith, v)) (λ _. v))

  retry-Inv : Inv (retry env r)
  unfolding retry
  retry-Inv = if-intro Inv (is_failed r.state) (λ f. launch-Inv env _ (failed-Rests f)) (λ _. v)

  tick_now-Inv : Inv (tick_now env r)
  unfolding tick_now
  tick_now-Inv = if-intro Inv (is_live r.state) (λ _. wake-Inv) (λ _. start-Inv)

-- The fields that the invariant does not speak of.
touched-Inv :
    {r : Runner} {detail : Option String} {late : Bool}
    → Inv r
    → Inv (record r { detail = detail; timed_out = late })
touched-Inv v = record {
  settled = v.settled;
  held = v.held;
  since = v.since;
  current = v.current;
  armed = v.armed;
  limited = v.limited;
  graded = v.graded;
}

output-Inv : (env : Env) {r : Runner} → Inv r → Inv (on_output env r)
unfolding on_output
output-Inv env v = record {
  settled = v.settled;
  held = v.held;
  since = v.since;
  current = v.current;
  armed = v.armed;
  limited = v.limited;
  graded = v.graded;
}

fired-Rests :
    {r : Runner} (due : ℕ) → r.timer ≡ some due → Inv r → Rests (record r { timer = none })
fired-Rests {r} due e v = record {
  handle = ground (arith, v.held, v.armed);
  since = ground (arith, v.since, v.armed);
  timer = refl;
  timeout = ground (arith, v.limited, v.armed);
}

fire-Inv :
    (armed : Option ℕ) {idle fired : Runner}
    → Inv idle
    → ((due : ℕ) → armed ≡ some due → Inv fired)
    → Inv (fire armed idle fired)
unfolding fire
fire-Inv none v h = v
fire-Inv (some due) v h = h due refl

module _ (env : Env) where
  kill-Inv : {r : Runner} → Inv r → (h : Option ℕ) → Inv (kill env h r)
  unfolding kill
  kill-Inv {r} v none = v
  kill-Inv {r} v (some seq) = elim (Option-cases env.kill_exit) [
    | inl e ↦ rw (e, kill) v
    | inr (code, e) ↦ rw (e, kill) (on_exit-Inv env v code seq)
  ]

  stop-Inv : (r : Runner) → Inv (stop env r)
  unfolding stop
  stop-Inv r = kill-Inv (ground arith) r.handle

  park_daemon-Inv : {r : Runner} → Inv r → Inv (park_daemon env r)
  unfolding park_daemon
  park_daemon-Inv {r} v =
      if-intro Inv (is_daemon r.agent.lifetime && is_live r.state)
        (λ _.
          kill-Inv (schedule_next-Inv env parked_recheck_ms (suspended env r) refl refl) r.handle)
        (λ _. v)

  check_daemon_wedged-Inv :
      {r : Runner} → Inv r → (last_pass : Option ℕ) → Inv (check_daemon_wedged env last_pass r)
  unfolding check_daemon_wedged
  check_daemon_wedged-Inv {r} v last_pass =
      if-intro Inv (is_wedged env last_pass r)
        (λ _. kill-Inv {r = wedged r} (touched-Inv v) r.handle) (λ _. v)

  on_timeout-Inv : {r : Runner} → Inv r → Inv (on_timeout env r)
  unfolding on_timeout
  on_timeout-Inv {r} v = kill-Inv (touched-Inv v) r.handle

  on_timer_fired-Inv :
      {r : Runner} (due : ℕ) → r.timer ≡ some due → Inv r → Inv (on_timer_fired env r)
  unfolding on_timer_fired
  on_timer_fired-Inv {r} due e v =
      if-intro Inv (is_parked env.parked || env.idle_paused)
        (λ _.
          schedule_next-Inv env parked_recheck_ms (deferred env r) (fired-Rests due e v).handle
            (fired-Rests due e v).since)
        (λ _. launch-Inv env _ (fired-Rests due e v))

  -- Whatever happens, and whatever the spawner and `kill` do meanwhile: between events a runner holds one process
  -- exactly while running, the last one spawned; its timer is armed exactly while scheduled or backing off, the
  -- timeout exactly during a scheduled run; it is never left launching, and backs off only after a failure.
  pub step-Inv : (e : Event) {r : Runner} → Inv r → Inv (step env e r)
  unfolding step
  step-Inv starts v = start-Inv env v
  step-Inv ticks_now v = tick_now-Inv env v
  step-Inv stops {r} v = stop-Inv r
  step-Inv retries v = retry-Inv env v
  step-Inv wakes v = wake-Inv env v
  step-Inv parks v = park_daemon-Inv v
  step-Inv outputs v = output-Inv env v
  step-Inv timer_fires {r} v = fire-Inv r.timer v (λ due e. on_timer_fired-Inv due e v)
  step-Inv timeout_fires {r} v = fire-Inv r.timeout v (λ due e. on_timeout-Inv v)
  step-Inv disposes {r} v = stop-Inv r
  step-Inv (wedge_check last_pass) v = check_daemon_wedged-Inv v last_pass
  step-Inv (exits code seq) v = on_exit-Inv env v code seq

pub run-Inv : (es : List (Env × Event)) {r : Runner} → Inv r → Inv (run es r)
unfolding run
run-Inv [] v = v
run-Inv ((env, e) ∷ es) v = run-Inv es (step-Inv env e v)

pub new_runner-Inv : (root : String) (agent : LaunchAgent) → Inv (new_runner root agent)
new_runner-Inv root agent = ground arith
