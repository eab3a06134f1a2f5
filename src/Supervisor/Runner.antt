-- ===== src/Supervisor/Runner.antt =====
-- One supervised launch entry as a state machine: src/supervisor/supervisedRunner.ts. A handler runs at one instant.
-- What the host supplies is the record `Env`: the clock, parking, the idle pause, the restart limit, and how the
-- spawner and `kill` behave. Logging and the parsed activity of the output are not modelled.
mod State
pub mod Fuel
pub mod Invariant
pub mod Steps
pub mod Stopping
pub mod Failures
pub mod Agent
unfoldable pub use State.*
use status_pipe.Base.{
  ℕ, zero, suc, ◌+◌, ◌-◌, ◌*◌, ◌^◌, min, max, String, Bool, true, false, Option, none, some, ◌&&◌,
  ◌||◌, not, ltb, leb, eqb, if◌then◌else◌, ◌^^◌, get_or, List, [], ◌∷◌,
}
use status_pipe.Protocol.{LaunchAgent, AgentLifetime, ParkedState}
use status_pipe.Queue.{
  AgentRunState, stopped, scheduled, launching, running, backoff, failed, parked, AgentProcessState,
}

pub schedule_next : Env → ℕ → Runner → Runner
schedule_next env delay r = record r {
  timeout = none;
  next_tick_at = some (env.now + delay);
  state = if ltb 0 r.consecutive_failures then backoff else scheduled;
  timer = some (env.now + delay);
}

abbrev exit_text : Env → Option ℕ → String
exit_text env none = "signal"
exit_text env (some n) = env.show_number n

-- The delay after the given number of failures in a row.
abbrev pub backoff_ms : ℕ → ℕ
backoff_ms n = min backoff_cap_ms (backoff_base_ms * 2 ^ (n - 1))

record_failure : Env → Option ℕ → Runner → Runner
record_failure env code r =
    let failures = r.consecutive_failures + 1 in
    let detail =
      if r.timed_out
      then r.detail
      else some ("exit " ^^ exit_text env code ^^ " ×" ^^ env.show_number failures) in
    let failing = record r { consecutive_failures = failures; detail = detail } in
    if leb env.max_restarts failures
    then record failing { state = failed; next_tick_at = none }
    else schedule_next env (backoff_ms failures) failing

abbrev is_zero_code : Option ℕ → Bool
is_zero_code none = false
is_zero_code (some zero) = true
is_zero_code (some (suc n)) = false

abbrev is_clean : Runner → Option ℕ → ℕ → Bool
is_clean r code uptime =
    (not (is_daemon r.agent.lifetime) && is_zero_code code && not r.timed_out)
    || (is_daemon r.agent.lifetime && leb daemon_healthy_uptime_ms uptime && not r.timed_out)

abbrev next_delay : LaunchAgent → ℕ
next_delay a = if is_daemon a.lifetime then 1000 else a.interval_minutes * 60000

-- `relaunch` stands for `this.launch()`.
pub route_exit : (Runner → Runner) → Env → Option ℕ → ℕ → Runner → Runner
route_exit relaunch env code uptime r =
    if is_clean r code uptime
    then if r.pending_wake
      then relaunch (record r { consecutive_failures = 0; detail = none; pending_wake = false })
      else schedule_next env (next_delay r.agent)
          (record r { consecutive_failures = 0; detail = none })
    else record_failure env code r

abbrev uptime_of : Env → Option ℕ → ℕ
uptime_of env none = 0
uptime_of env (some since) = env.now - since

-- The bookkeeping of an exit.
abbrev pub ended : Option ℕ → Runner → Runner
ended code r = record r {
  timeout = none;
  handle = none;
  last_exit_code = code;
  running_since = none;
}

on_exit_by : (Runner → Runner) → Env → Option ℕ → ℕ → Runner → Runner
on_exit_by relaunch env code seq r =
    if eqb seq r.spawn_seq && is_live r.state
    then route_exit relaunch env code (uptime_of env r.running_since) (ended code r)
    else r

abbrev arm_timeout : Env → LaunchAgent → Option ℕ → Option ℕ
arm_timeout env a armed =
    if is_daemon a.lifetime then armed else some (env.now + a.timeout_minutes * 60000)

mark_running : Env → Runner → Runner
mark_running env r = record r {
  running_since = some env.now;
  last_output_at = none;
  state = running;
  timeout = arm_timeout env r.agent r.timeout;
}

-- The spawner has returned: take the handle, unless an exit was reported meanwhile.
take_handle : Env → ℕ → Runner → Runner
take_handle env seq r =
    if is_launching r.state && eqb seq r.spawn_seq
    then mark_running env (record r { handle = some seq })
    else r

wrote_output : Env → Bool → Runner → Runner
wrote_output env wrote r = if wrote then record r { last_output_at = some env.now } else r

abbrev spawning : Runner → Runner
spawning r = record r {
  state = launching;
  detail = none;
  timed_out = false;
  spawn_seq = r.spawn_seq + 1;
}

pub after_spawn : (Runner → Runner) → Env → Spawned → ℕ → Runner → Runner
after_spawn relaunch env threw seq r = on_exit_by relaunch env (some 127) seq r
after_spawn relaunch env (exited wrote code) seq r =
    take_handle env seq (on_exit_by relaunch env code seq (wrote_output env wrote r))
after_spawn relaunch env started seq r = take_handle env seq r

-- On fuel: a launch launches again only from inside the spawner's call.
pub launch_by : ℕ → Env → Runner → Runner
launch_by zero env r = r
launch_by (suc fuel) env r =
    after_spawn (launch_by fuel env) env (env.spawn (r.spawn_seq + 1)) (r.spawn_seq + 1)
      (spawning r)

pub launch : Env → Runner → Runner
unfolding launch_by after_spawn on_exit_by route_exit record_failure schedule_next take_handle
    mark_running wrote_output
launch env r = launch_by 2 env r

pub on_exit : Env → Option ℕ → ℕ → Runner → Runner
unfolding on_exit_by route_exit record_failure schedule_next
on_exit env code seq r = on_exit_by (launch env) env code seq r

-- `handle?.kill()` on the handle of the given spawn.
kill : Env → Option ℕ → Runner → Runner
kill env none r = r
kill env (some seq) r = elim env.kill_exit [ none ↦ r | some code ↦ on_exit env code seq r ]

pub start : Env → Runner → Runner
start env r = if is_live r.state then r else launch env (clear_timers r)

pub wake : Env → Runner → Runner
wake env r =
    if is_due r.state
    then launch env (clear_timers r)
    else if is_live r.state
    then record r { pending_wake = true }
    else r

pub tick_now : Env → Runner → Runner
unfolding wake start
tick_now env r = if is_live r.state then wake env r else start env r

abbrev stop_detail : Option ℕ → Option String → Option String
stop_detail none detail = detail
stop_detail (some seq) detail = some "stopped by operator"

-- What `stop` settles before it kills the process.
abbrev pub halted : Runner → Runner
halted r = record r {
  timer = none;
  timeout = none;
  next_tick_at = none;
  pending_wake = false;
  detail = stop_detail r.handle r.detail;
  handle = none;
  running_since = none;
  state = stopped;
}

pub stop : Env → Runner → Runner
unfolding kill
stop env r = kill env r.handle (halted r)

abbrev reason_or : Option ParkedState → String → String
reason_or none fallback = fallback
reason_or (some p) fallback = p.reason

-- What `parkDaemon` settles before it reschedules.
abbrev pub suspended : Env → Runner → Runner
suspended env r = record r {
  timer = none;
  timeout = none;
  next_tick_at = none;
  pending_wake = false;
  detail = some (reason_or env.parked "parked");
  handle = none;
  running_since = none;
}

pub park_daemon : Env → Runner → Runner
unfolding kill schedule_next
park_daemon env r =
    if is_daemon r.agent.lifetime && is_live r.state
    then kill env r.handle (schedule_next env parked_recheck_ms (suspended env r))
    else r

-- No orchestrator progress for twice the interval.
abbrev pub is_wedged : Env → Option ℕ → Runner → Bool
is_wedged env last_pass r =
    let reference = max (get_or last_pass 0) (get_or r.running_since env.now) in
    is_daemon r.agent.lifetime
    && is_running r.state
    && ltb (2 * r.agent.interval_minutes * 60000) (env.now - reference)

abbrev pub wedged : Runner → Runner
wedged r = record r {
  detail = some "wedged — no orchestrator progress; restarting";
  timed_out = true;
}

pub check_daemon_wedged : Env → Option ℕ → Runner → Runner
unfolding kill
check_daemon_wedged env last_pass r =
    if is_wedged env last_pass r then kill env r.handle (wedged r) else r

abbrev is_parked : Option ParkedState → Bool
is_parked none = false
is_parked (some p) = true

-- A timer that finds the loop parked or paused.
abbrev pub deferred : Env → Runner → Runner
deferred env r = record r {
  timer = none;
  detail = some (reason_or env.parked "paused (window idle)");
}

pub on_timer_fired : Env → Runner → Runner
unfolding schedule_next
on_timer_fired env r =
    if is_parked env.parked || env.idle_paused
    then schedule_next env parked_recheck_ms (deferred env r)
    else launch env (record r { timer = none })

pub on_timeout : Env → Runner → Runner
unfolding kill
on_timeout env r = kill env r.handle (record r {
  timed_out = true;
  detail = some ("pass exceeded " ^^ env.show_number r.agent.timeout_minutes ^^ "m — killed");
})

pub on_output : Env → Runner → Runner
on_output env r = record r { last_output_at = some env.now }

pub retry : Env → Runner → Runner
retry env r = if is_failed r.state then launch env (record r { consecutive_failures = 0 }) else r

-- A parked entry shows as such while it is scheduled.
display_state : Env → Runner → AgentRunState
display_state env r = if is_parked env.parked && is_scheduled r.state then parked else r.state
  where
    is_scheduled : AgentRunState → Bool
    is_scheduled AgentRunState.scheduled = true
    is_scheduled _ = false

pub snapshot : Env → Runner → AgentProcessState
unfolding display_state
snapshot env r = record {
  repo_root = r.repo_root;
  agent_id = r.agent.id;
  title = r.agent.title;
  lifetime = r.agent.lifetime;
  state = display_state env r;
  next_tick_at = r.next_tick_at;
  running_since = r.running_since;
  last_output_at = r.last_output_at;
  consecutive_failures = r.consecutive_failures;
  last_exit_code = r.last_exit_code;
  detail = r.detail;
}

-- Everything that can happen to a runner. The exit of a process names its spawn; a timer fires only while armed.
pub data Event : Type 0 where
  starts ticks_now stops retries wakes parks outputs timer_fires timeout_fires disposes : Event
  wedge_check : (last_pass : Option ℕ) → Event
  exits : (code : Option ℕ) (seq : ℕ) → Event

fire : Option ℕ → Runner → Runner → Runner
fire none idle fired = idle
fire (some due) idle fired = fired

unfoldable pub step : Env → Event → Runner → Runner
unfolding start tick_now stop retry wake park_daemon on_output on_timer_fired on_timeout
    check_daemon_wedged on_exit fire
step env starts r = start env r
step env ticks_now r = tick_now env r
step env stops r = stop env r
step env retries r = retry env r
step env wakes r = wake env r
step env parks r = park_daemon env r
step env outputs r = on_output env r
step env timer_fires r = let fired = on_timer_fired env r in fire r.timer r fired
step env timeout_fires r = let fired = on_timeout env r in fire r.timeout r fired
step env disposes r = stop env r
step env (wedge_check last_pass) r = check_daemon_wedged env last_pass r
step env (exits code seq) r = on_exit env code seq r

pub run : List (Env × Event) → Runner → Runner
run [] r = r
run ((env, e) ∷ es) r = run es (step env e r)
