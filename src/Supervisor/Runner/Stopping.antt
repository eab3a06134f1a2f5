-- ===== src/Supervisor/Runner/Stopping.antt =====
-- Stopping, stale exits, parking, and wakes.
use status_pipe.Base.{
  ℕ, ◌+◌, ◌≡◌, ◌≢◌, refl, Bool, true, false, Option, none, some, ◌||◌, arith, List, [], ◌∷◌, All,
  ◌∙◌,
}
use status_pipe.Queue.{stopped, running}
use status_pipe.Supervisor.Runner.{
  Env, Runner, Event, started, is_daemon, schedule_next, launch, launch_by, on_exit, on_exit_by,
  kill, wake, stop, park_daemon, check_daemon_wedged, on_timer_fired, on_output, retry, step, run,
  starts, ticks_now, stops, wakes, timer_fires, disposes, exits, fire, is_parked, halted,
  parked_recheck_ms, route_exit, after_spawn, take_handle, mark_running,
}

-- An exit that is reported for another spawn than the last changes nothing.
pub stale_exit-inert :
    (env : Env) (code : Option ℕ) (seq : ℕ) (r : Runner)
    → seq ≢ r.spawn_seq
    → on_exit env code seq r ≡ r
unfolding on_exit on_exit_by
stale_exit-inert env code seq r h = ground arith

-- Stopped, with nothing armed, nothing held and nothing remembered that could launch.
pub record IsStopped (seq : ℕ) (r : Runner) : Type 0 where
  pub state : r.state ≡ stopped
  pub timer : r.timer ≡ none
  pub timeout : r.timeout ≡ none
  pub handle : r.handle ≡ none
  pub pending : r.pending_wake ≡ false
  pub seq_kept : r.spawn_seq ≡ seq

-- What the operator does to run a stopped entry.
abbrev pub is_start : Event → Bool
is_start starts = true
is_start ticks_now = true
is_start _ = false

kill_halted : (env : Env) (h : Option ℕ) (r : Runner) → r.state ≡ stopped → kill env h r ≡ r
unfolding kill on_exit on_exit_by
kill_halted env none r e = refl
kill_halted env (some seq) r e = ground arith

pub stop-IsStopped : (env : Env) (r : Runner) → IsStopped r.spawn_seq (stop env r)
unfolding stop
stop-IsStopped env r = rw (kill_halted env r.handle (halted r) refl) (record {
  state = refl;
  timer = refl;
  timeout = refl;
  handle = refl;
  pending = refl;
  seq_kept = refl;
})

stop-keeps : (env : Env) (seq : ℕ) (r : Runner) → IsStopped seq r → IsStopped seq (stop env r)
stop-keeps env seq r v =
    let w = stop-IsStopped env r in
    record {
      state = w.state;
      timer = w.timer;
      timeout = w.timeout;
      handle = w.handle;
      pending = w.pending;
      seq_kept = w.seq_kept ∙ v.seq_kept;
    }

step-IsStopped :
    (env : Env) (e : Event) (seq : ℕ) (r : Runner)
    → is_start e ≡ false
    → IsStopped seq r
    → IsStopped seq (step env e r)
unfolding step wake retry park_daemon check_daemon_wedged fire on_exit on_exit_by on_output
step-IsStopped env starts seq r h v = cc
step-IsStopped env ticks_now seq r h v = cc
step-IsStopped env stops seq r h v = stop-keeps env seq r v
step-IsStopped env disposes seq r h v = stop-keeps env seq r v
step-IsStopped env _ seq r h v =
    ground (arith, v.state, v.timer, v.timeout, v.handle, v.pending, v.seq_kept)

run-IsStopped :
    (seq : ℕ) (es : List (Env × Event)) (r : Runner)
    → All (λ (e : Env × Event). is_start e.1 ≡ false) es
    → IsStopped seq r
    → IsStopped seq (run es r)
unfolding run
run-IsStopped seq [] r h v = v
run-IsStopped seq ((env, e) ∷ es) r h v =
    run-IsStopped seq es _ h.1 (step-IsStopped env e seq r h.0 v)

-- A stopped entry stays stopped until the operator starts it: no late exit, timer, wake, retry, parking or wedge
-- check, in any order, launches it, whatever the spawner and `kill` do.
pub stop-run-IsStopped :
    (env : Env) (r : Runner) (es : List (Env × Event))
    → All (λ (e : Env × Event). is_start e.1 ≡ false) es
    → IsStopped r.spawn_seq (run es (stop env r))
stop-run-IsStopped env r es quiet =
    run-IsStopped r.spawn_seq es (stop env r) quiet (stop-IsStopped env r)

-- A timer that fires while the loop is parked or idle-paused skips the pass: it launches nothing, holds nothing new, and is armed again for
-- the next look.
parked_timer-defers :
    (env : Env) (r : Runner) (due : ℕ)
    → r.timer ≡ some due
    → (is_parked env.parked || env.idle_paused) ≡ true
    → let s = step env timer_fires r in
      (s.spawn_seq ≡ r.spawn_seq)
      × (s.handle ≡ r.handle)
      × (s.timer ≡ some (env.now + parked_recheck_ms))
unfolding step fire on_timer_fired schedule_next
parked_timer-defers env r due armed held = ground arith

-- A wake that comes during a scheduled run is not lost: if the run has not timed out and exits with 0, and the spawner
-- yields a process, the next run starts at once as the next spawn, with no wake left pending.
wake_during_run-launches :
    (env later : Env) (r : Runner)
    → r.state ≡ running
    → is_daemon r.agent.lifetime ≡ false
    → r.timed_out ≡ false
    → later.spawn (r.spawn_seq + 1) ≡ started
    → let s = step later (exits (some 0) r.spawn_seq) (step env wakes r) in
      (s.state ≡ running)
      × (s.spawn_seq ≡ r.spawn_seq + 1)
      × (s.pending_wake ≡ false)
      × (s.handle ≡ some (r.spawn_seq + 1))
unfolding step wake on_exit on_exit_by route_exit launch launch_by after_spawn take_handle
    mark_running
wake_during_run-launches env later r live sched timely up = ground arith
