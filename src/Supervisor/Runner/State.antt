-- ===== src/Supervisor/Runner/State.antt =====
-- The state of a supervised launch entry and what the host supplies to it: the fields, constants and timers of
-- src/supervisor/supervisedRunner.ts, with the tests on its run state.
use status_pipe.Base.{ℕ, String, Bool, true, false, Option, none}
use status_pipe.Protocol.{LaunchAgent, AgentLifetime, ParkedState}
use status_pipe.Queue.{AgentRunState, stopped}

abbrev pub backoff_base_ms : ℕ
backoff_base_ms = 60000

abbrev pub backoff_cap_ms : ℕ
backoff_cap_ms = 900000

abbrev pub daemon_healthy_uptime_ms : ℕ
daemon_healthy_uptime_ms = 60000

abbrev pub parked_recheck_ms : ℕ
parked_recheck_ms = 60000

-- What a call of the spawner does: it throws; it reports the exit before it returns, possibly with output; or it
-- returns the handle of a process that runs on. An exit code of `none` is a signal.
pub data Spawned : Type 0 where
  threw : Spawned
  exited : (wrote : Bool) (code : Option ℕ) → Spawned
  started : Spawned

pub record Env : Type 0 where
  pub now : ℕ
  pub parked : Option ParkedState
  pub idle_paused : Bool
  pub max_restarts : ℕ
  -- The answer of the spawner to the spawn of this number.
  pub spawn : ℕ → Spawned
  -- `some code` where `kill` reports the exit before it returns.
  pub kill_exit : Option (Option ℕ)
  pub show_number : ℕ → String

-- `handle` is the number of the spawn whose process is held; `timer` and `timeout` are the due times of the armed
-- callbacks, `none` where the cancel function is null.
pub record Runner : Type 0 where
  pub agent : LaunchAgent
  pub repo_root : String
  pub state : AgentRunState
  pub next_tick_at : Option ℕ
  pub running_since : Option ℕ
  pub last_output_at : Option ℕ
  pub consecutive_failures : ℕ
  pub last_exit_code : Option ℕ
  pub detail : Option String
  pub handle : Option ℕ
  pub timer : Option ℕ
  pub timeout : Option ℕ
  pub timed_out : Bool
  pub pending_wake : Bool
  pub spawn_seq : ℕ

abbrev pub new_runner : String → LaunchAgent → Runner
new_runner root agent = record {
  agent = agent;
  repo_root = root;
  state = stopped;
  next_tick_at = none;
  running_since = none;
  last_output_at = none;
  consecutive_failures = 0;
  last_exit_code = none;
  detail = none;
  handle = none;
  timer = none;
  timeout = none;
  timed_out = false;
  pending_wake = false;
  spawn_seq = 0;
}

abbrev pub is_daemon : AgentLifetime → Bool
is_daemon AgentLifetime.daemon = true
is_daemon AgentLifetime.scheduled = false

-- `running` or `launching`.
abbrev pub is_live : AgentRunState → Bool
is_live AgentRunState.running = true
is_live AgentRunState.launching = true
is_live _ = false

abbrev pub is_launching : AgentRunState → Bool
is_launching AgentRunState.launching = true
is_launching _ = false

abbrev pub is_running : AgentRunState → Bool
is_running AgentRunState.running = true
is_running _ = false

-- `scheduled` or `backoff`.
abbrev pub is_due : AgentRunState → Bool
is_due AgentRunState.scheduled = true
is_due AgentRunState.backoff = true
is_due _ = false

abbrev pub is_failed : AgentRunState → Bool
is_failed AgentRunState.failed = true
is_failed _ = false

abbrev pub clear_timers : Runner → Runner
clear_timers r = record r { timer = none; timeout = none; next_tick_at = none }
