-- ===== src/Tests/Runners.antt =====
-- The runner's theorems at one scheduled entry whose spawner yields a process.
use status_pipe.Base.{◌≡◌, refl, none, some, false, [], ◌∷◌}
use status_pipe.Protocol.{LaunchAgent, AgentType, AgentLifetime}
use status_pipe.Queue.{running, scheduled}
use status_pipe.Supervisor.Runner.{
  Env, Runner, started, step, run, stop, launch, launch_by, new_runner, starts, timer_fires, exits,
  wakes,
}
use status_pipe.Supervisor.Runner.Fuel.{launch_by-enough}
use status_pipe.Supervisor.Runner.Invariant.{Inv}
use status_pipe.Supervisor.Runner.Steps.{step-Inv, new_runner-Inv}
use status_pipe.Supervisor.Runner.Stopping.{IsStopped, stop-run-IsStopped}

abbrev agent : LaunchAgent
agent = record {
  id = "tick";
  title = "Tick";
  type = AgentType.claude;
  command = "claude";
  args = [];
  stdin = "";
  cwd = "/repo";
  env = [];
  lifetime = AgentLifetime.scheduled;
  interval_minutes = 10;
  timeout_minutes = 30;
}

abbrev env : Env
env = record {
  now = 1000;
  parked = none;
  idle_paused = false;
  max_restarts = 1;
  spawn = λ n. started;
  kill_exit = none;
  show_number = λ n. "n";
}

abbrev resting : Runner
resting = new_runner "/repo" agent

-- A run of spawn 3, and an entry that waits for its timer.
abbrev live_runner : Runner
live_runner = record resting {
  state = running;
  handle = some 3;
  running_since = some 500;
  timeout = some 9000;
  spawn_seq = 3;
}

abbrev waiting_runner : Runner
waiting_runner = record resting { state = scheduled; timer = some 900; next_tick_at = some 900 }

step-Inv_example : Inv (step env starts (new_runner "/repo" agent))
step-Inv_example = step-Inv env starts (new_runner-Inv "/repo" agent)

launch_by-enough_example : launch_by 5 env waiting_runner ≡ launch env waiting_runner
launch_by-enough_example = launch_by-enough 3 env waiting_runner

stop-run-IsStopped_example :
    IsStopped 3 (
      run ((env, exits (some 0) 3) ∷ (env, timer_fires) ∷ (env, wakes) ∷ []) (stop env live_runner))
stop-run-IsStopped_example =
    stop-run-IsStopped env live_runner
      ((env, exits (some 0) 3) ∷ (env, timer_fires) ∷ (env, wakes) ∷ []) (refl, (refl, (refl, tt)))
