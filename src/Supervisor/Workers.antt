-- ===== src/Supervisor/Workers.antt =====
-- One worker process, and the pool of a repository's workers: src/supervisor/workerRunner.ts with spawnWorker and
-- stopWorkers of src/supervisor/agentSupervisor.ts. A worker object outlives its entry in the pool, so the objects stand
-- in a heap and the pool's map holds their numbers. Logging and the parsed activity are not modelled.
pub mod Pool
pub mod Caps
pub mod Sound
use status_pipe.Base.{
  ℕ, zero, suc, ◌+◌, ◌*◌, String, Bool, true, false, not, Option, none, some, List, [], ◌∷◌, ◌++◌,
  Dict, remove, insert, has, lookup, length, map, if◌then◌else◌, leb,
}
use status_pipe.Protocol.{LaunchAgent, DispatchItem}
use status_pipe.Queue.{WorkerProcessState}
use status_pipe.Supervisor.Runner.{Spawned, threw, exited, started}
use status_pipe.Supervisor.Templates.{SpawnRequest}

-- What the host supplies to a worker: the clock, the answer of the spawner, and what `kill` does (`some code` where it
-- reports the exit before it returns).
pub record WorkerEnv : Type 0 where
  pub now : ℕ
  pub spawned : Spawned
  pub kill_exit : Option (Option ℕ)

-- `held` is whether a process handle is held; `timeout` is the due time of the armed callback.
pub record Worker : Type 0 where
  pub key : String
  pub request : SpawnRequest
  pub timeout_minutes : ℕ
  pub running_since : Option ℕ
  pub last_output_at : Option ℕ
  pub held : Bool
  pub timeout : Option ℕ
  pub ended : Bool

abbrev pub new_worker : String → SpawnRequest → ℕ → Worker
new_worker key request timeout_minutes = record {
  key = key;
  request = request;
  timeout_minutes = timeout_minutes;
  running_since = none;
  last_output_at = none;
  held = false;
  timeout = none;
  ended = false;
}

abbrev pub worker_snapshot : String → Worker → WorkerProcessState
worker_snapshot root w = record {
  repo_root = root;
  key = w.key;
  running_since = w.running_since;
  last_output_at = w.last_output_at;
}

abbrev pub worker_output : ℕ → Worker → Worker
worker_output now w = record w { last_output_at = some now }

-- The object after an exit is reported. `onDone` is called unless it had ended.
abbrev pub worker_exit : Worker → Worker
worker_exit w = if w.ended then w else record w { ended = true; timeout = none; held = false }

abbrev arm_timeout : ℕ → Worker → Worker
arm_timeout now w = record w { timeout = some (now + w.timeout_minutes * 60000) }

-- The spawner has returned: the handle is taken and the timeout armed, also where the exit was reported meanwhile.
abbrev returned : ℕ → Worker → Worker
returned now w = arm_timeout now (record w { held = true })

unfoldable pub worker_start : WorkerEnv → Worker → Worker
worker_start env w =
    let begun = record w { running_since = some env.now } in
    elim env.spawned [
      | threw ↦ worker_exit begun
      | exited wrote code ↦
          returned env.now (worker_exit (if wrote then worker_output env.now begun else begun))
      | started ↦ returned env.now begun
    ]

-- `handle?.kill()`
abbrev pub worker_kill : WorkerEnv → Worker → Worker
worker_kill env w = elim env.kill_exit [
  | none ↦ w
  | some code ↦ if w.held then worker_exit w else w
]

abbrev pub worker_stop : WorkerEnv → Worker → Worker
worker_stop env w = worker_kill env (record w { timeout = none })

-- The armed timeout fires.
abbrev pub worker_timed_out : WorkerEnv → Worker → Worker
worker_timed_out env w = elim w.timeout [
  | none ↦ w
  | some due ↦ worker_kill env (record w { timeout = none })
]
