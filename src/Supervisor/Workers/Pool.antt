-- ===== src/Supervisor/Workers/Pool.antt =====
-- The pool of a repository's workers: spawnWorker, stopWorkers and the loop of reconcileWorkers of
-- src/supervisor/agentSupervisor.ts, with the events of the worker objects.
use status_pipe.Base.{
  ℕ, zero, suc, String, Bool, not, ◌&&◌, Option, none, some, List, [], ◌∷◌, ◌++◌, Dict, remove,
  insert, has, length, if◌then◌else◌, leb, keys,
}
use status_pipe.Protocol.{LaunchAgent, DispatchItem}
use status_pipe.Supervisor.Runner.{Spawned}
use status_pipe.Supervisor.Templates.{launch_agent_to_request, resolve_worker_request}
use status_pipe.Supervisor.Workers.{
  Worker, WorkerEnv, new_worker, worker_start, worker_stop, worker_exit, worker_output,
  worker_timed_out,
}

-- `live` is the map `workers`, from a key to the number of an object.
pub record Pool : Type 0 where
  pub heap : List Worker
  pub live : Dict ℕ

abbrev pub no_workers : Pool
no_workers = record { heap = []; live = [] }

-- What the host supplies at one instant. The spawner's answer is given for the number of the object.
pub record Host : Type 0 where
  pub now : ℕ
  pub spawn : ℕ → Spawned
  pub kill_exit : Option (Option ℕ)
  pub is_absolute : String → Bool
  pub resolve : String → String → String

abbrev pub worker_env : Host → ℕ → WorkerEnv
worker_env h n = record { now = h.now; spawned = h.spawn n; kill_exit = h.kill_exit }

module _ {ℓ} {A : Type ℓ} where
  unfoldable pub nth : ℕ → List A → Option A
  nth n [] = none
  nth zero (x ∷ xs) = some x
  nth (suc n) (x ∷ xs) = nth n xs

  unfoldable pub set_nth : ℕ → A → List A → List A
  set_nth n y [] = []
  set_nth zero y (x ∷ xs) = y ∷ xs
  set_nth (suc n) y (x ∷ xs) = x ∷ set_nth n y xs

-- `onDone`, where the object has just ended.
abbrev pub done : Worker → Worker → Dict ℕ → Dict ℕ
done before after live = if after.ended && not before.ended then remove before.key live else live

-- An operation of the object of this number.
unfoldable pub act : (Worker → Worker) → ℕ → Pool → Pool
unfolding nth set_nth
act f n p = elim (nth n p.heap) [
  | none ↦ p
  | some w ↦ record { heap = set_nth n (f w) p.heap; live = done w (f w) p.live }
]

-- What happens to an object by itself.
pub data WorkerEvent : Type 0 where
  outputs exits times_out : WorkerEvent

module _ (h : Host) where
  abbrev pub worker_for : LaunchAgent → DispatchItem → Worker
  worker_for template item =
      new_worker item.key
        (resolve_worker_request h.is_absolute h.resolve (launch_agent_to_request template)
          item.prompt item.worktree)
        template.timeout_minutes

  -- The object is in the pool before its process is spawned.
  abbrev pub entered : LaunchAgent → DispatchItem → Pool → Pool
  entered template item p = record {
    heap = p.heap ++ worker_for template item ∷ [];
    live = insert item.key (length p.heap) p.live;
  }

  unfoldable pub spawn_worker : LaunchAgent → DispatchItem → Pool → Pool
  unfolding act worker_start
  spawn_worker template item p =
      act (worker_start (worker_env h (length p.heap))) (length p.heap) (entered template item p)

  -- The loop of `reconcileWorkers`, up to `cap` workers.
  unfoldable pub spawn_items : LaunchAgent → ℕ → List DispatchItem → Pool → Pool
  unfolding spawn_worker
  spawn_items template cap [] p = p
  spawn_items template cap (i ∷ is) p =
      let passed = spawn_items template cap is p in
      let spawned = spawn_items template cap is (spawn_worker template i p) in
      if leb cap (length p.live) then p else if has i.key p.live then passed else spawned

  dispose_each : Dict ℕ → Pool → Pool
  unfolding act
  dispose_each [] p = p
  dispose_each (e ∷ es) p = dispose_each es (act (worker_stop (worker_env h e.1)) e.1 p)

  unfoldable pub stop_workers : Pool → Pool
  unfolding dispose_each
  stop_workers p = record (dispose_each p.live p) { live = [] }

  unfoldable pub worker_event : WorkerEvent → ℕ → Pool → Pool
  unfolding act
  worker_event outputs n p = act (worker_output h.now) n p
  worker_event exits n p = act worker_exit n p
  worker_event times_out n p = act (worker_timed_out (worker_env h n)) n p

-- `liveWorkerKeys`
abbrev pub live_keys : Pool → List String
live_keys p = keys p.live
