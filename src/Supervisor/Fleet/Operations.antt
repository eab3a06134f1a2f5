-- ===== src/Supervisor/Fleet/Operations.antt =====
-- The operations of AgentSupervisor over all repositories: src/supervisor/agentSupervisor.ts.
use status_pipe.Base.{
  ℕ, ◌+◌, String, Bool, true, ◌||◌, Option, none, some, List, [], ◌∷◌, insert, lookup, map,
  map_some, flat_map, if◌then◌else◌, ◌==◌, is_some,
}
use status_pipe.Protocol.{LaunchAgent, OrchestratorFile}
use status_pipe.Queue.{AgentProcessState, WorkerProcessState}
use status_pipe.Supervisor.Runner.{
  Runner, Event, snapshot, starts, ticks_now, stops, retries, wedge_check,
}
use status_pipe.Supervisor.Workers.{worker_snapshot}
use status_pipe.Supervisor.Workers.Pool.{
  Pool, WorkerEvent, live_keys, nth, stop_workers, worker_event,
}
use status_pipe.Supervisor.Fleet.{
  AgentSupervisor, RepoSupervision, SupervisorDeps, SupervisorSettings, each_runner,
  note_orchestrator, one_runner, recheck_fires, repo_of, runner_env, runner_step, set_agents,
  wake_repo, wedge_check_ms,
}

-- An operation on a repository that is there, or made for it.
abbrev pub on_repo :
    String → (RepoSupervision → RepoSupervision) → AgentSupervisor → AgentSupervisor
on_repo root f s = record s { repos = insert root (f (repo_of root s)) s.repos }

-- An operation on a repository, if it is there.
abbrev pub on_known :
    String → (RepoSupervision → RepoSupervision) → AgentSupervisor → AgentSupervisor
on_known root f s = elim (lookup root s.repos) [
  | none ↦ s
  | some repo ↦ record s { repos = insert root (f repo) s.repos }
]

abbrev pub every_repo : (RepoSupervision → RepoSupervision) → AgentSupervisor → AgentSupervisor
every_repo f s = record s { repos = map (λ e. (e.0, f e.1)) s.repos }

pub data Action : Type 0 where
  start stop tick_now retry : Action

abbrev pub event_of : Action → Event
event_of Action.start = starts
event_of Action.stop = stops
event_of Action.tick_now = ticks_now
event_of Action.retry = retries

abbrev pub root_matches : Option String → String → Bool
root_matches none root = true
root_matches (some wanted) root = wanted == "" || root == wanted

module _ (deps : SupervisorDeps) where
  abbrev pub control : String → String → Action → AgentSupervisor → AgentSupervisor
  control root id action s = on_known root (one_runner deps s id (event_of action)) s

  abbrev pub start_all : AgentSupervisor → AgentSupervisor
  start_all s = every_repo (each_runner deps s starts) s

  abbrev pub stop_repo : AgentSupervisor → RepoSupervision → RepoSupervision
  stop_repo s repo = record (each_runner deps s stops repo) {
    pool = stop_workers deps.host repo.pool;
  }

  abbrev pub stop_all : AgentSupervisor → AgentSupervisor
  stop_all s = every_repo (stop_repo s) s

  -- The runners of a repository carry its root.
  abbrev pub tick_runner : AgentSupervisor → Option String → RepoSupervision → Runner → Runner
  tick_runner s wanted repo r =
      if root_matches wanted r.repo_root then runner_step deps s repo ticks_now r else r

  abbrev pub tick_repo : AgentSupervisor → Option String → RepoSupervision → RepoSupervision
  tick_repo s wanted repo = record repo {
    runners = map (λ e. (e.0, tick_runner s wanted repo e.1)) repo.runners;
  }

  abbrev pub tick_all : Option String → AgentSupervisor → AgentSupervisor
  tick_all wanted s = every_repo (tick_repo s wanted) s

  abbrev pub update_settings : SupervisorSettings → AgentSupervisor → AgentSupervisor
  update_settings settings s =
      let updated = record s { settings = settings } in
      if settings.enabled then updated else stop_all updated

  abbrev pub note_focus : AgentSupervisor → AgentSupervisor
  note_focus s = record s { last_focus_at = deps.host.now }

  abbrev pub check_repo : AgentSupervisor → RepoSupervision → RepoSupervision
  check_repo s repo = each_runner deps s (wedge_check repo.last_pass_finished_at) repo

  -- The wedge check fires, where armed, and arms itself again.
  abbrev pub wedge_check_fires : AgentSupervisor → AgentSupervisor
  wedge_check_fires s =
      if is_some s.wedge_timer
      then record (every_repo (check_repo s) s) {
        wedge_timer = some (deps.host.now + wedge_check_ms);
      }
      else s

  abbrev pub repo_states : AgentSupervisor → RepoSupervision → List AgentProcessState
  repo_states s repo = map (λ e. snapshot (runner_env deps s repo e.1.agent) e.1) repo.runners

  abbrev pub states : AgentSupervisor → List AgentProcessState
  states s = flat_map (λ e. repo_states s e.1) s.repos

  -- Everything is disposed of and forgotten.
  abbrev pub dispose : AgentSupervisor → AgentSupervisor
  dispose s = record s { repos = []; wedge_timer = none }

abbrev pub live_worker_keys : String → AgentSupervisor → List String
live_worker_keys root s = elim (lookup root s.repos) [ none ↦ [] | some repo ↦ live_keys repo.pool ]

abbrev live_worker : String → Pool → String × ℕ → Option WorkerProcessState
live_worker root p e = elim (nth e.1 p.heap) [
  | none ↦ none
  | some w ↦ some (worker_snapshot root w)
]

abbrev pub worker_states : AgentSupervisor → List WorkerProcessState
worker_states s = flat_map (λ e. map_some (live_worker e.0 e.1.pool) e.1.pool.live) s.repos

-- Everything that can happen to the fleet. The host's calls, the timers and the processes are events.
pub data FleetEvent : Type 0 where
  settings_change : SupervisorSettings → FleetEvent
  focus wedge_timer_fires starts_all stops_all disposes : FleetEvent
  agents_set : (root : String) (agents : List LaunchAgent) → FleetEvent
  orchestrator_change : (root : String) (file : Option OrchestratorFile) → FleetEvent
  wakes_repo : (root : String) → FleetEvent
  recheck_timer_fires : (root : String) → FleetEvent
  controls : (root id : String) (action : Action) → FleetEvent
  ticks_all : (wanted : Option String) → FleetEvent
  runner_event : (root id : String) (e : Event) → FleetEvent
  on_worker : (root : String) (e : WorkerEvent) (n : ℕ) → FleetEvent

abbrev pub worker_repo : SupervisorDeps → WorkerEvent → ℕ → RepoSupervision → RepoSupervision
worker_repo deps e n repo = record repo { pool = worker_event deps.host e n repo.pool }

unfoldable pub fleet_step : SupervisorDeps → FleetEvent → AgentSupervisor → AgentSupervisor
fleet_step deps (settings_change settings) s = update_settings deps settings s
fleet_step deps focus s = note_focus deps s
fleet_step deps wedge_timer_fires s = wedge_check_fires deps s
fleet_step deps starts_all s = start_all deps s
fleet_step deps stops_all s = stop_all deps s
fleet_step deps disposes s = dispose deps s
fleet_step deps (agents_set root agents) s = on_repo root (set_agents deps s root agents) s
fleet_step deps (orchestrator_change root file) s = on_repo root (note_orchestrator deps s file) s
fleet_step deps (wakes_repo root) s = on_repo root (wake_repo deps s) s
fleet_step deps (recheck_timer_fires root) s = on_known root (recheck_fires deps s) s
fleet_step deps (controls root id action) s = control deps root id action s
fleet_step deps (ticks_all wanted) s = tick_all deps wanted s
fleet_step deps (runner_event root id e) s = on_known root (one_runner deps s id e) s
fleet_step deps (on_worker root e n) s = on_known root (worker_repo deps e n) s

unfoldable pub fleet_run : List (SupervisorDeps × FleetEvent) → AgentSupervisor → AgentSupervisor
unfolding fleet_step
fleet_run [] s = s
fleet_run ((deps, e) ∷ es) s = fleet_run es (fleet_step deps e s)
