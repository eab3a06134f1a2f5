-- ===== src/Supervisor/Fleet/Sound.antt =====
-- The events of the fleet and what holds between them: src/supervisor/agentSupervisor.ts.
use status_pipe.Base.{
  ℕ, String, Option, none, some, List, [], ◌∷◌, if-intro, AllValues-map, is_some,
}
use status_pipe.Protocol.{OrchestratorFile}
use status_pipe.Supervisor.Runner.{Runner, starts, stops, ticks_now, wedge_check}
use status_pipe.Supervisor.Runner.Invariant.{Inv}
use status_pipe.Supervisor.Runner.Steps.{step-Inv}
use status_pipe.Supervisor.Workers.Pool.{WorkerEvent}
use status_pipe.Supervisor.Workers.Sound.{
  no_workers-PoolInv, stop_workers-PoolInv, worker_event-PoolInv,
}
use status_pipe.Supervisor.Fleet.{
  AgentSupervisor, RepoSupervision, SupervisorDeps, SupervisorSettings, new_supervisor, new_repo,
  runner_env, note_orchestrator, recheck_fires, wake_repo, note_last_pass_finished, parked_in,
  finished_in, reconcile_file, each_runner, set_agents, one_runner,
}
use status_pipe.Supervisor.Fleet.Operations.{
  FleetEvent, settings_change, focus, wedge_timer_fires, starts_all, stops_all, disposes,
  agents_set, orchestrator_change, wakes_repo, recheck_timer_fires, controls, ticks_all,
  runner_event, on_worker, fleet_step, fleet_run, on_repo, stop_all, stop_repo, tick_repo,
  tick_runner, root_matches, check_repo, update_settings, wedge_check_fires, worker_repo, event_of,
}
use status_pipe.Supervisor.Fleet.Everywhere
use status_pipe.Supervisor.Fleet.Everywhere.{
  repo_of-Everywhere, on_repo-Everywhere, on_known-Everywhere, every_repo-Everywhere,
}
use status_pipe.Supervisor.Fleet.Invariant.{
  RepoInv, FleetInv, each_runner-RepoInv, set_agents-RepoInv, maybe_reconcile-RepoInv,
  park_daemons-RepoInv, wake_repo-RepoInv, one_runner-RepoInv,
}

new_repo-RepoInv : RepoInv new_repo
new_repo-RepoInv = record { runners = tt; pool = no_workers-PoolInv }

abbrev Keeps : (RepoSupervision → RepoSupervision) → Type 0
Keeps f = Everywhere.Keeps RepoInv f

module _ (f : RepoSupervision → RepoSupervision) (keeps : Keeps f) where
  on_repo-FleetInv :
      (root : String) (s : AgentSupervisor) → FleetInv s → FleetInv (on_repo root f s)
  on_repo-FleetInv root s v =
      on_repo-Everywhere RepoInv f root s
        (keeps _ (repo_of-Everywhere RepoInv new_repo-RepoInv root s v)) v

module _ (deps : SupervisorDeps) where
  module _ (s : AgentSupervisor) where
    stop_repo-Keeps : Keeps (stop_repo deps s)
    stop_repo-Keeps repo v = record {
      runners = (each_runner-RepoInv deps s stops repo v).runners;
      pool = stop_workers-PoolInv deps.host repo.pool;
    }

    tick_runner-Inv :
        (wanted : Option String) (repo : RepoSupervision) (r : Runner)
        → Inv r
        → Inv (tick_runner deps s wanted repo r)
    tick_runner-Inv wanted repo r i =
        if-intro Inv (root_matches wanted r.repo_root)
          (λ _. step-Inv (runner_env deps s repo r.agent) ticks_now i) (λ _. i)

    tick_repo-Keeps : (wanted : Option String) → Keeps (tick_repo deps s wanted)
    tick_repo-Keeps wanted repo v = record {
      runners =
          AllValues-map Inv (tick_runner deps s wanted repo) (tick_runner-Inv wanted repo)
            repo.runners v.runners;
      pool = v.pool;
    }

    reconcile_file-Keeps : (file : Option OrchestratorFile) → Keeps (reconcile_file deps s file)
    reconcile_file-Keeps none repo v = v
    reconcile_file-Keeps (some file) repo v = maybe_reconcile-RepoInv deps s file repo v

    note_orchestrator-Keeps :
        (file : Option OrchestratorFile) → Keeps (note_orchestrator deps s file)
    unfolding note_orchestrator
    note_orchestrator-Keeps file repo v =
        let reconciled = reconcile_file-Keeps file _ (
          park_daemons-RepoInv deps s
            (note_last_pass_finished deps s (finished_in deps s file)
              (record repo { parked = parked_in deps s file }))
            (record { runners = v.runners; pool = v.pool })) in
        record { runners = reconciled.runners; pool = reconciled.pool }

    recheck_fires-Keeps : Keeps (recheck_fires deps s)
    recheck_fires-Keeps repo v =
        if-intro RepoInv (is_some repo.recheck)
          (λ _.
            wake_repo-RepoInv deps s (record repo { recheck = none })
              (record { runners = v.runners; pool = v.pool }))
          (λ _. v)

    check_repo-Keeps : Keeps (check_repo deps s)
    check_repo-Keeps repo v =
        each_runner-RepoInv deps s (wedge_check repo.last_pass_finished_at) repo v

  worker_repo-Keeps : (e : WorkerEvent) (n : ℕ) → Keeps (worker_repo deps e n)
  worker_repo-Keeps e n repo v = record {
    runners = v.runners;
    pool = worker_event-PoolInv deps.host e n repo.pool v.pool;
  }

  stop_all-FleetInv : (s : AgentSupervisor) → FleetInv s → FleetInv (stop_all deps s)
  stop_all-FleetInv s v = every_repo-Everywhere RepoInv (stop_repo deps s) (stop_repo-Keeps s) s v

  update_settings-FleetInv :
      (settings : SupervisorSettings) (s : AgentSupervisor)
      → FleetInv s
      → FleetInv (update_settings deps settings s)
  update_settings-FleetInv settings s v =
      if-intro FleetInv settings.enabled (λ _. v)
        (λ _. stop_all-FleetInv (record s { settings = settings }) v)

  wedge_check_fires-FleetInv :
      (s : AgentSupervisor) → FleetInv s → FleetInv (wedge_check_fires deps s)
  wedge_check_fires-FleetInv s v =
      if-intro FleetInv (is_some s.wedge_timer)
        (λ _. every_repo-Everywhere RepoInv (check_repo deps s) (check_repo-Keeps s) s v) (λ _. v)

  fleet_step-FleetInv :
      (e : FleetEvent) (s : AgentSupervisor) → FleetInv s → FleetInv (fleet_step deps e s)
  unfolding fleet_step
  fleet_step-FleetInv (settings_change settings) s v = update_settings-FleetInv settings s v
  fleet_step-FleetInv focus s v = v
  fleet_step-FleetInv wedge_timer_fires s v = wedge_check_fires-FleetInv s v
  fleet_step-FleetInv starts_all s v =
      every_repo-Everywhere RepoInv (each_runner deps s starts) (each_runner-RepoInv deps s starts)
        s v
  fleet_step-FleetInv stops_all s v = stop_all-FleetInv s v
  fleet_step-FleetInv disposes s v = tt
  fleet_step-FleetInv (agents_set root agents) s v =
      on_repo-FleetInv (set_agents deps s root agents) (set_agents-RepoInv deps s root agents) root
        s v
  fleet_step-FleetInv (orchestrator_change root file) s v =
      on_repo-FleetInv (note_orchestrator deps s file) (note_orchestrator-Keeps s file) root s v
  fleet_step-FleetInv (wakes_repo root) s v =
      on_repo-FleetInv (wake_repo deps s) (wake_repo-RepoInv deps s) root s v
  fleet_step-FleetInv (recheck_timer_fires root) s v =
      on_known-Everywhere RepoInv (recheck_fires deps s) (recheck_fires-Keeps s) root s v
  fleet_step-FleetInv (controls root id action) s v =
      on_known-Everywhere RepoInv (one_runner deps s id (event_of action))
        (one_runner-RepoInv deps s id (event_of action)) root s v
  fleet_step-FleetInv (ticks_all wanted) s v =
      every_repo-Everywhere RepoInv (tick_repo deps s wanted) (tick_repo-Keeps s wanted) s v
  fleet_step-FleetInv (runner_event root id e) s v =
      on_known-Everywhere RepoInv (one_runner deps s id e) (one_runner-RepoInv deps s id e) root s v
  fleet_step-FleetInv (on_worker root e n) s v =
      on_known-Everywhere RepoInv (worker_repo deps e n) (worker_repo-Keeps e n) root s v

fleet_run-FleetInv_from :
    (es : List (SupervisorDeps × FleetEvent)) (s : AgentSupervisor)
    → FleetInv s
    → FleetInv (fleet_run es s)
unfolding fleet_run
fleet_run-FleetInv_from [] s v = v
fleet_run-FleetInv_from ((deps, e) ∷ es) s v =
    fleet_run-FleetInv_from es (fleet_step deps e s) (fleet_step-FleetInv deps e s v)

-- After any events, in any order and whatever the spawners and `kill` do: in every repository each runner is as `Inv`
-- says, and each key of the worker pool stands for a worker of that key which has not ended.
pub fleet_run-FleetInv :
    (deps : SupervisorDeps) (settings : SupervisorSettings)
    (es : List (SupervisorDeps × FleetEvent))
    → FleetInv (fleet_run es (new_supervisor deps settings))
fleet_run-FleetInv deps settings es = fleet_run-FleetInv_from es (new_supervisor deps settings) tt
