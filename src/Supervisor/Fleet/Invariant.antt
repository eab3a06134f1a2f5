-- ===== src/Supervisor/Fleet/Invariant.antt =====
-- What holds of the fleet between events: src/supervisor/agentSupervisor.ts.
use status_pipe.Base.{
  String, true, Option, none, some, List, [], ◌∷◌, Dict, lookup, if-intro, inl, inr, Option-cases,
  AllValues, AllValues-insert, AllValues-lookup, AllValues-map, is_some, ◌==◌,
}
use status_pipe.Protocol.{LaunchAgent, OrchestratorFile, DispatchPlan, worker_id}
use status_pipe.Supervisor.Runner.{Runner, Event, wakes, parks}
use status_pipe.Supervisor.Runner.Invariant.{Inv}
use status_pipe.Supervisor.Runner.Steps.{step-Inv, new_runner-Inv}
use status_pipe.Supervisor.Workers.Pool.{spawn_items}
use status_pipe.Supervisor.Workers.Sound.{PoolInv, spawn_items-PoolInv, stop_workers-PoolInv}
use status_pipe.Supervisor.Fleet.{
  AgentSupervisor, RepoSupervision, SupervisorDeps, runner_env, runner_step, each_runner, built,
  set_agents, reconcile_workers, reconcile_once, maybe_reconcile_dispatch, is_reconciled, wake_repo,
  one_runner, park_daemons,
}

pub record RepoInv (repo : RepoSupervision) : Type 0 where
  pub runners : AllValues Inv repo.runners
  pub pool : PoolInv repo.pool

abbrev pub FleetInv : AgentSupervisor → Type 0
FleetInv s = AllValues RepoInv s.repos

module _ (deps : SupervisorDeps) (s : AgentSupervisor) where
  pub each_runner-RepoInv :
      (e : Event) (repo : RepoSupervision) → RepoInv repo → RepoInv (each_runner deps s e repo)
  each_runner-RepoInv e repo v = record {
    runners =
        AllValues-map Inv (runner_step deps s repo e)
          (λ r i. step-Inv (runner_env deps s repo r.agent) e i) repo.runners v.runners;
    pool = v.pool;
  }

  built-Inv :
      (root : String) (agents : List LaunchAgent) (runners : Dict Runner)
      → AllValues Inv runners
      → AllValues Inv (built deps s root agents runners)
  built-Inv root [] runners h = h
  built-Inv root (a ∷ as_) runners h = built-Inv root as_ _ (
      if-intro (AllValues Inv) (a.id == worker_id) (λ _. h)
        (λ _. AllValues-insert Inv a.id _ runners (new_runner-Inv root a) h))

  pub set_agents-RepoInv :
      (root : String) (agents : List LaunchAgent) (repo : RepoSupervision)
      → RepoInv repo
      → RepoInv (set_agents deps s root agents repo)
  unfolding set_agents
  set_agents-RepoInv root agents repo v =
      if-intro RepoInv s.settings.enabled
        (λ _. record { runners = built-Inv root agents [] tt; pool = v.pool })
        (λ _. record { runners = tt; pool = stop_workers-PoolInv deps.host repo.pool })

  reconcile_workers-RepoInv :
      (plan : DispatchPlan) (repo : RepoSupervision)
      → RepoInv repo
      → RepoInv (reconcile_workers deps s plan repo)
  unfolding reconcile_workers
  reconcile_workers-RepoInv plan repo v =
      if-intro RepoInv s.settings.enabled (λ _. by_template repo.worker_template) (λ _. v)
    where
      by_template :
          (t : Option LaunchAgent)
          → RepoInv (elim t [
            | none ↦ repo
            | some template ↦ record repo {
              pool = spawn_items deps.host template plan.max_concurrent plan.items repo.pool;
            }
          ])
      by_template none = v
      by_template (some t) = record {
        runners = v.runners;
        pool = spawn_items-PoolInv deps.host t plan.max_concurrent plan.items repo.pool v.pool;
      }

  reconcile_once-RepoInv :
      (file : OrchestratorFile) (plan : DispatchPlan) (repo : RepoSupervision)
      → RepoInv repo
      → RepoInv (reconcile_once deps s file plan repo)
  unfolding reconcile_once
  reconcile_once-RepoInv file plan repo v =
      if-intro RepoInv (is_reconciled deps s file repo) (λ _. v)
        (λ _.
          reconcile_workers-RepoInv plan
            (record repo { reconciled_any = true; reconciled_dispatch_pass = file.pass_count })
            (record { runners = v.runners; pool = v.pool }))

  pub maybe_reconcile-RepoInv :
      (file : OrchestratorFile) (repo : RepoSupervision)
      → RepoInv repo
      → RepoInv (maybe_reconcile_dispatch deps s file repo)
  unfolding maybe_reconcile_dispatch
  maybe_reconcile-RepoInv file repo v = elim (Option-cases file.dispatch) [
    | inl e ↦ rw (e, maybe_reconcile_dispatch) v
    | inr (plan, e) ↦
        rw (e, maybe_reconcile_dispatch)
          (if-intro RepoInv s.settings.enabled
            (λ _. elim (Option-cases repo.worker_template) [
              | inl none_yet ↦ rw none_yet (reconcile_workers-RepoInv plan repo v)
              | inr (t, found) ↦ rw found (reconcile_once-RepoInv file plan repo v)
            ])
            (λ _. v))
  ]

  pub park_daemons-RepoInv :
      (repo : RepoSupervision) → RepoInv repo → RepoInv (park_daemons deps s repo)
  park_daemons-RepoInv repo v =
      if-intro RepoInv (is_some repo.parked) (λ _. each_runner-RepoInv parks repo v) (λ _. v)

  pub wake_repo-RepoInv : (repo : RepoSupervision) → RepoInv repo → RepoInv (wake_repo deps s repo)
  unfolding wake_repo
  wake_repo-RepoInv repo v =
      each_runner-RepoInv wakes (record repo { parked = none })
        (record { runners = v.runners; pool = v.pool })

  pub one_runner-RepoInv :
      (id : String) (e : Event) (repo : RepoSupervision)
      → RepoInv repo
      → RepoInv (one_runner deps s id e repo)
  unfolding one_runner
  one_runner-RepoInv id e repo v = elim (Option-cases (lookup id repo.runners)) [
    | inl missing ↦ rw (missing, one_runner) v
    | inr (r, found) ↦
        rw (found, one_runner)
          (record {
            runners =
                AllValues-insert Inv id _ repo.runners
                  (step-Inv (runner_env deps s repo r.agent) e
                    (AllValues-lookup Inv id r repo.runners v.runners found))
                  v.runners;
            pool = v.pool;
          })
  ]
