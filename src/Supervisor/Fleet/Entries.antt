-- ===== src/Supervisor/Fleet/Entries.antt =====
-- Which launch entries the fleet acts for: those that were set, whatever happens. src/supervisor/agentSupervisor.ts.
use status_pipe.Base.{
  String, Bool, true, Option, none, some, List, [], ◌∷◌, Dict, lookup, find, inl, inr, Option-cases,
  All, All-impl, AllValues, AllValues-insert, AllValues-lookup, AllValues-map, if-intro, ◌==◌,
  is_some, subst, sym,
}
use status_pipe.Protocol.{LaunchAgent, OrchestratorFile, DispatchPlan, worker_id}
use status_pipe.Supervisor.Runner.{
  Runner, Event, starts, stops, ticks_now, wedge_check, parks, wakes,
}
use status_pipe.Supervisor.Runner.Agent.{step-agent}
use status_pipe.Supervisor.Fleet.{
  AgentSupervisor, RepoSupervision, SupervisorDeps, repo_of, runner_env, runner_step, each_runner,
  built, set_agents, reconcile_workers, reconcile_once, maybe_reconcile_dispatch, is_reconciled,
  wake_repo, one_runner, park_daemons, note_orchestrator, recheck_fires, note_last_pass_finished,
  parked_in, finished_in, reconcile_file,
}
use status_pipe.Supervisor.Fleet.Operations.{
  FleetEvent, settings_change, focus, wedge_timer_fires, starts_all, stops_all, disposes,
  agents_set, orchestrator_change, wakes_repo, recheck_timer_fires, controls, ticks_all,
  runner_event, on_worker, fleet_step, on_repo, stop_all, stop_repo, tick_repo, tick_runner,
  root_matches, check_repo, worker_repo, event_of,
}
use status_pipe.Supervisor.Fleet.Everywhere.{
  Keeps, repo_of-Everywhere, on_repo-Everywhere, on_known-Everywhere, every_repo-Everywhere,
}

module _ {ℓ} (P : LaunchAgent → Type ℓ) where
  -- Of a template, if there is one.
  abbrev pub OfTemplate : Option LaunchAgent → Type ℓ
  OfTemplate none = Unit {ℓ}
  OfTemplate (some a) = P a

  abbrev pub OfRunner : Runner → Type ℓ
  OfRunner r = P r.agent

  abbrev pub RepoEntries : RepoSupervision → Type ℓ
  RepoEntries repo = AllValues OfRunner repo.runners × OfTemplate repo.worker_template

  -- Every runner and every worker template of the fleet is of such an entry.
  abbrev pub FleetEntries : AgentSupervisor → Type ℓ
  FleetEntries s = AllValues RepoEntries s.repos

  -- The entries that an event brings in are such.
  abbrev pub Brings : FleetEvent → Type ℓ
  Brings (agents_set root agents) = All P agents
  Brings _ = Unit {ℓ}

  find-P :
      (p : LaunchAgent → Bool) (agents : List LaunchAgent)
      → All P agents
      → OfTemplate (find p agents)
  find-P p [] h = tt
  find-P p (a ∷ as_) h = if-intro OfTemplate (p a) (λ _. h.0) (λ _. find-P p as_ h.1)

  module _ (deps : SupervisorDeps) (s : AgentSupervisor) where
    runner_step-OfRunner :
        (repo : RepoSupervision) (e : Event) (r : Runner)
        → OfRunner r
        → OfRunner (runner_step deps s repo e r)
    runner_step-OfRunner repo e r h =
        subst P (sym (step-agent (runner_env deps s repo r.agent) e r)) h

    built-OfRunner :
        (root : String) (agents : List LaunchAgent) (runners : Dict Runner)
        → All P agents
        → AllValues OfRunner runners
        → AllValues OfRunner (built deps s root agents runners)
    built-OfRunner root [] runners h k = k
    built-OfRunner root (a ∷ as_) runners h k = built-OfRunner root as_ _ h.1 (
        if-intro (AllValues OfRunner) (a.id == worker_id) (λ _. k)
          (λ _. AllValues-insert OfRunner a.id _ runners h.0 k))

    set_agents-Entries :
        (root : String) (agents : List LaunchAgent) (repo : RepoSupervision)
        → All P agents
        → RepoEntries (set_agents deps s root agents repo)
    unfolding set_agents
    set_agents-Entries root agents repo h =
        if-intro RepoEntries s.settings.enabled
          (λ _. (built-OfRunner root agents [] h tt, find-P _ agents h))
          (λ _. (tt, find-P _ agents h))

    each_runner-Entries :
        (e : Event) (repo : RepoSupervision)
        → RepoEntries repo
        → RepoEntries (each_runner deps s e repo)
    each_runner-Entries e repo h = (
      AllValues-map OfRunner (runner_step deps s repo e) (runner_step-OfRunner repo e) repo.runners
          h.0,
      h.1,
    )

    one_runner-Entries :
        (id : String) (e : Event) (repo : RepoSupervision)
        → RepoEntries repo
        → RepoEntries (one_runner deps s id e repo)
    unfolding one_runner
    one_runner-Entries id e repo h = elim (Option-cases (lookup id repo.runners)) [
      | inl missing ↦ rw (missing, one_runner) h
      | inr (r, found) ↦
          rw (found, one_runner)
            (
              AllValues-insert OfRunner id _ repo.runners
                  (runner_step-OfRunner repo e r
                    (AllValues-lookup OfRunner id r repo.runners h.0 found))
                  h.0,
              h.1,
            )
    ]

    reconcile_workers-Keeps :
        (plan : DispatchPlan) → Keeps RepoEntries (reconcile_workers deps s plan)
    unfolding reconcile_workers
    reconcile_workers-Keeps plan repo h =
        if-intro RepoEntries s.settings.enabled
          (λ _. elim (Option-cases repo.worker_template) [ inl e ↦ rw e h | inr (t, e) ↦ rw e h ])
          (λ _. h)

    reconcile_once-Keeps :
        (file : OrchestratorFile) (plan : DispatchPlan)
        → Keeps RepoEntries (reconcile_once deps s file plan)
    unfolding reconcile_once
    reconcile_once-Keeps file plan repo h =
        if-intro RepoEntries (is_reconciled deps s file repo) (λ _. h)
          (λ _.
            reconcile_workers-Keeps plan
              (record repo { reconciled_any = true; reconciled_dispatch_pass = file.pass_count }) h)

    maybe_reconcile-Keeps :
        (file : OrchestratorFile) → Keeps RepoEntries (maybe_reconcile_dispatch deps s file)
    unfolding maybe_reconcile_dispatch
    maybe_reconcile-Keeps file repo h = elim (Option-cases file.dispatch) [
      | inl e ↦ rw (e, maybe_reconcile_dispatch) h
      | inr (plan, e) ↦
          rw (e, maybe_reconcile_dispatch)
            (if-intro RepoEntries s.settings.enabled
              (λ _. elim (Option-cases repo.worker_template) [
                | inl none_yet ↦ rw none_yet (reconcile_workers-Keeps plan repo h)
                | inr (t, found) ↦ rw found (reconcile_once-Keeps file plan repo h)
              ])
              (λ _. h))
    ]

    reconcile_file-Keeps :
        (file : Option OrchestratorFile) → Keeps RepoEntries (reconcile_file deps s file)
    reconcile_file-Keeps none repo h = h
    reconcile_file-Keeps (some file) repo h = maybe_reconcile-Keeps file repo h

    park_daemons-Keeps : Keeps RepoEntries (park_daemons deps s)
    park_daemons-Keeps repo h =
        if-intro RepoEntries (is_some repo.parked) (λ _. each_runner-Entries parks repo h) (λ _. h)

    note_orchestrator-Keeps :
        (file : Option OrchestratorFile) → Keeps RepoEntries (note_orchestrator deps s file)
    unfolding note_orchestrator
    note_orchestrator-Keeps file repo h = reconcile_file-Keeps file _ (
        park_daemons-Keeps
          (note_last_pass_finished deps s (finished_in deps s file)
            (record repo { parked = parked_in deps s file }))
          h)

    wake_repo-Keeps : Keeps RepoEntries (wake_repo deps s)
    unfolding wake_repo
    wake_repo-Keeps repo h = each_runner-Entries wakes (record repo { parked = none }) h

    recheck_fires-Keeps : Keeps RepoEntries (recheck_fires deps s)
    recheck_fires-Keeps repo h =
        if-intro RepoEntries (is_some repo.recheck)
          (λ _. wake_repo-Keeps (record repo { recheck = none }) h) (λ _. h)

    stop_repo-Keeps : Keeps RepoEntries (stop_repo deps s)
    stop_repo-Keeps repo h = each_runner-Entries stops repo h

    tick_repo-Keeps : (wanted : Option String) → Keeps RepoEntries (tick_repo deps s wanted)
    tick_repo-Keeps wanted repo h = (
      AllValues-map OfRunner (tick_runner deps s wanted repo)
          (λ r k.
            if-intro OfRunner (root_matches wanted r.repo_root)
              (λ _. runner_step-OfRunner repo ticks_now r k) (λ _. k))
          repo.runners h.0,
      h.1,
    )

    check_repo-Keeps : Keeps RepoEntries (check_repo deps s)
    check_repo-Keeps repo h = each_runner-Entries (wedge_check repo.last_pass_finished_at) repo h

  module _ (deps : SupervisorDeps) where
    on_repo-Entries :
        (f : RepoSupervision → RepoSupervision)
        → Keeps RepoEntries f
        → (root : String) (s : AgentSupervisor) → FleetEntries s
        → FleetEntries (on_repo root f s)
    on_repo-Entries f keeps root s v =
        on_repo-Everywhere RepoEntries f root s
          (keeps _ (repo_of-Everywhere RepoEntries (tt, tt) root s v)) v

    stop_all-Entries : (s : AgentSupervisor) → FleetEntries s → FleetEntries (stop_all deps s)
    stop_all-Entries s v =
        every_repo-Everywhere RepoEntries (stop_repo deps s) (stop_repo-Keeps deps s) s v

    -- An event keeps the fleet to such entries, if those that it brings in are.
    pub fleet_step-Entries :
        (e : FleetEvent) (s : AgentSupervisor)
        → Brings e
        → FleetEntries s
        → FleetEntries (fleet_step deps e s)
    unfolding fleet_step
    fleet_step-Entries (settings_change settings) s b v =
        if-intro FleetEntries settings.enabled (λ _. v)
          (λ _. stop_all-Entries (record s { settings = settings }) v)
    fleet_step-Entries focus s b v = v
    fleet_step-Entries wedge_timer_fires s b v =
        if-intro FleetEntries (is_some s.wedge_timer)
          (λ _. every_repo-Everywhere RepoEntries (check_repo deps s) (check_repo-Keeps deps s) s v)
          (λ _. v)
    fleet_step-Entries starts_all s b v =
        every_repo-Everywhere RepoEntries (each_runner deps s starts)
          (each_runner-Entries deps s starts) s v
    fleet_step-Entries stops_all s b v = stop_all-Entries s v
    fleet_step-Entries disposes s b v = tt
    fleet_step-Entries (agents_set root agents) s b v =
        on_repo-Everywhere RepoEntries (set_agents deps s root agents) root s
          (set_agents-Entries deps s root agents (repo_of root s) b) v
    fleet_step-Entries (orchestrator_change root file) s b v =
        on_repo-Entries (note_orchestrator deps s file) (note_orchestrator-Keeps deps s file) root s
          v
    fleet_step-Entries (wakes_repo root) s b v =
        on_repo-Entries (wake_repo deps s) (wake_repo-Keeps deps s) root s v
    fleet_step-Entries (recheck_timer_fires root) s b v =
        on_known-Everywhere RepoEntries (recheck_fires deps s) (recheck_fires-Keeps deps s) root s v
    fleet_step-Entries (controls root id action) s b v =
        on_known-Everywhere RepoEntries (one_runner deps s id (event_of action))
          (one_runner-Entries deps s id (event_of action)) root s v
    fleet_step-Entries (ticks_all wanted) s b v =
        every_repo-Everywhere RepoEntries (tick_repo deps s wanted) (tick_repo-Keeps deps s wanted)
          s v
    fleet_step-Entries (runner_event root id e) s b v =
        on_known-Everywhere RepoEntries (one_runner deps s id e) (one_runner-Entries deps s id e)
          root s v
    fleet_step-Entries (on_worker root e n) s b v =
        on_known-Everywhere RepoEntries (worker_repo deps e n) (λ repo h. h) root s v

-- What holds of every entry for a reason holds for a weaker one.
pub FleetEntries-weaken {ℓ κ} :
    (P : LaunchAgent → Type ℓ) (Q : LaunchAgent → Type κ)
    → ((a : LaunchAgent) → P a → Q a)
    → (s : AgentSupervisor) → FleetEntries P s
    → FleetEntries Q s
FleetEntries-weaken P Q f s v =
    All-impl (λ e. RepoEntries P e.1) (λ e. RepoEntries Q e.1)
      (λ e h. (
        All-impl (λ r. P r.1.agent) (λ r. Q r.1.agent) (λ r. f r.1.agent) e.1.runners h.0,
        template e.1.worker_template h.1,
      ))
      s.repos v
  where
    template : (t : Option LaunchAgent) → OfTemplate P t → OfTemplate Q t
    template none h = tt
    template (some a) h = f a h
