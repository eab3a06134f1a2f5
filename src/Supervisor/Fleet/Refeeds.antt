-- ===== src/Supervisor/Fleet/Refeeds.antt =====
-- The orchestrator's file is fed again on every write: noteOrchestrator of src/supervisor/agentSupervisor.ts.
use status_pipe.Base.{
  ℕ, String, ◌≡◌, refl, sym, ap, ◌∙◌, true, false, Option, none, some, List, [], ◌∷◌, Dict, lookup,
  if-intro, inl, inr, Option-cases, get_or, is_some, arith, All, map, ◌==◌, ==_iff, lookup-insert,
  lookup-insert_self,
}
use mathlib.Core.Path.{subst}
use status_pipe.Protocol.{LaunchAgent, OrchestratorFile, DispatchPlan}
use status_pipe.Supervisor.Runner.{starts, Event}
use status_pipe.Supervisor.Fleet.{
  AgentSupervisor, RepoSupervision, SupervisorDeps, repo_of, each_runner, set_agents,
  note_orchestrator, wake_repo, recheck_fires, one_runner, new_repo,
}
use status_pipe.Supervisor.Fleet.Operations.{
  FleetEvent, settings_change, focus, wedge_timer_fires, starts_all, stops_all, disposes,
  agents_set, orchestrator_change, wakes_repo, recheck_timer_fires, controls, ticks_all,
  runner_event, on_worker, fleet_step, fleet_run, on_repo, on_known, every_repo, stop_repo,
  stop_all, tick_repo, check_repo, worker_repo, event_of,
}
use status_pipe.Supervisor.Fleet.Replans.{Marked, note_again-Marked, note-Marked}

-- The event does not forget the pass that was acted on: nothing is disposed of, and this repository's file is fed with
-- that pass only.
abbrev pub Quiet : String → Option ℕ → FleetEvent → Type 0
Quiet root pass disposes = true ≡ false
Quiet root pass (orchestrator_change r none) = true ≡ true
Quiet root pass (orchestrator_change r (some file)) = r ≡ root → file.pass_count ≡ pass
Quiet root pass _ = true ≡ true

lookup-map :
    (root : String) (f : RepoSupervision → RepoSupervision) (d : Dict RepoSupervision)
    → lookup root (map (λ e. (e.0, f e.1)) d)
      ≡ elim (lookup root d) [ none ↦ none | some repo ↦ some (f repo) ]
unfolding lookup
lookup-map root f [] = refl
lookup-map root f (e ∷ d) = ground (arith, lookup-map root f d)

-- A property of the repository under this root.
module _ (P : RepoSupervision → Type 0) (root : String) where
  abbrev At : AgentSupervisor → Type 0
  At s = P (repo_of root s)

  module _ (f : RepoSupervision → RepoSupervision) where
    on_repo-At :
        (r : String) (s : AgentSupervisor)
        → At s
        → (r ≡ root → P (f (repo_of root s)))
        → At (on_repo r f s)
    on_repo-At r s p k = rw (lookup-insert r root (f (repo_of r s)) s.repos) (
        if-intro (λ o. P (get_or o new_repo)) (r == root)
          (λ h. let e = (==_iff r root).0 h in rw e (k e)) (λ _. p))

    on_known-At :
        (r : String) (s : AgentSupervisor)
        → At s
        → ((repo : RepoSupervision) → P repo → P (f repo))
        → At (on_known r f s)
    on_known-At r s p k = elim (Option-cases (lookup r s.repos)) [
      | inl missing ↦ rw (missing, on_known) p
      | inr (repo, found) ↦
          rw (found, on_known) (rw found at (on_repo-At r s p (λ e. k (repo_of root s) p)))
    ]

    every_repo-At :
        (s : AgentSupervisor)
        → At s
        → ((repo : RepoSupervision) → P repo → P (f repo))
        → At (every_repo f s)
    every_repo-At s p k =
        rw (lookup-map root f s.repos) (elim (Option-cases (lookup root s.repos)) [
          | inl missing ↦ rw missing (rw missing at p)
          | inr (repo, found) ↦ rw found (k repo (rw found at p))
        ])

module _ (pass : Option ℕ) (root : String) (deps : SupervisorDeps) where
  abbrev MarkedAt : AgentSupervisor → Type 0
  MarkedAt s = At (Marked pass) root s

  -- The operations of a repository that leave the mark alone.
  abbrev Leaves : (RepoSupervision → RepoSupervision) → Type 0
  Leaves f = (repo : RepoSupervision) → Marked pass repo → Marked pass (f repo)

  module _ (s : AgentSupervisor) where
    set_agents-Leaves :
        (r : String) (agents : List LaunchAgent) → Leaves (set_agents deps s r agents)
    unfolding set_agents
    set_agents-Leaves r agents repo m =
        if-intro (Marked pass) s.settings.enabled (λ _. record { any = m.any; last = m.last })
          (λ _. record { any = m.any; last = m.last })

    wake_repo-Leaves : Leaves (wake_repo deps s)
    unfolding wake_repo
    wake_repo-Leaves repo m = record { any = m.any; last = m.last }

    recheck_fires-Leaves : Leaves (recheck_fires deps s)
    unfolding wake_repo
    recheck_fires-Leaves repo m =
        if-intro (Marked pass) (is_some repo.recheck) (λ _. record { any = m.any; last = m.last })
          (λ _. m)

    one_runner-Leaves : (id : String) (e : Event) → Leaves (one_runner deps s id e)
    unfolding one_runner
    one_runner-Leaves id e repo m = elim (Option-cases (lookup id repo.runners)) [
      | inl missing ↦ rw (missing, one_runner) m
      | inr (r, found) ↦ rw (found, one_runner) (record { any = m.any; last = m.last })
    ]

    note-Leaves :
        (file : OrchestratorFile)
        → file.pass_count ≡ pass
        → Leaves (note_orchestrator deps s (some file))
    note-Leaves file same repo m =
        let own : Marked file.pass_count repo = record { any = m.any; last = m.last ∙ sym same } in
        let after = (note_again-Marked deps s file repo own).0 in
        record { any = after.any; last = after.last ∙ same }

    note_none-Leaves : Leaves (note_orchestrator deps s none)
    unfolding note_orchestrator
    note_none-Leaves repo m = record { any = m.any; last = m.last }

  stop_all-MarkedAt : (s : AgentSupervisor) → MarkedAt s → MarkedAt (stop_all deps s)
  stop_all-MarkedAt s m =
      every_repo-At (Marked pass) root (stop_repo deps s) s m
        (λ repo k. record { any = k.any; last = k.last })

  fleet_step-MarkedAt :
      (e : FleetEvent) (s : AgentSupervisor)
      → Quiet root pass e
      → MarkedAt s
      → MarkedAt (fleet_step deps e s)
  unfolding fleet_step
  fleet_step-MarkedAt (settings_change settings) s q m =
      if-intro MarkedAt settings.enabled (λ _. m)
        (λ _. stop_all-MarkedAt (record s { settings = settings }) m)
  fleet_step-MarkedAt focus s q m = m
  fleet_step-MarkedAt wedge_timer_fires s q m =
      if-intro MarkedAt (is_some s.wedge_timer)
        (λ _.
          every_repo-At (Marked pass) root (check_repo deps s) s m
            (λ repo k. record { any = k.any; last = k.last }))
        (λ _. m)
  fleet_step-MarkedAt starts_all s q m =
      every_repo-At (Marked pass) root (each_runner deps s starts) s m
        (λ repo k. record { any = k.any; last = k.last })
  fleet_step-MarkedAt stops_all s q m = stop_all-MarkedAt s m
  fleet_step-MarkedAt disposes s q m = absurd (cc q)
  fleet_step-MarkedAt (agents_set r agents) s q m =
      on_repo-At (Marked pass) root (set_agents deps s r agents) r s m
        (λ _. set_agents-Leaves s r agents _ m)
  fleet_step-MarkedAt (orchestrator_change r none) s q m =
      on_repo-At (Marked pass) root (note_orchestrator deps s none) r s m
        (λ _. note_none-Leaves s _ m)
  fleet_step-MarkedAt (orchestrator_change r (some file)) s q m =
      on_repo-At (Marked pass) root (note_orchestrator deps s (some file)) r s m
        (λ e. note-Leaves s file (q e) _ m)
  fleet_step-MarkedAt (wakes_repo r) s q m =
      on_repo-At (Marked pass) root (wake_repo deps s) r s m (λ _. wake_repo-Leaves s _ m)
  fleet_step-MarkedAt (recheck_timer_fires r) s q m =
      on_known-At (Marked pass) root (recheck_fires deps s) r s m (recheck_fires-Leaves s)
  fleet_step-MarkedAt (controls r id action) s q m =
      on_known-At (Marked pass) root (one_runner deps s id (event_of action)) r s m
        (one_runner-Leaves s id (event_of action))
  fleet_step-MarkedAt (ticks_all wanted) s q m =
      every_repo-At (Marked pass) root (tick_repo deps s wanted) s m
        (λ repo k. record { any = k.any; last = k.last })
  fleet_step-MarkedAt (runner_event r id e) s q m =
      on_known-At (Marked pass) root (one_runner deps s id e) r s m (one_runner-Leaves s id e)
  fleet_step-MarkedAt (on_worker r e n) s q m =
      on_known-At (Marked pass) root (worker_repo deps e n) r s m
        (λ repo k. record { any = k.any; last = k.last })

abbrev pub QuietRun : String → Option ℕ → List (SupervisorDeps × FleetEvent) → Type 0
QuietRun root pass es = All (λ e. Quiet root pass e.1) es

fleet_run-MarkedAt :
    (pass : Option ℕ) (root : String) (es : List (SupervisorDeps × FleetEvent))
    (s : AgentSupervisor)
    → QuietRun root pass es
    → At (Marked pass) root s
    → At (Marked pass) root (fleet_run es s)
unfolding fleet_run
fleet_run-MarkedAt pass root [] s q m = m
fleet_run-MarkedAt pass root ((deps, e) ∷ es) s q m =
    fleet_run-MarkedAt pass root es (fleet_step deps e s) q.1
      (fleet_step-MarkedAt pass root deps e s q.0 m)

repo_of-on_repo :
    (root : String) (f : RepoSupervision → RepoSupervision) (s : AgentSupervisor)
    → repo_of root (on_repo root f s) ≡ f (repo_of root s)
repo_of-on_repo root f s = rw (lookup-insert_self root (f (repo_of root s)) s.repos)

-- Once a plan was fed to an enabled fleet with a worker template, feeding that pass again leaves the worker pool as it
-- is, whatever happened between, exits of its workers included: it spawns nothing again. Between the two, nothing was
-- disposed of and no other pass of that repository was fed.
pub refeed-spawns_nothing :
    (root : String) (file again : OrchestratorFile) (plan : DispatchPlan) (template : LaunchAgent)
    (deps later : SupervisorDeps) (s : AgentSupervisor) (es : List (SupervisorDeps × FleetEvent))
    → s.settings.enabled ≡ true
    → (repo_of root s).worker_template ≡ some template
    → file.dispatch ≡ some plan
    → again.pass_count ≡ file.pass_count
    → QuietRun root file.pass_count es
    → let between = fleet_run es (fleet_step deps (orchestrator_change root (some file)) s) in
      (repo_of root (fleet_step later (orchestrator_change root (some again)) between)).pool
      ≡ (repo_of root between).pool
unfolding fleet_step
refeed-spawns_nothing root file again plan template deps later s es enabled found planned same
      quiet =
    let fed = on_repo root (note_orchestrator deps s (some file)) s in
    let between = fleet_run es fed in
    let here = repo_of-on_repo root (note_orchestrator deps s (some file)) s in
    let marked =
      subst (Marked file.pass_count) (sym here)
        (note-Marked deps s file plan planned enabled template (repo_of root s) found) in
    let m = fleet_run-MarkedAt file.pass_count root es fed quiet marked in
    ap (λ r. r.pool) (repo_of-on_repo root (note_orchestrator later between (some again)) between)
    ∙ (note_again-Marked later between again (repo_of root between)
        (record { any = m.any; last = m.last ∙ sym same })).1
