-- ===== src/Supervisor/Fleet/Replans.antt =====
-- A dispatch plan that is fed again: maybeReconcileDispatch of src/supervisor/agentSupervisor.ts.
use status_pipe.Base.{ℕ, ◌≡◌, refl, ap, ◌∙◌, true, Option, none, some, if-intro, is_some, arith}
use status_pipe.Protocol.{LaunchAgent, OrchestratorFile, DispatchPlan}
use status_pipe.Supervisor.Runner.{parks}
use status_pipe.Supervisor.Fleet.{
  AgentSupervisor, RepoSupervision, SupervisorDeps, each_runner, reconcile_workers, reconcile_once,
  maybe_reconcile_dispatch, is_reconciled, same_pass, note_orchestrator, park_daemons,
  note_last_pass_finished,
}

-- The plan of this pass has been acted on.
pub record Marked (pass : Option ℕ) (repo : RepoSupervision) : Type 0 where
  pub any : repo.reconciled_any ≡ true
  pub last : repo.reconciled_dispatch_pass ≡ pass

same_pass_refl :
    (deps : SupervisorDeps) (s : AgentSupervisor) (a : Option ℕ) → same_pass deps s a a ≡ true
same_pass_refl deps s none = refl
same_pass_refl deps s (some n) = ground arith

same_pass_eq :
    (deps : SupervisorDeps) (s : AgentSupervisor) (a b : Option ℕ)
    → same_pass deps s a b ≡ true
    → b ≡ a
same_pass_eq deps s none none h = refl
same_pass_eq deps s none (some n) h = absurd (cc h)
same_pass_eq deps s (some m) none h = absurd (cc h)
same_pass_eq deps s (some m) (some n) h = ap (λ k. some k) (ground arith)

module _ (deps : SupervisorDeps) (s : AgentSupervisor) (file : OrchestratorFile) where
  -- A file of that pass changes nothing.
  maybe_reconcile-inert :
      (repo : RepoSupervision)
      → Marked file.pass_count repo
      → maybe_reconcile_dispatch deps s file repo ≡ repo
  unfolding maybe_reconcile_dispatch reconcile_once reconcile_workers
  maybe_reconcile-inert repo m =
      ground (arith, m.any, m.last, same_pass_refl deps s file.pass_count)

  -- What stands before the plan is read.
  abbrev before : RepoSupervision → RepoSupervision
  before repo = park_daemons deps s (
      note_last_pass_finished deps s file.last_pass_finished_at
        (record repo { parked = file.parked }))

  before_if {ℓ} :
      (P : RepoSupervision → Type ℓ)
      → ((r : RepoSupervision) → P r → P (each_runner deps s parks r))
      → (repo : RepoSupervision)
      → P (
          note_last_pass_finished deps s file.last_pass_finished_at
            (record repo { parked = file.parked }))
      → P (before repo)
  before_if P k repo p = if-intro P (is_some file.parked) (λ _. k _ p) (λ _. p)

  pub note_again-Marked :
      (repo : RepoSupervision)
      → Marked file.pass_count repo
      → Marked file.pass_count (note_orchestrator deps s (some file) repo)
        × ((note_orchestrator deps s (some file) repo).pool ≡ repo.pool)
  unfolding note_orchestrator
  note_again-Marked repo m =
      let kept : Marked file.pass_count (before repo) =
        before_if (Marked file.pass_count) (λ r k. record { any = k.any; last = k.last }) repo
          (record { any = m.any; last = m.last }) in
      let pool : (before repo).pool ≡ repo.pool =
        before_if (λ r. r.pool ≡ repo.pool) (λ r e. e) repo refl in
      let same = maybe_reconcile-inert (before repo) kept in
      (
        record {
          any = ap (λ r. r.reconciled_any) same ∙ kept.any;
          last = ap (λ r. r.reconciled_dispatch_pass) same ∙ kept.last;
        },
        ap (λ r. r.pool) same ∙ pool,
      )

  reconcile_once-Marked :
      (plan : DispatchPlan) (repo : RepoSupervision)
      → Marked file.pass_count (reconcile_once deps s file plan repo)
  unfolding reconcile_once reconcile_workers
  reconcile_once-Marked plan repo =
      if-intro (Marked file.pass_count) (is_reconciled deps s file repo)
        (λ h. record {
          any = ground (arith, h);
          last =
              same_pass_eq deps s file.pass_count repo.reconciled_dispatch_pass (ground (arith, h));
        })
        (λ _. record { any = ground arith; last = ground arith })

  module _ (plan : DispatchPlan) (planned : file.dispatch ≡ some plan)
      (enabled : s.settings.enabled ≡ true) where
    maybe_reconcile-Marked :
        (template : LaunchAgent) (repo : RepoSupervision)
        → repo.worker_template ≡ some template
        → Marked file.pass_count (maybe_reconcile_dispatch deps s file repo)
    unfolding maybe_reconcile_dispatch
    maybe_reconcile-Marked template repo found =
        rw (planned, enabled, found, maybe_reconcile_dispatch) (reconcile_once-Marked plan repo)

    pub note-Marked :
        (template : LaunchAgent) (repo : RepoSupervision)
        → repo.worker_template ≡ some template
        → Marked file.pass_count (note_orchestrator deps s (some file) repo)
    unfolding note_orchestrator
    note-Marked template repo found =
        let there : (before repo).worker_template ≡ some template =
          before_if (λ r. r.worker_template ≡ some template) (λ r e. e) repo found in
        let m = maybe_reconcile-Marked template (before repo) there in
        record { any = m.any; last = m.last }
