-- ===== src/Host/Controller/Approved.antt =====
-- The controller runs nothing that was not approved: src/host/controller.ts.
use status_pipe.Base.{
  ℕ, String, ◌≡◌, refl, true, none, some, List, [], ◌∷◌, Dict, inl, inr, Option-cases, if-intro,
  All, All-impl, All-map, All-keep_test, is_some, has_text, has, map,
}
use status_pipe.Protocol.{LaunchAgent}
use status_pipe.Discovery.{RepoContext}
use status_pipe.Supervisor.TrustGate.{launch_entry_hash}
use status_pipe.Supervisor.TrustGate.Approvals.{Approvals, is_approved}
use status_pipe.Supervisor.Workers.Pool.{nth}
use status_pipe.Supervisor.Fleet.{AgentSupervisor, SupervisorDeps}
use status_pipe.Supervisor.Fleet.Operations.{FleetEvent, agents_set, ticks_all}
use status_pipe.Supervisor.Fleet.Entries.{FleetEntries, Brings, fleet_step-Entries}
use status_pipe.Host.Controller.{
  Setup, Instant, ManagedRepo, Controller, Flow, root_of, supervise, push_soon, put_object,
  at_object, drop_repo, drop_unseen, add_new, rediscover,
}
use status_pipe.Host.Controller.Reload.{
  resolved_agent, launch_agents, install, approved_now, autostart, install_approved,
}

module _ (x : Setup) where
  -- The operator has approved this entry at some time.
  abbrev pub WasGranted : List String → LaunchAgent → Type 0
  WasGranted granted a = has_text (launch_entry_hash x.digest a) granted ≡ true

  -- Such an entry of a launch file, with its working directory resolved.
  abbrev pub Allowed : List String → LaunchAgent → Type 0
  Allowed granted r =
      (a : LaunchAgent) × (root : String) × WasGranted granted a × (r ≡ resolved_agent x root a)

  abbrev pub FlowGranted : List String → Flow → Type 0
  FlowGranted granted f = All (WasGranted granted) f.approved

  -- What is approved now was approved at some time.
  abbrev pub Remembers : Approvals → Type 0
  Remembers s = (a : LaunchAgent) → is_approved x.digest s.decided a ≡ true → WasGranted s.granted a

  abbrev pub Clean : Approvals → List Flow → AgentSupervisor → Type 0
  Clean s flows fleet =
      FleetEntries (Allowed s.granted) fleet × All (FlowGranted s.granted) flows × Remembers s

  -- Every runner and every worker template of the supervisor is of an entry that was approved.
  pub record OnlyApproved (c : Controller) : Type 0 where
    pub entries : Clean c.approvals c.flows c.supervisor

  abbrev pub Keeps : (Controller → Controller) → Type 0
  Keeps f = (c : Controller) → OnlyApproved c → OnlyApproved (f c)

  resolved-Allowed :
      (granted : List String) (root : String) (agents : List LaunchAgent)
      → All (WasGranted granted) agents
      → All (Allowed granted) (map (resolved_agent x root) agents)
  resolved-Allowed granted root agents h =
      All-map (Allowed granted) (resolved_agent x root) agents (
        All-impl (WasGranted granted) (λ a. Allowed granted (resolved_agent x root a))
          (λ a ok. (a, root, ok, refl)) agents h)

  module _ (deps : SupervisorDeps) where
    pub supervise-Keeps :
        (e : FleetEvent) (c : Controller)
        → Brings (Allowed c.approvals.granted) e
        → OnlyApproved c
        → OnlyApproved (supervise deps e c)
    supervise-Keeps e c b v = record {
      entries = (
        fleet_step-Entries (Allowed c.approvals.granted) deps e c.supervisor b v.entries.0,
        v.entries.1,
        v.entries.2,
      );
    }

  pub push_soon-Keeps : (now : ℕ) → Keeps (push_soon now)
  push_soon-Keeps now c v =
      if-intro OnlyApproved (is_some c.push_timer) (λ _. v) (λ _. record { entries = v.entries })

  pub at_object-Keeps :
      (n : ℕ) (f : ManagedRepo → Controller → Controller)
      → ((repo : ManagedRepo) → Keeps (f repo))
      → Keeps (at_object n f)
  at_object-Keeps n f keeps c v = elim (Option-cases (nth n c.objects)) [
    | inl e ↦ rw (e, at_object) v
    | inr (repo, e) ↦ rw (e, at_object) (keeps repo c v)
  ]

  pub drop_repo-Keeps :
      (deps : SupervisorDeps) (n : ℕ) (repo : ManagedRepo) → Keeps (drop_repo deps n repo)
  drop_repo-Keeps deps n repo c v =
      let stopped =
        supervise-Keeps deps (agents_set (root_of repo) [])
          (put_object n (record repo { epic_watcher = none; reload_timer = none }) c) tt
          (record { entries = v.entries }) in
      record { entries = stopped.entries }

  drop_unseen-Keeps :
      (deps : SupervisorDeps) (seen : List String) (rs : Dict ℕ) → Keeps (drop_unseen deps seen rs)
  unfolding drop_unseen
  drop_unseen-Keeps deps seen [] c v = v
  drop_unseen-Keeps deps seen ((root, n) ∷ rest) c v = drop_unseen-Keeps deps seen rest _ (
      if-intro OnlyApproved (has_text root seen) (λ _. v)
        (λ _. at_object-Keeps n (drop_repo deps n) (drop_repo-Keeps deps n) c v))

  add_new-Keeps : (now : ℕ) (cs : List RepoContext) → Keeps (add_new now cs)
  unfolding add_new
  add_new-Keeps now [] c v = v
  add_new-Keeps now (ctx ∷ cs) c v = add_new-Keeps now cs _ (
      if-intro OnlyApproved (has ctx.repo_root c.repos) (λ _. v)
        (λ _. record { entries = v.entries }))

  pub rediscover-Keeps :
      (deps : SupervisorDeps) (cs : List RepoContext) → Keeps (rediscover deps cs)
  unfolding rediscover
  rediscover-Keeps deps cs c v =
      push_soon-Keeps deps.host.now _
        (add_new-Keeps deps.host.now cs _ (drop_unseen-Keeps deps _ c.repos c v))

  module _ (i : Instant) where
    pub install-Keeps :
        (root : String) (agents : List LaunchAgent) (c : Controller)
        → All (WasGranted c.approvals.granted) agents
        → OnlyApproved c
        → OnlyApproved (install x i root agents c)
    install-Keeps root agents c h v =
        supervise-Keeps i.deps (agents_set root (map (resolved_agent x root) agents)) c
          (resolved-Allowed c.approvals.granted root agents h) v

    autostart-Keeps :
        (root : String) (agents : List LaunchAgent) → Keeps (autostart x i root agents)
    autostart-Keeps root [] c v = v
    autostart-Keeps root (a ∷ as_) c v =
        if-intro OnlyApproved i.auto_start
          (λ _. supervise-Keeps i.deps (ticks_all (some root)) c tt v) (λ _. v)

    pub install_approved-Keeps : (repo : ManagedRepo) → Keeps (install_approved x i repo)
    unfolding install_approved
    install_approved-Keeps repo c v =
        let approved = approved_now x i c (launch_agents repo) in
        autostart-Keeps (root_of repo) approved _ (
          install-Keeps (root_of repo) approved c
            (All-impl (λ a. is_approved x.digest c.approvals.decided a ≡ true)
              (WasGranted c.approvals.granted) v.entries.2 approved
              (All-keep_test (is_approved x.digest c.approvals.decided) (launch_agents repo)))
            v)
