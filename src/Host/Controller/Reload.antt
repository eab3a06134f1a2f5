-- ===== src/Host/Controller/Reload.antt =====
-- The reload of a repository: reloadRepo of src/host/controller.ts and what it feeds. Between two awaits other events may
-- come, so each part reads the object as it is then. The sweep of the inbox directories is left out.
use status_pipe.Base.{
  ℕ, String, Bool, true, false, not, Option, none, some, List, [], ◌∷◌, map, flat_map, keep, any,
  if◌then◌else◌, ◌==◌, is_some, has_text,
}
use status_pipe.Protocol.{LaunchAgent, TicketFile, ConfigFile, PrState}
use status_pipe.Forge.Enricher.{repository_set, tracked_set, tickets_changed}
use status_pipe.Discovery.{is_worktree}
use status_pipe.Supervisor.Templates.{resolve_agent_cwd}
use status_pipe.Supervisor.TrustGate.Approvals.{is_approved}
use status_pipe.Supervisor.Fleet.Operations.{agents_set, orchestrator_change, wakes_repo, ticks_all}
use status_pipe.Host.Loading.{
  RepoProtocolState, ProtocolFiles, changed_pr_numbers, load_repo_protocol,
}
use status_pipe.Host.Controller.{
  Setup, Instant, now_of, ForgeConnection, ManagedRepo, Controller, root_of, good_tickets,
  supervise, enrich, push_soon, put_object, at_object,
}

abbrev pub launch_agents : ManagedRepo → List LaunchAgent
launch_agents repo = elim repo.state [
  | none ↦ []
  | some state ↦ elim state.launch [ none ↦ [] | some launch ↦ launch.agents ]
]

abbrev pub resolved_agent : Setup → String → LaunchAgent → LaunchAgent
resolved_agent x root a = record a { cwd = resolve_agent_cwd x.is_absolute x.resolve root a }

module _ (x : Setup) (i : Instant) where
  -- `install` of the approved entries.
  abbrev pub install : String → List LaunchAgent → Controller → Controller
  install root agents c = supervise i.deps (agents_set root (map (resolved_agent x root) agents)) c

  abbrev pub approved_now : Controller → List LaunchAgent → List LaunchAgent
  approved_now c agents = keep (is_approved x.digest c.approvals.decided) agents

  abbrev pub autostart : String → List LaunchAgent → Controller → Controller
  autostart root [] c = c
  autostart root (a ∷ as_) c =
      if i.auto_start then supervise i.deps (ticks_all (some root)) c else c

  unfoldable pub install_approved : ManagedRepo → Controller → Controller
  install_approved repo c =
      let approved = approved_now c (launch_agents repo) in
      autostart (root_of repo) approved (install (root_of repo) approved c)

  abbrev pub pr_states : RepoProtocolState → List (ℕ × PrState)
  pr_states state =
      flat_map {B = ℕ × PrState}
        (λ (t : TicketFile). map {B = ℕ × PrState} (λ pr. (pr.number, pr.state)) t.prs)
        (good_tickets state)

  abbrev pub note_changed : String → List ℕ → Controller → Controller
  note_changed root [] c = c
  note_changed root (n ∷ ns) c = enrich root (now_of i) (tickets_changed (n ∷ ns)) c

  abbrev pub feed_enricher :
      Option RepoProtocolState → RepoProtocolState → ManagedRepo → Controller → Controller
  feed_enricher prev state repo c =
      note_changed (root_of repo) (changed_pr_numbers prev state)
        (enrich (root_of repo) (now_of i) (tracked_set (pr_states state)) c)

  abbrev pub same_raw : Option String → Option String → Bool
  same_raw none none = true
  same_raw (some s) (some t) = s == t
  same_raw _ _ = false

  -- The entries are installed before the plan is fed.
  unfoldable pub feed_supervisor : ℕ → RepoProtocolState → ManagedRepo → Controller → Controller
  unfolding install_approved
  feed_supervisor n state repo c =
      let installed =
        install_approved repo
          (put_object n (record repo { installed_launch_raw = state.launch_raw }) c) in
      if is_worktree repo.context.role
      then c
      else supervise i.deps (orchestrator_change (root_of repo) state.orchestrator)
          (if same_raw state.launch_raw repo.installed_launch_raw then c else installed)

  abbrev pub detect_new_acks : ℕ → RepoProtocolState → ManagedRepo → Controller → Controller
  detect_new_acks n state repo c =
      let current = map (λ a. a.ack_id) state.acks_on_disk in
      let noted = put_object n (record repo { known_ack_ids = current }) c in
      if any (λ id. not (has_text id repo.known_ack_ids)) current
      then supervise i.deps (wakes_repo (root_of repo)) noted
      else noted

  abbrev epics_dir_of : Option ConfigFile → String
  epics_dir_of none = "epics"
  epics_dir_of (some config) = config.epics_dir

  abbrev pub ensure_epic_watcher : ℕ → RepoProtocolState → ManagedRepo → Controller → Controller
  ensure_epic_watcher n state repo c =
      if is_some repo.epic_watcher
      then c
      else put_object n (record repo { epic_watcher = some (epics_dir_of state.config) }) c

  -- `if (!repo.state) return`
  abbrev pub with_state :
      (RepoProtocolState → ManagedRepo → Controller → Controller)
      → ManagedRepo
      → Controller
      → Controller
  with_state f repo c = elim repo.state [ none ↦ c | some state ↦ f state repo c ]

  -- A reload after its last await. `prev` is the state before it.
  unfoldable pub feed : ℕ → Option RepoProtocolState → Controller → Controller
  unfolding feed_supervisor
  feed n prev c = push_soon (now_of i) (
      at_object n (with_state (ensure_epic_watcher n)) (
        at_object n (with_state (detect_new_acks n)) (
          at_object n (with_state (feed_supervisor n))
            (at_object n (with_state (feed_enricher prev)) c))))

  -- The timer fires, where armed: `reloadRepo` up to its first await.
  abbrev pub reload_fires : ℕ → ManagedRepo → Controller → Controller
  reload_fires n repo c = put_object n (record repo { reload_timer = none }) c

  -- The directory has been read. The first time, the forge is connected to.
  unfoldable pub reload_loaded :
      ℕ → Option RepoProtocolState → ProtocolFiles → ManagedRepo → Controller → Controller
  unfolding feed
  reload_loaded n prev files repo c =
      let read = record repo { state = some (load_repo_protocol x.js x.os files) } in
      if repo.connection_tried
      then feed n prev (put_object n read c)
      else put_object n (record read { connection_tried = true }) c

  -- `connectRepo` has returned.
  unfoldable pub reload_connected :
      ℕ → Option RepoProtocolState → Option ForgeConnection → ManagedRepo → Controller → Controller
  unfolding feed
  reload_connected n prev connection repo c = feed n prev (
      enrich (root_of repo) (now_of i) (repository_set (is_some connection))
        (put_object n (record repo { connection = connection }) c))
