-- ===== src/Host/Controller/Pushing.antt =====
-- The display state and its push: buildState and push of src/host/controller.ts.
use status_pipe.Base.{ℕ, String, Option, none, some, List, map_some, ◌^^◌}
use status_pipe.Forge.Enricher.Repos.{get_enrichment}
use status_pipe.Queue.{RepoState}
use status_pipe.Queue.Model.{DisplayState, build_display_state}
use status_pipe.Discovery.{is_worktree}
use status_pipe.Supervisor.Workers.Pool.{nth}
use status_pipe.Supervisor.Fleet.Operations.{states, worker_states}
use status_pipe.Host.Loading.{RepoProtocolState}
use status_pipe.Host.RecentAcks.{known_acks}
use status_pipe.Host.Notifications.{Toast, compute_toasts}
use status_pipe.Host.Controller.{
  Setup, Instant, now_of, ForgeConnection, ManagedRepo, Controller, root_of,
}

module _ (x : Setup) (i : Instant) where
  abbrev forge_id_of : Option ForgeConnection → Option String
  forge_id_of none = none
  forge_id_of (some f) = some f.forge_id

  abbrev issues_url : Option ForgeConnection → Option String
  issues_url none = none
  issues_url (some f) = some (f.base_url ^^ "/" ^^ f.slug ^^ "/issues")

  abbrev pub repo_state : Controller → ManagedRepo → RepoProtocolState → RepoState
  repo_state c repo state = record {
    repo_root = root_of repo;
    name = x.basename (root_of repo);
    forge_id = forge_id_of repo.connection;
    capabilities = elim repo.connection [ none ↦ none | some f ↦ some f.capabilities ];
    monitor_only = is_worktree repo.context.role;
    issues_url = issues_url repo.connection;
    orchestrator = state.orchestrator;
    config = state.config;
    launch = state.launch;
    tickets = state.tickets;
    acks = known_acks (root_of repo) state.acks_on_disk c.acks;
    enrichment = get_enrichment (root_of repo) c.enricher;
  }

  -- A repository that has not been read yet is not shown.
  abbrev shown_repo : Controller → String × ℕ → Option RepoState
  shown_repo c e = elim (nth e.1 c.objects) [
    | none ↦ none
    | some repo ↦ elim repo.state [ none ↦ none | some state ↦ some (repo_state c repo state) ]
  ]

  unfoldable pub build_state : Controller → DisplayState
  build_state c = build_display_state x.os (record {
    repos = map_some (shown_repo c) c.repos;
    agents = states i.deps c.supervisor;
    workers = worker_states c.supervisor;
    now = now_of i;
    settings = i.queue_settings;
  })

  -- The toasts are those of the change since the last push.
  unfoldable pub push : Controller → List Toast × Controller
  unfolding build_state
  push c =
      let state = build_state c in
      (compute_toasts c.last_state state i.toast_settings, record c { last_state = some state })
