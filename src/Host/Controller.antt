-- ===== src/Host/Controller.antt =====
-- The controller of the extension: src/host/controller.ts. It owns the repositories, the enricher and the supervisor. A
-- managed repository is an object that its pending reload holds on to, also after it was dropped: the objects stand in
-- a list, and `repos` has the number of each that is managed. A reload is cut at its awaits. The watchers are left out but
-- for whether there is one; so are the log channels and the text that the editor shows.
pub mod Flows
pub mod Answers
pub mod Reload
pub mod Operations
pub mod Pushing
pub mod Events
pub mod Approved
pub mod Sound
use status_pipe.Base.{
  ℕ, ◌+◌, String, Bool, true, false, not, ◌&&◌, ◌||◌, Option, none, some, List, [], ◌∷◌, ◌++◌, Dict,
  insert, lookup, remove, map, map_some, flat_map, keep, keys, any, if◌then◌else◌, ◌==◌, ◌^^◌,
  is_some, get_or, has, has_text, length,
}
use status_pipe.Base.Platform.{Platform}
use status_pipe.Protocol.{LaunchAgent, LaunchFile, TicketFile, ConfigFile, PrState}
use status_pipe.Protocol.Json.{Engine}
use status_pipe.Forge.{ForgeCapabilities}
use status_pipe.Forge.Enricher.{EnricherEvent, repository_set, tracked_set, tickets_changed}
use status_pipe.Forge.Enricher.Repos.{ForgeEnricher, at_repo, get_enrichment}
use status_pipe.Queue.{RepoState, Settings, QueueModelInput}
use status_pipe.Queue.Model.{DisplayState, build_display_state}
use status_pipe.Discovery.{RepoContext, is_worktree}
use status_pipe.Supervisor.Templates.{resolve_agent_cwd}
use status_pipe.Supervisor.TrustGate.{Digest}
use status_pipe.Supervisor.TrustGate.Approvals.{Approvals, Choice, is_approved, approve_agents}
use status_pipe.Supervisor.Workers.Pool.{nth, set_nth}
use status_pipe.Supervisor.Fleet.{
  AgentSupervisor, SupervisorDeps, SupervisorSettings, new_supervisor, set_agents,
}
use status_pipe.Supervisor.Fleet.Operations.{
  FleetEvent, agents_set, orchestrator_change, wakes_repo, ticks_all, fleet_step, states,
  worker_states, Action,
}
use status_pipe.Host.Loading.{RepoProtocolState, changed_pr_numbers, parsed_of}
use status_pipe.Host.RecentAcks.{Stored, known_acks}
use status_pipe.Host.Notifications.{Toast, ToastSettings, compute_toasts}

abbrev pub reload_coalesce_ms : ℕ
reload_coalesce_ms = 250

abbrev pub push_debounce_ms : ℕ
push_debounce_ms = 100

-- What does not change while the extension runs: the platform, the digest of entries and the path functions.
pub record Setup : Type 0 where
  pub os : Platform
  pub js : Engine
  pub digest : Digest
  pub is_absolute : String → Bool
  pub resolve : String → String → String
  pub basename : String → String
  pub version : String

-- What the host supplies at one instant: the processes, the settings of the editor and the operator's answers.
pub record Instant : Type 0 where
  pub deps : SupervisorDeps
  pub trusted : Bool
  pub auto_start : Bool
  pub queue_settings : Settings
  pub toast_settings : ToastSettings

abbrev pub now_of : Instant → ℕ
now_of i = i.deps.host.now

pub record ForgeConnection : Type 0 where
  pub forge_id : String
  pub base_url : String
  pub slug : String
  pub capabilities : ForgeCapabilities
  pub has_inventory : Bool

pub record ManagedRepo : Type 0 where
  pub context : RepoContext
  pub state : Option RepoProtocolState
  pub connection : Option ForgeConnection
  pub connection_tried : Bool
  pub epic_watcher : Option String
  pub reload_timer : Option ℕ
  pub known_ack_ids : List String
  pub installed_launch_raw : Option String

-- A call of `installApprovedAgents` that asks: the entries from the one whose dialog is open on, those let through so
-- far, and what the caller does once they are installed.
pub data FollowUp : Type 0 where
  ticks : FollowUp
  acts : (id : String) (action : Action) → FollowUp

pub record Flow : Type 0 where
  pub root : String
  pub remaining : List LaunchAgent
  pub approved : List LaunchAgent
  pub follow_up : FollowUp

-- The calls stand in the order of their begin; one that has ended has nothing left.
pub record Controller : Type 0 where
  pub objects : List ManagedRepo
  pub repos : Dict ℕ
  pub enricher : ForgeEnricher
  pub supervisor : AgentSupervisor
  pub acks : Stored
  pub approvals : Approvals
  pub flows : List Flow
  pub last_state : Option DisplayState
  pub push_timer : Option ℕ

-- The constructor. The cached enrichment, the remembered acks and the decisions on entries are read from the state of the
-- workspace.
abbrev pub new_controller :
    Instant → SupervisorSettings → ForgeEnricher → Stored → Dict Bool → Controller
new_controller i settings enricher acks decided = record {
  objects = [];
  repos = [];
  enricher = enricher;
  supervisor = new_supervisor i.deps settings;
  acks = acks;
  approvals = record {
    decided = decided;
    asked = [];
    granted = keys (keep (λ (e : String × Bool). e.1) decided);
  };
  flows = [];
  last_state = none;
  push_timer = none;
}

abbrev pub root_of : ManagedRepo → String
root_of repo = repo.context.repo_root

abbrev pub good_tickets : RepoProtocolState → List TicketFile
good_tickets state = map_some parsed_of state.tickets

abbrev pub supervise : SupervisorDeps → FleetEvent → Controller → Controller
supervise deps e c = record c { supervisor = fleet_step deps e c.supervisor }

abbrev pub enrich : String → ℕ → EnricherEvent → Controller → Controller
enrich root now e c = record c { enricher = at_repo root now e c.enricher }

abbrev pub push_soon : ℕ → Controller → Controller
push_soon now c =
    if is_some c.push_timer then c else record c { push_timer = some (now + push_debounce_ms) }

abbrev pub put_object : ℕ → ManagedRepo → Controller → Controller
put_object n repo c = record c { objects = set_nth n repo c.objects }

abbrev pub schedule_reload : ℕ → ℕ → ManagedRepo → Controller → Controller
schedule_reload now n repo c =
    put_object n (record repo { reload_timer = some (now + reload_coalesce_ms) }) c

-- An operation on the object of this number.
abbrev pub at_object : ℕ → (ManagedRepo → Controller → Controller) → Controller → Controller
at_object n f c = elim (nth n c.objects) [ none ↦ c | some repo ↦ f repo c ]

-- An operation on a repository, if it is managed.
abbrev pub at_root : String → (ℕ → ManagedRepo → Controller → Controller) → Controller → Controller
at_root root f c = elim (lookup root c.repos) [ none ↦ c | some n ↦ at_object n (f n) c ]

abbrev new_managed : RepoContext → ManagedRepo
new_managed context = record {
  context = context;
  state = none;
  connection = none;
  connection_tried = false;
  epic_watcher = none;
  reload_timer = none;
  known_ack_ids = [];
  installed_launch_raw = none;
}

abbrev pub add_repo : ℕ → RepoContext → Controller → Controller
add_repo now context c = record c {
  objects =
      c.objects
      ++ record (new_managed context) { reload_timer = some (now + reload_coalesce_ms) } ∷ [];
  repos = insert context.repo_root (length c.objects) c.repos;
}

-- The object stays for a reload that is under way.
abbrev pub drop_repo : SupervisorDeps → ℕ → ManagedRepo → Controller → Controller
drop_repo deps n repo c =
    let disposed = put_object n (record repo { epic_watcher = none; reload_timer = none }) c in
    let stopped = supervise deps (agents_set (root_of repo) []) disposed in
    record stopped { repos = remove (root_of repo) stopped.repos }

unfoldable pub drop_unseen : SupervisorDeps → List String → Dict ℕ → Controller → Controller
drop_unseen deps seen [] c = c
drop_unseen deps seen ((root, n) ∷ rest) c =
    drop_unseen deps seen rest (if has_text root seen then c else at_object n (drop_repo deps n) c)

unfoldable pub add_new : ℕ → List RepoContext → Controller → Controller
add_new now [] c = c
add_new now (ctx ∷ cs) c =
    add_new now cs (if has ctx.repo_root c.repos then c else add_repo now ctx c)

-- The scan has returned.
unfoldable pub rediscover : SupervisorDeps → List RepoContext → Controller → Controller
unfolding drop_unseen add_new
rediscover deps contexts c = push_soon deps.host.now (
    add_new deps.host.now contexts
      (drop_unseen deps (map (λ (x : RepoContext). x.repo_root) contexts) c.repos c))
