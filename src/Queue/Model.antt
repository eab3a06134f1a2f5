-- ===== src/Queue/Model.antt =====
-- The display state: src/queue/queueModel.ts. The activity slot and the deep-linked activity payloads are copied
-- through by the source and left out here.
pub mod Laws
pub mod Launchers
use status_pipe.Base.{
  ℕ, ltb, length, String, Bool, true, false, Option, none, some, List, [], ◌∷◌, ◌++◌, map, ◌&&◌,
  not, if◌then◌else◌, ◌==◌, ◌^^◌, get_or, keep, find, any, flat_map, sort, compare, Ordering,
  map_some, has_text, is_some,
}
use status_pipe.Base.Platform.{Platform}
use status_pipe.Base.Order.{ℤ, pos, negate, compare_ℤ, by_codepoint, by_key, lexical}
use status_pipe.Protocol.{
  AgentLifetime, LaunchAgent, LaunchFile, OrchestratorFile, ConfigFile, ParkedState, worker_id,
}
use status_pipe.Forge.{ForgeCapabilities}
use status_pipe.Queue.{
  RepoState, AgentProcessState, WorkerProcessState, AgentRunState, QueueModelInput, Lane, needs_you,
  waiting, quiet, CardDisplay, WaitingDisplay,
}
use status_pipe.Queue.Cards.{repo_cards, launcher_card, is_waiting, is_quiet_lane}

pub record AgentDisplay : Type 0 where
  pub repo_root : String
  pub repo_name : String
  pub agent_id : String
  pub title : String
  pub lifetime : AgentLifetime
  pub interval_minutes : Option ℕ
  pub installed : Bool
  pub state : AgentRunState
  pub next_tick_at : Option ℕ
  pub running_since : Option ℕ
  pub last_output_at : Option ℕ
  pub consecutive_failures : ℕ
  pub detail : Option String

pub record RepoDisplay : Type 0 where
  pub repo_root : String
  pub name : String
  pub forge_id : Option String
  pub capabilities : Option ForgeCapabilities
  pub last_pass_finished_at : Option String
  pub parked : Option ParkedState
  pub monitor_only_note : Option String
  pub ticket_count : ℕ
  pub inventory_label : String
  pub inventory_assignees : List String
  pub issues_url : Option String

pub record WorkerProcessDisplay : Type 0 where
  pub repo_root : String
  pub repo_name : String
  pub key : String
  pub running_since : Option ℕ
  pub last_output_at : Option ℕ

pub record LaneCounts : Type 0 where
  pub needs_you : ℕ
  pub waiting : ℕ
  pub quiet : ℕ

pub record DisplayState : Type 0 where
  pub generated_at : ℕ
  pub multi_repo : Bool
  pub repos : List RepoDisplay
  pub agents : List AgentDisplay
  pub workers : List WorkerProcessDisplay
  pub cards : List CardDisplay
  pub counts : LaneCounts

abbrev pub lane_order : Lane → ℕ
lane_order needs_you = 0
lane_order waiting = 1
lane_order quiet = 2

abbrev max_safe_integer : ℕ
max_safe_integer = 9007199254740991

abbrev since_of : Option WaitingDisplay → String → String
since_of none updated_at = updated_at
since_of (some w) updated_at = w.since

unfoldable pub age_key : Platform → CardDisplay → ℤ
age_key os c = elim (os.date_parse (since_of c.waiting c.updated_at)) [
  | none ↦ pos max_safe_integer
  | some ms ↦ if is_quiet_lane c.lane then negate ms else pos ms
]

abbrev ticket_text : CardDisplay → String
ticket_text c = get_or c.ticket ""

-- The comparator of `sortCards`.
abbrev pub card_order : Platform → CardDisplay → CardDisplay → Ordering
card_order os = lexical (by_key compare (λ c. lane_order c.lane)) (
    lexical (by_key compare (λ c. c.priority_rank)) (
      lexical (by_key compare_ℤ (age_key os))
        (lexical (by_key by_codepoint (λ c. c.repo_name)) (by_key by_codepoint ticket_text))))

unfoldable pub sort_cards : Platform → List CardDisplay → List CardDisplay
sort_cards os cards = sort (card_order os) cards

abbrev pub is_needs_you : Lane → Bool
is_needs_you needs_you = true
is_needs_you waiting = false
is_needs_you quiet = false

unfoldable pub count_lanes : List CardDisplay → LaneCounts
count_lanes cards = record {
  needs_you = length (keep (λ (c : CardDisplay). is_needs_you c.lane) cards);
  waiting = length (keep (λ (c : CardDisplay). is_waiting c.lane) cards);
  quiet =
      length (keep (λ (c : CardDisplay). is_quiet_lane c.lane && not c.hidden_by_default) cards);
}

abbrev last_pass : Option OrchestratorFile → Option String
last_pass none = none
last_pass (some o) = o.last_pass_finished_at

abbrev parked_of : Option OrchestratorFile → Option ParkedState
parked_of none = none
parked_of (some o) = o.parked

abbrev label_of : Option ConfigFile → String
label_of none = "agent-queue"
label_of (some c) = c.inventory_label

abbrev assignees_of : Option ConfigFile → List String
assignees_of none = []
assignees_of (some c) = c.inventory_assignees

unfoldable pub repo_display : RepoState → RepoDisplay
repo_display repo = record {
  repo_root = repo.repo_root;
  name = repo.name;
  forge_id = repo.forge_id;
  capabilities = repo.capabilities;
  last_pass_finished_at = last_pass repo.orchestrator;
  parked = parked_of repo.orchestrator;
  monitor_only_note =
      if repo.monitor_only
      then some ("worktree of " ^^ repo.name ^^ " — supervision disabled")
      else none;
  ticket_count = length repo.tickets;
  inventory_label = label_of repo.config;
  inventory_assignees = assignees_of repo.config;
  issues_url = repo.issues_url;
}

abbrev declared_minutes : LaunchAgent → Option ℕ
declared_minutes a = elim a.lifetime [
  | AgentLifetime.scheduled ↦ some a.interval_minutes
  | AgentLifetime.daemon ↦ none
]

unfoldable pub launcher_display : RepoState → LaunchAgent → Option AgentProcessState → AgentDisplay
launcher_display repo declared none = record {
  repo_root = repo.repo_root;
  repo_name = repo.name;
  agent_id = declared.id;
  title = declared.title;
  lifetime = declared.lifetime;
  interval_minutes = declared_minutes declared;
  installed = false;
  state = AgentRunState.stopped;
  next_tick_at = none;
  running_since = none;
  last_output_at = none;
  consecutive_failures = 0;
  detail = none;
}
launcher_display repo declared (some live) = record {
  repo_root = repo.repo_root;
  repo_name = repo.name;
  agent_id = declared.id;
  title = declared.title;
  lifetime = declared.lifetime;
  interval_minutes = declared_minutes declared;
  installed = true;
  state = live.state;
  next_tick_at = live.next_tick_at;
  running_since = live.running_since;
  last_output_at = live.last_output_at;
  consecutive_failures = live.consecutive_failures;
  detail = live.detail;
}

unfoldable pub orphan_launcher : RepoState → AgentProcessState → AgentDisplay
orphan_launcher repo live = record {
  repo_root = repo.repo_root;
  repo_name = repo.name;
  agent_id = live.agent_id;
  title = live.title;
  lifetime = live.lifetime;
  interval_minutes = none;
  installed = true;
  state = live.state;
  next_tick_at = live.next_tick_at;
  running_since = live.running_since;
  last_output_at = live.last_output_at;
  consecutive_failures = live.consecutive_failures;
  detail = live.detail;
}

abbrev pub live_in : RepoState → List AgentProcessState → List AgentProcessState
live_in repo agents = keep (λ (a : AgentProcessState). a.repo_root == repo.repo_root) agents

abbrev agents_of : Option LaunchFile → List LaunchAgent
agents_of none = []
agents_of (some l) = l.agents

abbrev pub declared_in : RepoState → List LaunchAgent
declared_in repo = keep (λ (d : LaunchAgent). not (d.id == worker_id)) (agents_of repo.launch)

abbrev pub runner_of : LaunchAgent → List AgentProcessState → Option AgentProcessState
runner_of d live = find (λ (a : AgentProcessState). a.agent_id == d.id) live

abbrev pub is_orphan : List LaunchAgent → AgentProcessState → Bool
is_orphan declared a = not (has_text a.agent_id (map (λ (d : LaunchAgent). d.id) declared))

unfoldable pub repo_launchers : RepoState → List AgentProcessState → List AgentDisplay
repo_launchers repo all =
    if repo.monitor_only
    then []
    else map (λ d. launcher_display repo d (runner_of d (live_in repo all))) (declared_in repo)
      ++ map (orphan_launcher repo) (keep (is_orphan (declared_in repo)) (live_in repo all))

-- The last repository of a root names it, as in `new Map(entries)`.
abbrev last_name : String → List RepoState → Option String
last_name root [] = none
last_name root (r ∷ rs) = elim (last_name root rs) [
  | some n ↦ some n
  | none ↦ if r.repo_root == root then some r.name else none
]

abbrev worker_row : WorkerProcessState → String → WorkerProcessDisplay
worker_row w name = record {
  repo_root = w.repo_root;
  repo_name = name;
  key = w.key;
  running_since = w.running_since;
  last_output_at = w.last_output_at;
}

unfoldable pub worker_displays : QueueModelInput → List WorkerProcessDisplay
worker_displays input = map_some worker_in input.workers
  where
    worker_in : WorkerProcessState → Option WorkerProcessDisplay
    worker_in w = elim (last_name w.repo_root input.repos) [
      | none ↦ none
      | some n ↦ some (worker_row w n)
    ]

abbrev pub has_failed : AgentProcessState → Bool
has_failed a = elim a.state [ AgentRunState.failed ↦ true | _ ↦ false ]

-- The cards before they are sorted: one for each ticket file, one for each failed launcher.
abbrev pub all_cards : Platform → QueueModelInput → List CardDisplay
all_cards os input =
    flat_map (λ repo. repo_cards os repo input) input.repos
    ++ map (λ a. launcher_card os a input) (keep has_failed input.agents)

unfoldable pub build_display_state : Platform → QueueModelInput → DisplayState
build_display_state os input =
    let cards = sort_cards os (all_cards os input) in
    record {
      generated_at = input.now;
      multi_repo = ltb 1 (length input.repos);
      repos = map repo_display input.repos;
      agents = flat_map (λ repo. repo_launchers repo input.agents) input.repos;
      workers = worker_displays input;
      cards = cards;
      counts = count_lanes cards;
    }
