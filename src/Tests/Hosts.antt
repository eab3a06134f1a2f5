-- ===== src/Tests/Hosts.antt =====
-- The host at one repository with one entry of the launch file, which the operator allows; the discovery, the toasts and
-- the process of the planner at small inputs.
use status_pipe.Base.{
  String, ◌≡◌, refl, true, false, none, some, List, [], ◌∷◌, map, find, ◌==◌, Distinct,
  if◌then◌else◌,
}
use status_pipe.Base.Order.{by_codepoint}
use status_pipe.Protocol.{LaunchAgent, AgentType, AgentLifetime}
use status_pipe.Protocol.Json.{Json, text, number, good, array, item, no_items}
use status_pipe.Protocol.Json.Writing.{written}
use status_pipe.Protocol.Store.{absent, content}
use status_pipe.Queue.Model.{DisplayState, build_display_state, all_cards}
use status_pipe.Queue.Cards.{repo_cards}
use status_pipe.Discovery.{RepoContext, dedupe}
use status_pipe.Discovery.GitRepo.{primary, worktree}
use status_pipe.Discovery.Laws.{preferred, dedupe-preferred}
use status_pipe.Supervisor.Fleet.Operations.{Action}
use status_pipe.Supervisor.TrustGate.{Digest, describe_launch_entry, launch_entry_hash}
use status_pipe.Supervisor.TrustGate.Approvals.{Approvals, Choice, allow, never, approve_agents}
use status_pipe.Supervisor.TrustGate.Laws.{
  SameRun, AllApproved, launch_entry_hash-covers, approve_agents-AllApproved,
}
use status_pipe.Host.Loading.{ProtocolFiles}
use status_pipe.Host.Notifications.{ToastSettings, compute_toasts}
use status_pipe.Host.Notifications.Laws.{compute_toasts-once, ids}
use status_pipe.Host.PlannerSpawn.{PlannerRepo, throws, killed, planner_spawn}
use status_pipe.Host.PlannerSpawn.Laws.{exits, planner_spawn-exits_once}
use status_pipe.Host.Controller.{Setup, Instant, Controller, new_controller}
use status_pipe.Host.Controller.Events.{
  HostEvent, scanned, loaded, connected, controls_agent, restarts, answers,
}
use status_pipe.Tests.{test_os}
use status_pipe.Tests.Queues.{input}
use status_pipe.Tests.Fleets.{deps, settings}

abbrev digest : Digest
digest = record {
  to_json = λ v. "{}";
  sha256 = λ s. s;
  locale_compare = by_codepoint;
  show_number = λ n. "n";
}

abbrev agent : LaunchAgent
agent = record {
  id = "lint";
  title = "Lint";
  type = AgentType.exec;
  command = "make";
  args = "lint" ∷ [];
  stdin = "";
  cwd = ".";
  env = ("CI", "1") ∷ [];
  lifetime = AgentLifetime.scheduled;
  interval_minutes = 10;
  timeout_minutes = 45;
}

launch_entry_hash-covers_example : SameRun digest agent (record agent { title = "Other" })
unfolding launch_entry_hash
launch_entry_hash-covers_example =
    launch_entry_hash-covers digest agent (record agent { title = "Other" }) (λ _. refl) (λ _. refl)
      refl

-- Two entries that run different things have one text in the dialog.
dialogs-alike :
    describe_launch_entry digest (record agent { args = "-c" ∷ "rm x" ∷ [] })
    ≡ describe_launch_entry digest (record agent { args = "-c" ∷ "rm" ∷ "x" ∷ [] })
unfolding describe_launch_entry
dialogs-alike = refl

abbrev decides : Approvals → LaunchAgent → Choice
decides s a = if a.id == "lint" then allow else never

abbrev undecided : Approvals
undecided = record { decided = []; asked = []; granted = [] }

approve_agents-AllApproved_example :
    (approve_agents digest decides false (agent ∷ []) undecided ≡ (undecided, []))
    × AllApproved digest decides undecided
        (approve_agents digest decides true (agent ∷ []) undecided)
approve_agents-AllApproved_example =
    approve_agents-AllApproved digest decides true (agent ∷ []) undecided

abbrev launch_json : Json
launch_json = written (
    ("schemaVersion", number 1)
    ∷ (
      "agents",
      array (
          item
            (written (("type", text "exec") ∷ ("command", text "make") ∷ ("id", text "lint") ∷ []))
            no_items),
    )
    ∷ [])

abbrev setup : Setup
setup = record {
  os = test_os;
  js = record { json_parse = λ t. good launch_json; stringify = λ v. "{}"; to_text = λ v. "?" };
  digest = digest;
  is_absolute = λ p. false;
  resolve = λ a b. a;
  basename = λ p. p;
  version = "1.0.0";
}

abbrev toasts : ToastSettings
toasts = record {
  blocker = true;
  crash_or_stale = true;
  completed = true;
  orphaned_ci = false;
  do_not_disturb = false;
}

abbrev instant : Instant
instant = record {
  deps = deps;
  trusted = true;
  auto_start = true;
  queue_settings = record { stale_worker_minutes_default = 30; quiet_retention_hours = 24 };
  toast_settings = toasts;
}

abbrev primary_context : RepoContext
primary_context = record {
  folder = "/repo";
  repo_root = "/repo";
  protocol_dir = "/repo/.status-pipe";
  remote_url = none;
  role = primary;
  worktree_root = none;
}

abbrev worktree_context : RepoContext
worktree_context = record primary_context {
  folder = "/w";
  role = worktree;
  worktree_root = some "/w";
}

abbrev files : ProtocolFiles
files = record {
  orchestrator = record { at_first = absent; later = absent };
  config = record { at_first = absent; later = absent };
  launch = content "launch";
  tickets = [];
  acks = [];
}

abbrev fresh : Controller
fresh =
    new_controller instant settings
      (record { repos = []; visible = true; poll = none; refresh_interval_seconds = 60 }) [] []

-- The repository is found and read, and two calls ask for its entry at once: the first dialog is allowed, the second denied.
abbrev morning : List (Instant × HostEvent)
morning =
    (instant, scanned (primary_context ∷ []))
    ∷ (instant, loaded 0 none files)
    ∷ (instant, connected 0 none none)
    ∷ (instant, controls_agent "/repo" "lint" Action.start)
    ∷ (instant, restarts "/repo")
    ∷ (instant, answers 0 allow)
    ∷ (instant, answers 1 never)
    ∷ []

dedupe-preferred_example :
    let cs = worktree_context ∷ primary_context ∷ [] in
    Distinct (map (λ (c : RepoContext). c.repo_root) (dedupe cs))
    × ((root : String)
        → find (λ (c : RepoContext). c.repo_root == root) (dedupe cs) ≡ preferred root cs)
dedupe-preferred_example = dedupe-preferred (worktree_context ∷ primary_context ∷ [])

abbrev shown : DisplayState
shown = record (build_display_state test_os input) { cards = all_cards test_os input }

one_card : Distinct (ids shown.cards)
unfolding repo_cards
one_card = (refl, tt)

-- The ticket that waits on its owner was told of before.
compute_toasts-once_example :
    compute_toasts (some shown) (record shown { generated_at = 3000 }) toasts ≡ []
compute_toasts-once_example =
    compute_toasts-once shown (record shown { generated_at = 3000 }) toasts refl one_card

abbrev ready_repo : PlannerRepo
ready_repo = record {
  repo = "/repo";
  protocol_dir = "/repo/.status-pipe";
  has_inventory = true;
  forge_connected = true;
  config = none;
}

planner_spawn-exits_once_example :
    exits (
      planner_spawn
        (λ n. "n")
        (λ a b. b)
        (some ready_repo)
        "/repo"
        (throws "offline" ∷ killed ∷ []))
    ≡ 1 ∷ []
planner_spawn-exits_once_example =
    planner_spawn-exits_once (λ n. "n") (λ a b. b) (some ready_repo) "/repo" (throws "offline")
      (killed ∷ [])
