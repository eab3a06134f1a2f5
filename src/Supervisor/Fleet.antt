-- ===== src/Supervisor/Fleet.antt =====
-- The supervision of every repository: AgentSupervisor of src/supervisor/agentSupervisor.ts. A handler runs at one
-- instant. A runner or a worker that is disposed of keeps no armed timer; the late exits of such runners touch nothing of
-- the fleet and are left out, those of workers are events of their pool. Logging and `onStateChange` are not modelled.
pub mod Operations
pub mod Invariant
pub mod Sound
pub mod Replans
pub mod Refeeds
pub mod Everywhere
pub mod Entries
use status_pipe.Base.{
  ℕ, ◌+◌, ◌-◌, ◌*◌, max, String, Bool, true, false, not, ◌&&◌, ◌||◌, Option, none, some, List, [],
  ◌∷◌, Dict, insert, lookup, find, map, get_or, if◌then◌else◌, ltb, ◌==◌, is_some, eqb, length,
}
use status_pipe.Protocol.{
  LaunchAgent, AgentType, DispatchPlan, DispatchItem, OrchestratorFile, ParkedState, worker_id,
}
use status_pipe.Protocol.Worker.{nonempty}
use status_pipe.Supervisor.Runner.{
  Env, Runner, Spawned, exited, new_runner, Event, step, starts, ticks_now, stops, retries, wakes,
  parks, wedge_check,
}
use status_pipe.Supervisor.Workers.Pool.{Pool, Host, no_workers, spawn_items, stop_workers}

abbrev pub wedge_check_ms : ℕ
wedge_check_ms = 60000

abbrev pub idle_pause_ms : ℕ
idle_pause_ms = 1800000

pub record SupervisorSettings : Type 0 where
  pub enabled : Bool
  pub pause_when_idle : Bool
  pub max_restarts : ℕ

-- What the host supplies at one instant.
pub record SupervisorDeps : Type 0 where
  pub host : Host
  pub date_parse : String → Option ℕ
  pub show_number : ℕ → String
  -- The answers of the process spawner to the spawns of this agent, and those of the in-process planner, if wired.
  pub agent_spawn : String → ℕ → Spawned
  pub built_in_spawn : Option (String → ℕ → Spawned)

-- `recheck` is the due time of the armed recheck.
pub record RepoSupervision : Type 0 where
  pub runners : Dict Runner
  pub worker_template : Option LaunchAgent
  pub pool : Pool
  pub parked : Option ParkedState
  pub last_pass_finished_at : Option ℕ
  pub reconciled_dispatch_pass : Option ℕ
  pub reconciled_any : Bool
  pub recheck : Option ℕ

abbrev pub new_repo : RepoSupervision
new_repo = record {
  runners = [];
  worker_template = none;
  pool = no_workers;
  parked = none;
  last_pass_finished_at = none;
  reconciled_dispatch_pass = none;
  reconciled_any = false;
  recheck = none;
}

-- `wedge_timer` is the due time of the armed check.
pub record AgentSupervisor : Type 0 where
  pub repos : Dict RepoSupervision
  pub settings : SupervisorSettings
  pub last_focus_at : ℕ
  pub wedge_timer : Option ℕ

abbrev pub new_supervisor : SupervisorDeps → SupervisorSettings → AgentSupervisor
new_supervisor deps settings = record {
  repos = [];
  settings = settings;
  last_focus_at = deps.host.now;
  wedge_timer = some (deps.host.now + wedge_check_ms);
}

abbrev pub is_idle_paused : SupervisorDeps → AgentSupervisor → Bool
is_idle_paused deps s =
    s.settings.pause_when_idle && ltb idle_pause_ms (deps.host.now - s.last_focus_at)

-- `repo`: the entry of a repository is made when it is asked for.
abbrev pub repo_of : String → AgentSupervisor → RepoSupervision
repo_of root s = get_or (lookup root s.repos) new_repo

-- It writes a line and exits with 1.
abbrev missing_built_in_spawn : String → ℕ → Spawned
missing_built_in_spawn id n = exited true (some 1)

abbrev spawner_of : SupervisorDeps → LaunchAgent → ℕ → Spawned
spawner_of deps a = elim a.type [
  | AgentType.built_in ↦ get_or deps.built_in_spawn missing_built_in_spawn a.id
  | _ ↦ deps.agent_spawn a.id
]

-- The dependencies that `buildRunner` gives to a runner, as they stand at this instant.
abbrev pub runner_env : SupervisorDeps → AgentSupervisor → RepoSupervision → LaunchAgent → Env
runner_env deps s repo a = record {
  now = deps.host.now;
  parked = repo.parked;
  idle_paused = is_idle_paused deps s;
  max_restarts = s.settings.max_restarts;
  spawn = spawner_of deps a;
  kill_exit = deps.host.kill_exit;
  show_number = deps.show_number;
}

abbrev is_template : LaunchAgent → Bool
is_template a = a.id == worker_id

module _ (deps : SupervisorDeps) (s : AgentSupervisor) where
  abbrev pub runner_step : RepoSupervision → Event → Runner → Runner
  runner_step repo e r = step (runner_env deps s repo r.agent) e r

  -- An operation on every runner of a repository.
  abbrev pub each_runner : Event → RepoSupervision → RepoSupervision
  each_runner e repo = record repo {
    runners = map (λ entry. (entry.0, runner_step repo e entry.1)) repo.runners;
  }

  abbrev pub built : String → List LaunchAgent → Dict Runner → Dict Runner
  built root [] runners = runners
  built root (a ∷ as_) runners =
      built root as_ (if is_template a then runners else insert a.id (new_runner root a) runners)

  -- The runners that are replaced are disposed of and dropped.
  unfoldable pub set_agents : String → List LaunchAgent → RepoSupervision → RepoSupervision
  set_agents root agents repo =
      let template = find is_template agents in
      if s.settings.enabled
      then record repo { worker_template = template; runners = built root agents [] }
      else record repo {
        worker_template = template;
        runners = [];
        pool = stop_workers deps.host repo.pool;
      }

  -- A plan without items changes nothing. Without a template it only logs.
  unfoldable pub reconcile_workers : DispatchPlan → RepoSupervision → RepoSupervision
  reconcile_workers plan repo =
      if s.settings.enabled
      then elim repo.worker_template [
        | none ↦ repo
        | some template ↦ record repo {
          pool = spawn_items deps.host template plan.max_concurrent plan.items repo.pool;
        }
      ]
      else repo

  abbrev pub same_pass : Option ℕ → Option ℕ → Bool
  same_pass none none = true
  same_pass (some a) (some b) = eqb a b
  same_pass _ _ = false

  -- The plan of this pass has been acted on.
  abbrev pub is_reconciled : OrchestratorFile → RepoSupervision → Bool
  is_reconciled file repo =
      repo.reconciled_any && same_pass file.pass_count repo.reconciled_dispatch_pass

  pub reconcile_once : OrchestratorFile → DispatchPlan → RepoSupervision → RepoSupervision
  unfolding reconcile_workers
  reconcile_once file plan repo =
      if is_reconciled file repo
      then repo
      else reconcile_workers plan
          (record repo { reconciled_any = true; reconciled_dispatch_pass = file.pass_count })

  unfoldable pub maybe_reconcile_dispatch : OrchestratorFile → RepoSupervision → RepoSupervision
  unfolding reconcile_once reconcile_workers
  maybe_reconcile_dispatch file repo = elim file.dispatch [
    | none ↦ repo
    | some plan ↦
        if s.settings.enabled
        then elim repo.worker_template [
          | none ↦ reconcile_workers plan repo
          | some template ↦ reconcile_once file plan repo
        ]
        else repo
  ]

  abbrev parsed_time : Option String → Option ℕ
  parsed_time iso = elim (nonempty iso) [ none ↦ none | some text ↦ deps.date_parse text ]

  abbrev later : Option ℕ → Option ℕ → Option ℕ
  later none old = old
  later (some ms) old = some ms

  abbrev pub note_last_pass_finished : Option String → RepoSupervision → RepoSupervision
  note_last_pass_finished iso repo = record repo {
    last_pass_finished_at = later (parsed_time iso) repo.last_pass_finished_at;
  }

  abbrev recheck_after : Option ParkedState → Option String
  recheck_after none = none
  recheck_after (some p) = p.recheck_after

  -- At once where the time has passed.
  abbrev pub arm_parked_recheck : RepoSupervision → RepoSupervision
  arm_parked_recheck repo = record repo {
    recheck = elim (parsed_time (recheck_after repo.parked)) [
      | none ↦ none
      | some ms ↦ some (max ms deps.host.now)
    ];
  }

  abbrev pub parked_in : Option OrchestratorFile → Option ParkedState
  parked_in none = none
  parked_in (some file) = file.parked

  abbrev pub finished_in : Option OrchestratorFile → Option String
  finished_in none = none
  finished_in (some file) = file.last_pass_finished_at

  abbrev pub park_daemons : RepoSupervision → RepoSupervision
  park_daemons repo = if is_some repo.parked then each_runner parks repo else repo

  abbrev pub reconcile_file : Option OrchestratorFile → RepoSupervision → RepoSupervision
  reconcile_file none repo = repo
  reconcile_file (some file) repo = maybe_reconcile_dispatch file repo

  unfoldable pub note_orchestrator : Option OrchestratorFile → RepoSupervision → RepoSupervision
  unfolding maybe_reconcile_dispatch
  note_orchestrator file repo = arm_parked_recheck (
      reconcile_file file (
        park_daemons
          (note_last_pass_finished (finished_in file) (record repo { parked = parked_in file }))))

  -- An ack, a change of the backlog, or the recheck.
  unfoldable pub wake_repo : RepoSupervision → RepoSupervision
  wake_repo repo = each_runner wakes (record repo { parked = none })

  abbrev pub recheck_fires : RepoSupervision → RepoSupervision
  recheck_fires repo =
      if is_some repo.recheck then wake_repo (record repo { recheck = none }) else repo

  -- The runner of this agent, if there is one.
  unfoldable pub one_runner : String → Event → RepoSupervision → RepoSupervision
  one_runner id e repo = elim (lookup id repo.runners) [
    | none ↦ repo
    | some r ↦ record repo { runners = insert id (runner_step repo e r) repo.runners }
  ]
