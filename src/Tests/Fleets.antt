-- ===== src/Tests/Fleets.antt =====
-- The fleet's theorems at one repository with two planned workers, and two tests that show what the findings say.
use status_pipe.Base.{
  String, ◌≡◌, ◌≤◌, refl, true, false, none, some, List, [], ◌∷◌, length, All, lookup, insert,
  remove, map, starts_with,
}
use status_pipe.Protocol.{
  LaunchAgent, AgentType, AgentLifetime, DispatchItem, DispatchKind, DispatchPlan, OrchestratorFile,
}
use status_pipe.Supervisor.Runner.{started}
use status_pipe.Supervisor.Templates.{
  substitute_worker, replace_all, replace_from, expand, drop_text,
}
use status_pipe.Supervisor.Workers.{worker_start}
use status_pipe.Supervisor.Workers.Pool.{
  Host, Pool, no_workers, spawn_items, spawn_worker, stop_workers, worker_event, exits, live_keys,
  act, nth, set_nth,
}
use status_pipe.Supervisor.Workers.Caps.{Kept, Served, spawn_items-caps, spawn_items-Served}
use status_pipe.Supervisor.Fleet.{
  AgentSupervisor, SupervisorDeps, SupervisorSettings, new_supervisor, new_repo, repo_of,
}
use status_pipe.Supervisor.Fleet.Operations.{
  FleetEvent, agents_set, orchestrator_change, on_worker, fleet_step, fleet_run,
}
use status_pipe.Supervisor.Fleet.Invariant.{FleetInv}
use status_pipe.Supervisor.Fleet.Sound.{fleet_run-FleetInv}
use status_pipe.Supervisor.Fleet.Refeeds.{refeed-spawns_nothing}

abbrev host : Host
host = record {
  now = 1000;
  spawn = λ n. started;
  kill_exit = none;
  is_absolute = λ p. true;
  resolve = λ a b. b;
}

abbrev template : LaunchAgent
template = record {
  id = "worker";
  title = "Worker";
  type = AgentType.claude;
  command = "claude";
  args = "-p" ∷ "%prompt%" ∷ [];
  stdin = "";
  cwd = "%worktree%";
  env = [];
  lifetime = AgentLifetime.scheduled;
  interval_minutes = 10;
  timeout_minutes = 30;
}

abbrev item : String → DispatchItem
item key = record { key = key; kind = DispatchKind.ticket; prompt = "/work"; worktree = "/w" }

abbrev items : List DispatchItem
items = item "7" ∷ item "8" ∷ item "9" ∷ []

spawn_items-caps_example :
    (length (spawn_items host template 2 items no_workers).live ≤ 2)
    × Kept no_workers (spawn_items host template 2 items no_workers)
spawn_items-caps_example = spawn_items-caps host template 2 items no_workers

spawn_items-Served_example :
    All (Served host template 2 (spawn_items host template 2 items no_workers)) items
spawn_items-Served_example = spawn_items-Served host template (λ n. refl) 2 items no_workers

abbrev pub deps : SupervisorDeps
deps = record {
  host = host;
  date_parse = λ s. none;
  show_number = λ n. "n";
  agent_spawn = λ id n. started;
  built_in_spawn = none;
}

abbrev pub settings : SupervisorSettings
settings = record { enabled = true; pause_when_idle = false; max_restarts = 3 }

abbrev full_plan : DispatchPlan
full_plan = record { max_concurrent = 2; items = items }

abbrev pass_file : OrchestratorFile
pass_file = record {
  schema_version = 1;
  repo = none;
  pass_count = some 4;
  last_pass_started_at = none;
  last_pass_finished_at = none;
  stale_worker_minutes = none;
  parked = none;
  dispatch = some full_plan;
  note = none;
}

abbrev approved : FleetEvent
approved = agents_set "/repo" (template ∷ record template { id = "tick" } ∷ [])

abbrev fed : FleetEvent
fed = orchestrator_change "/repo" (some pass_file)

abbrev day : List (SupervisorDeps × FleetEvent)
day = (deps, approved) ∷ (deps, fed) ∷ (deps, on_worker "/repo" exits 0) ∷ []

fleet_run-FleetInv_example : FleetInv (fleet_run day (new_supervisor deps settings))
fleet_run-FleetInv_example = fleet_run-FleetInv deps settings day

-- A fleet with the template installed.
abbrev equipped : AgentSupervisor
equipped = record (new_supervisor deps settings) {
  repos = ("/repo", record new_repo { worker_template = some template }) ∷ [];
}

refeed-spawns_nothing_example :
    let between =
      fleet_run ((deps, on_worker "/repo" exits 0) ∷ []) (fleet_step deps fed equipped) in
    (repo_of "/repo" (fleet_step deps fed between)).pool ≡ (repo_of "/repo" between).pool
unfolding lookup
refeed-spawns_nothing_example =
    refeed-spawns_nothing "/repo" pass_file pass_file full_plan template deps deps equipped
      ((deps, on_worker "/repo" exits 0) ∷ []) refl refl refl refl (refl, tt)

-- The pool after a worker of this key was spawned, disposed of, and spawned again, and the first process then exits.
abbrev reused : Pool
reused =
    let stopped = stop_workers host (spawn_items host template 1 (item "7" ∷ []) no_workers) in
    worker_event host exits 0 (spawn_items host template 1 (item "7" ∷ []) stopped)

-- The late exit took the entry of the second worker, which runs on.
late_exit_forgets : (live_keys reused ≡ []) × (map (λ w. w.ended) reused.heap ≡ true ∷ false ∷ [])
unfolding spawn_items spawn_worker stop_workers worker_event act nth set_nth worker_start lookup
    insert remove
late_exit_forgets = (refl, refl)

-- A prompt is read as a replacement pattern.
prompt_patterns : substitute_worker "%prompt%" "costs $$5, see $&" "/w" ≡ "costs $5, see %prompt%"
unfolding replace_all replace_from expand drop_text starts_with
prompt_patterns = refl
