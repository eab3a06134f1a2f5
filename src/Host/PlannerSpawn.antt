-- ===== src/Host/PlannerSpawn.antt =====
-- The in-process planner as a process: src/host/plannerSpawn.ts, with the digest of a pass from src/planner/runPass.ts. A
-- pass ends once, or a kill settles the process first. What happens is a list of events; what the runner hears is another.
pub mod Laws
use status_pipe.Base.{
  ℕ, ltb, String, Bool, true, false, not, ◌&&◌, Option, none, some, List, [], ◌∷◌, ◌++◌, is_some,
  if◌then◌else◌, get_or, join, length, ◌^^◌,
}
use status_pipe.Protocol.{ConfigFile}
use status_pipe.Protocol.Worker.{nonempty}
use status_pipe.Planner.{PlannerConfig, PlanReport, PlanResult}

pub record PlannerRepo : Type 0 where
  pub repo : String
  pub protocol_dir : String
  pub has_inventory : Bool
  pub forge_connected : Bool
  pub config : Option ConfigFile

-- What happens to a pass: it returns, it throws, or the process is killed.
pub data PassEvent : Type 0 where
  returns : PlanResult → PassEvent
  throws : (message : String) → PassEvent
  killed : PassEvent

pub data ProcessEvent : Type 0 where
  on_output : String → ProcessEvent
  on_exit : ℕ → ProcessEvent

abbrev default_stale_worker_minutes : ℕ
default_stale_worker_minutes = 30

module _ (show_number : ℕ → String) (resolve : String → String → String) where
  unfoldable pub planner_config_from_file : Option ConfigFile → String → PlannerConfig
  planner_config_from_file none root = record {
    epics_dir = resolve root "epics";
    inventory_label = "agent-queue";
    inventory_assignees = [];
    trust_mode = none;
    trust_operators = [];
    stale_worker_minutes = default_stale_worker_minutes;
  }
  planner_config_from_file (some config) root = record {
    epics_dir = resolve root config.epics_dir;
    inventory_label = config.inventory_label;
    inventory_assignees = config.inventory_assignees;
    trust_mode = config.trust_mode;
    trust_operators = config.trust_operators;
    stale_worker_minutes = get_or config.stale_worker_minutes default_stale_worker_minutes;
  }

  abbrev counted {ℓ} : {A : Type ℓ} → String → List A → String
  counted what xs = what ^^ show_number (length xs)

  abbrev counted_if_any {ℓ} : {A : Type ℓ} → String → List A → List String
  counted_if_any what xs = if ltb 0 (length xs) then counted what xs ∷ [] else []

  abbrev report_parts : PlanReport → List String
  report_parts r =
      counted "dispatched " r.dispatched
      ∷ counted "deferred " r.deferred
      ∷ counted "acks consumed " r.consumed_acks
      ∷ counted "stale reconciled " r.stale_reconciled
      ∷ counted "tracking tickets created " r.created_tracking_tickets
      ∷ (counted_if_any "acks superseded " r.superseded_acks
          ++ (counted_if_any "acks orphaned " r.orphaned_acks
              ++ (counted_if_any "reopened " r.reopened
                  ++ (counted_if_any "closed " r.closed_by_reconcile
                      ++ counted_if_any "worktrees reclaimed " r.worktrees_removed))))

  abbrev parked_part : PlanReport → String
  parked_part r = elim r.parked [ none ↦ "" | some p ↦ " — parked: " ^^ p.reason ]

  unfoldable pub format_plan_report : PlanResult → String
  format_plan_report result = elim (nonempty result.report.refused_reason) [
    | none ↦
        "[planner] " ^^ join ", " (report_parts result.report) ^^ parked_part result.report ^^ "\n"
    | some reason ↦ "[planner] refused: " ^^ reason ^^ "\n"
  ]

  -- `exit`: the process is settled once.
  abbrev exit : Bool → ℕ → List ProcessEvent
  exit settled code = if settled then [] else on_exit code ∷ []

  abbrev echo : Bool → String → List ProcessEvent
  echo settled line = if settled then [] else on_output line ∷ []

  abbrev pub one_event : Bool → PassEvent → List ProcessEvent
  one_event settled (returns result) = echo settled (format_plan_report result) ++ exit settled 0
  one_event settled (throws message) =
      echo settled ("[planner] pass failed: " ^^ message ^^ "\n") ++ exit settled 1
  one_event settled killed = exit settled 1

  -- Each event settles the process.
  unfoldable pub run_built_in_pass : Bool → List PassEvent → List ProcessEvent
  unfolding format_plan_report
  run_built_in_pass settled [] = []
  run_built_in_pass settled (e ∷ es) = one_event settled e ++ run_built_in_pass true es

  abbrev exit_with : ℕ → String → List ProcessEvent
  exit_with code message = on_output message ∷ on_exit code ∷ []

  -- `none` where no repository is managed at the working directory.
  unfoldable pub planner_spawn : Option PlannerRepo → String → List PassEvent → List ProcessEvent
  unfolding run_built_in_pass
  planner_spawn none cwd es =
      exit_with 1 ("[planner] no managed repo at " ^^ cwd ^^ " — check the tick entry's cwd\n")
  planner_spawn (some repo) cwd es =
      if not repo.has_inventory && repo.forge_connected
      then exit_with 1
          "[planner] this forge has no issue inventory — the built-in planner needs github-issues; set the tick entry to type:\"claude\"\n"
      else if not repo.has_inventory
      then exit_with 0
          "[planner] no forge connection yet — skipping this tick (will retry next interval)\n"
      else run_built_in_pass false es
