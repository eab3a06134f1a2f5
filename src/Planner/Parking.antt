-- ===== src/Planner/Parking.antt =====
-- The parked declaration and the orchestrator wrap: computeParked, operatorWaiting and writeOrchestrator of
-- src/planner/schedule.ts.
pub mod Laws
use status_pipe.Base.{
  ℕ, ◌+◌, String, Bool, true, false, not, Option, none, some, get_or, List, [], ◌∷◌, ◌^^◌, ◌||◌,
  if◌then◌else◌, length, keep, every, lookup, Dict,
}
use status_pipe.Base.Platform.{Platform}
use status_pipe.Protocol.{
  TicketFile, Phase, WaitingKind, WaitingOn, ParkedState, OrchestratorFile, DispatchPlan,
}
use status_pipe.Planner.{Candidate, PassState, PlannerInput}
use status_pipe.Planner.Effects.{Ports, M, ◌>>=◌, ◌>>◌, pure, save_orchestrator, the_iso}
use status_pipe.Planner.Schedule.Tickets.{is_terminal}

abbrev six_hours_ms : ℕ
six_hours_ms = 21600000

abbrev pub park : Platform → ℕ → String → String → ParkedState
park os now iso reason = record {
  since = iso;
  reason = reason;
  recheck_after = some (os.to_iso (now + six_hours_ms));
}

abbrev waits_on_operator : WaitingKind → Bool
waits_on_operator WaitingKind.owner = true
waits_on_operator WaitingKind.review = true
waits_on_operator WaitingKind.merge = true
waits_on_operator WaitingKind.comment = true
waits_on_operator WaitingKind.build = false

abbrev is_blocked_phase : Phase → Bool
is_blocked_phase Phase.blocked = true
is_blocked_phase _ = false

abbrev waiting_on_operator : Option WaitingOn → Bool
waiting_on_operator none = false
waiting_on_operator (some w) = waits_on_operator w.kind

abbrev is_nonempty : List String → Bool
is_nonempty [] = false
is_nonempty (b ∷ bs) = true

abbrev pub operator_waiting : Option TicketFile → Bool
operator_waiting none = false
operator_waiting (some t) =
    is_nonempty t.blockers || is_blocked_phase t.phase || waiting_on_operator t.waiting_on

abbrev pub active_candidates : Dict TicketFile → List Candidate → List Candidate
active_candidates tickets cs = keep (λ (c : Candidate). not (is_terminal (lookup c.key tickets))) cs

abbrev pub park_reason : Platform → ℕ → Bool → Option String
park_reason os n true =
    some (os.show_number n ^^ " active items all waiting on you; no dispatchable work")
park_reason os n false = none

-- Why the active candidates let the pass park.
abbrev pub active_reason : Platform → Dict TicketFile → List Candidate → Option String
active_reason os tickets [] = some "all tracked work is complete — nothing to do"
active_reason os tickets (c ∷ cs) =
    park_reason os (length (c ∷ cs))
      (every (λ (d : Candidate). operator_waiting (lookup d.key tickets)) (c ∷ cs))

abbrev pub tracked_reason : Platform → Dict TicketFile → List Candidate → Option String
tracked_reason os tickets [] = some "backlog empty — nothing tracked"
tracked_reason os tickets (c ∷ cs) = active_reason os tickets (active_candidates tickets (c ∷ cs))

abbrev pub idle_reason : Platform → List String → PassState → List Candidate → Option String
idle_reason os [] s cs = elim s.report.dispatched [
  | i ∷ is ↦ none
  | [] ↦ elim s.report.deferred [
    | k ∷ ks ↦ none
    | [] ↦ elim s.report.consumed_acks [ a ∷ acks ↦ none | [] ↦ tracked_reason os s.tickets cs ]
  ]
]
idle_reason os (k ∷ ks) s cs = none

unfoldable pub compute_parked :
    Platform → List String → ℕ → String → PassState → List Candidate → Option ParkedState
compute_parked os live now iso s cs = elim (idle_reason os live s cs) [
  | none ↦ none
  | some reason ↦ some (park os now iso reason)
]

abbrev passes_before : Option OrchestratorFile → ℕ
passes_before none = 0
passes_before (some f) = get_or f.pass_count 0

pub record OrchestratorArgs : Type 0 where
  pub prev : Option OrchestratorFile
  pub repo : String
  pub dispatch : Option DispatchPlan
  pub parked : Option ParkedState
  pub stale_worker_minutes : ℕ
  pub started_at : String

abbrev pub orchestrator_file : OrchestratorArgs → String → OrchestratorFile
orchestrator_file a iso = record {
  schema_version = 1;
  repo = some a.repo;
  pass_count = some (passes_before a.prev + 1);
  last_pass_started_at = some a.started_at;
  last_pass_finished_at = some iso;
  stale_worker_minutes = some a.stale_worker_minutes;
  parked = a.parked;
  dispatch = a.dispatch;
  note = none;
}

abbrev pub wrap_orchestrator : Ports → OrchestratorArgs → M (Unit {0})
wrap_orchestrator p a = do iso ← the_iso p; save_orchestrator p (orchestrator_file a iso)
