-- ===== src/Protocol/Parse.antt =====
-- Reading a protocol file as a versioned object, and the sets of allowed values: the head of src/protocol/parse.ts.
pub mod Versioned
pub mod Ticket
pub mod Orchestrator
pub mod Ack
pub mod Launch
pub mod Config
use status_pipe.Base.{
  ℕ, zero, suc, String, Option, none, some, List, [], ◌∷◌, ◌^^◌, get_or, map_some, refl, ◌≡◌,
}
use status_pipe.Protocol.{
  ParseResult, parsed, failed, ParseFailure, Phase, Health, WaitingKind, AckWaitingKind, CiState,
  PrState, WorkerStatus, phase_name, kind_name,
}
use status_pipe.Protocol.Json.{Engine, Decoded, bad, good, Object, get, num, obj, named}

abbrev pub health_name : Health → String
health_name Health.ok = "ok"
health_name Health.waiting = "waiting"
health_name Health.blocked = "blocked"
health_name Health.error = "error"
health_name Health.done = "done"

abbrev pub waiting_name : WaitingKind → String
waiting_name k = kind_name (AckWaitingKind.on k)

abbrev pub ci_name : CiState → String
ci_name CiState.unknown = "unknown"
ci_name CiState.pending = "pending"
ci_name CiState.passing = "passing"
ci_name CiState.failing = "failing"

abbrev pub pr_state_name : PrState → String
pr_state_name PrState.open_pr = "open"
pr_state_name PrState.merged_pr = "merged"
pr_state_name PrState.closed_pr = "closed"

abbrev pub status_name : WorkerStatus → String
status_name WorkerStatus.idle = "idle"
status_name WorkerStatus.running = "running"
status_name WorkerStatus.error = "error"

abbrev pub phases : List Phase
phases =
    Phase.planning ∷ Phase.implementation ∷ Phase.hardening ∷ Phase.review ∷ Phase.fixing
    ∷ Phase.merging ∷ Phase.awaiting_merge ∷ Phase.merged ∷ Phase.blocked ∷ Phase.abandoned ∷ []

abbrev pub healths : List Health
healths = Health.ok ∷ Health.waiting ∷ Health.blocked ∷ Health.error ∷ Health.done ∷ []

abbrev pub waiting_kinds : List WaitingKind
waiting_kinds =
    WaitingKind.build ∷ WaitingKind.review ∷ WaitingKind.comment ∷ WaitingKind.owner
    ∷ WaitingKind.merge ∷ []

abbrev pub ack_waiting_kinds : List AckWaitingKind
ack_waiting_kinds =
    AckWaitingKind.on WaitingKind.build
    ∷ AckWaitingKind.on WaitingKind.review
    ∷ AckWaitingKind.on WaitingKind.comment
    ∷ AckWaitingKind.on WaitingKind.owner
    ∷ AckWaitingKind.on WaitingKind.merge
    ∷ AckWaitingKind.blockers
    ∷ []

abbrev pub ci_states : List CiState
ci_states = CiState.unknown ∷ CiState.pending ∷ CiState.passing ∷ CiState.failing ∷ []

abbrev pub pr_states : List PrState
pr_states = PrState.open_pr ∷ PrState.merged_pr ∷ PrState.closed_pr ∷ []

abbrev pub worker_statuses : List WorkerStatus
worker_statuses = WorkerStatus.idle ∷ WorkerStatus.running ∷ WorkerStatus.error ∷ []

module _ (js : Engine) (raw : String) where
  object_or_corrupt : Option Object → ParseResult Object
  object_or_corrupt none = failed ParseFailure.corrupt raw "not a JSON object"
  object_or_corrupt (some o) = parsed o

  pub parse_json : ParseResult Object
  unfolding object_or_corrupt
  parse_json = elim (js.json_parse raw) [
    | bad message ↦ failed ParseFailure.corrupt raw message
    | good v ↦ object_or_corrupt (obj (some v))
  ]

  pub check_schema_version : Object → ParseResult Object
  check_schema_version o = elim (num (get "schemaVersion" o)) [
    | some (suc zero) ↦ parsed o
    | _ ↦
        failed ParseFailure.unknown_schema raw
          ("schemaVersion " ^^ js.to_text (get "schemaVersion" o))
  ]

  unfoldable pub parse_versioned : ParseResult Object
  unfolding parse_json check_schema_version object_or_corrupt
  parse_versioned = elim parse_json [
    | parsed o ↦ check_schema_version o
    | failed reason text detail ↦ failed reason text detail
  ]

-- `if (!r.ok) return r`
abbrev pub if_parsed {ℓ κ} :
    {A : Type ℓ} {B : Type κ} → ParseResult A → (A → ParseResult B) → ParseResult B
if_parsed (parsed a) k = k a
if_parsed (failed reason raw detail) k = failed reason raw detail
