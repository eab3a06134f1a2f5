-- ===== src/Protocol/Store/Overlay.antt =====
-- Objects laid over one another, and the values that are read back off written members.
use status_pipe.Base.{
  String, ◌≡◌, refl, false, Option, none, some, [], ◌∷◌, lookup, insert, lookup-insert, ==_iff,
  Distinct, has_text, keys, arith,
}
use status_pipe.Protocol.{
  Phase, Health, WaitingKind, AckWaitingKind, CiState, PrState, WorkerStatus, DispatchKind,
  phase_name, kind_name,
}
use status_pipe.Protocol.Json.{Object, get, named}
use status_pipe.Protocol.Store.Fields.{overlay}
use status_pipe.Protocol.Parse.{
  phases, healths, waiting_kinds, ack_waiting_kinds, ci_states, pr_states, worker_statuses,
  health_name, waiting_name, ci_name, pr_state_name, status_name,
}
use status_pipe.Protocol.Parse.Orchestrator.{dispatch_kinds, dispatch_kind_name}

-- `a ?? b` on values that may be undefined.
abbrev pub or_else {ℓ} : {A : Type ℓ} → Option A → Option A → Option A
or_else none o = o
or_else (some a) o = some a

pub absent-lookup : (k : String) (fs : Object) → has_text k (keys fs) ≡ false → lookup k fs ≡ none
unfolding lookup
absent-lookup k [] h = refl
absent-lookup k (f ∷ fs) h = ground (arith, ==_iff k f.0, ==_iff f.0 k, absent-lookup k fs)

-- A member that is written replaces the one below it, and every other member stays.
pub get-overlay :
    (k : String) (o fs : Object)
    → Distinct (keys fs)
    → get k (overlay o fs) ≡ or_else (get k fs) (get k o)
unfolding overlay lookup
get-overlay k o [] d = refl
get-overlay k o (f ∷ fs) d = ground (
  arith,
  get-overlay k (insert f.0 f.1 o) fs d.1,
  lookup-insert f.0 k f.1 o,
  absent-lookup f.0 fs d.0,
  ==_iff f.0 k,
)

pub named-phase : (p : Phase) → named phase_name phases (phase_name p) ≡ some p
named-phase Phase.planning = refl
named-phase _ = refl

pub named-health : (h : Health) → named health_name healths (health_name h) ≡ some h
named-health Health.ok = refl
named-health _ = refl

pub named-waiting : (k : WaitingKind) → named waiting_name waiting_kinds (waiting_name k) ≡ some k
named-waiting WaitingKind.build = refl
named-waiting _ = refl

pub named-kind : (k : AckWaitingKind) → named kind_name ack_waiting_kinds (kind_name k) ≡ some k
named-kind (AckWaitingKind.on WaitingKind.build) = refl
named-kind _ = refl

pub named-ci : (c : CiState) → named ci_name ci_states (ci_name c) ≡ some c
named-ci CiState.unknown = refl
named-ci _ = refl

pub named-pr_state : (s : PrState) → named pr_state_name pr_states (pr_state_name s) ≡ some s
named-pr_state PrState.open_pr = refl
named-pr_state _ = refl

pub named-status : (s : WorkerStatus) → named status_name worker_statuses (status_name s) ≡ some s
named-status WorkerStatus.idle = refl
named-status _ = refl

pub named-dispatch_kind :
    (k : DispatchKind) → named dispatch_kind_name dispatch_kinds (dispatch_kind_name k) ≡ some k
named-dispatch_kind DispatchKind.ticket = refl
named-dispatch_kind _ = refl
