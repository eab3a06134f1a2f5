-- ===== src/Planner/Pass.antt =====
-- One orchestration pass: src/planner/plan.ts.
pub mod Fresh
pub mod Sound
pub mod Laws
use status_pipe.Base.{
  ℕ, String, Bool, true, false, Option, none, some, get_or, List, [], ◌∷◌, map, insert, Dict,
}
use status_pipe.Base.Platform.{Platform}
use status_pipe.Protocol.{TicketFile, TrustMode, DispatchPlan}
use status_pipe.Planner.{
  Candidate, PassState, PlannerInput, PlanReport, PlanResult, TrustResolution, trusted, refused,
  empty_report,
}
use status_pipe.Planner.Effects.{
  Ports, M, ◌>>=◌, ◌>>◌, pure, attempt, ask, load_ticket, the_iso, the_now, get_visibility,
  get_viewer, list_keys, read_orchestrator, Visibility, public_repo, private_repo, World,
  ticket_keys,
}
use status_pipe.Planner.Trust.{resolve_trust}
use status_pipe.Planner.Inventory.{discover_epics, discover_tickets, dedupe_candidates}
use status_pipe.Planner.Acks.{ConsumedAcks, consume_acks}
use status_pipe.Planner.Schedule.Dispatch.{reconcile_staleness, select_and_dispatch}
use status_pipe.Planner.Lifecycle.{reconcile_reopened, reconcile_closed, garbage_collect_worktrees}
use status_pipe.Planner.Parking.{compute_parked, wrap_orchestrator}

abbrev safe_visibility : Ports → M Visibility
safe_visibility p = do
  found ← attempt (ask p get_visibility p.visibility)
  pure (get_or found public_repo)

abbrev safe_viewer_login : Ports → M (Option String)
safe_viewer_login p = do found ← attempt (ask p get_viewer p.viewer_login); pure (get_or found none)

-- The login is asked for only where the private default needs it.
abbrev viewer_for : Ports → Option TrustMode → Visibility → M (Option String)
viewer_for p none private_repo = safe_viewer_login p
viewer_for p none public_repo = pure none
viewer_for p (some mode) v = pure none

unfoldable pub resolve_trust_gate : PlannerInput → Ports → M TrustResolution
resolve_trust_gate input p = do
  v ← safe_visibility p
  viewer ← viewer_for p input.config.trust_mode v
  pure (
      resolve_trust (record {
        visibility = v;
        viewer_login = viewer;
        trust_mode = input.config.trust_mode;
        trust_operators = input.config.trust_operators;
      }))

unfoldable pub build_candidates :
    PlannerInput → Ports → TrustMode → List String → PlanReport → M (List Candidate × PlanReport)
build_candidates input p mode operators report = do
  epics ← discover_epics p input.config.epics_dir input.config.inventory_label report
  tickets ←
      discover_tickets p input.config.inventory_label mode operators
        input.config.inventory_assignees
  pure (dedupe_candidates epics.0 tickets, epics.1)

abbrev with_ticket : String → Option TicketFile → Dict TicketFile → Dict TicketFile
with_ticket key none d = d
with_ticket key (some t) d = insert key t d

unfoldable pub load_each : Ports → List String → Dict TicketFile → M (Dict TicketFile)
load_each p [] d = pure d
load_each p (key ∷ ks) d = do t ← load_ticket p key; load_each p ks (with_ticket key t d)

unfoldable pub load_tickets : Ports → M (Dict TicketFile)
load_tickets p = do ks ← ask p list_keys ticket_keys; load_each p ks []

module _ (os : Platform) (input : PlannerInput) (p : Ports) where
  unfoldable pub wrap_pass : PassState → List Candidate → Option DispatchPlan → String → M PassState
  unfolding compute_parked
  wrap_pass s candidates dispatch started_at = do
    now ← the_now p
    iso ← the_iso p
    let parked = compute_parked os input.live_worker_keys now iso s candidates
    prev ← ask p read_orchestrator (λ w. w.orchestrator)
    wrap_orchestrator p (record {
      prev = prev;
      repo = input.repo;
      dispatch = dispatch;
      parked = parked;
      stale_worker_minutes = input.config.stale_worker_minutes;
      started_at = started_at;
    })
    pure (record s { report = record s.report { parked = parked } })

  -- The three reconciles in front of the dispatch.
  unfoldable pub reconcile_all : List Candidate → PassState → M PassState
  reconcile_all candidates s = do
    s1 ← reconcile_staleness os p input s
    s2 ← reconcile_reopened p s1 candidates
    reconcile_closed p s2 candidates

  unfoldable pub run_pass : List Candidate → ConsumedAcks × PlanReport → String → M PlanResult
  run_pass candidates acks started_at = do
    tickets ← load_tickets p
    s1 ← reconcile_all candidates (record { tickets = tickets; consumed = acks.0; report = acks.1 })
    dispatched ← select_and_dispatch os p input s1 candidates
    s2 ← garbage_collect_worktrees p dispatched.1 candidates
    s3 ← wrap_pass s2 candidates dispatched.0 started_at
    pure (record { dispatch = dispatched.0; report = s3.report })

  abbrev pub trusted_pass : TrustMode → List String → String → M PlanResult
  trusted_pass mode operators started_at = do
    found ← build_candidates input p mode operators empty_report
    acks ← consume_acks p found.1
    run_pass found.0 acks started_at

  abbrev pub refusal : String → PlanResult
  refusal reason = record {
    dispatch = none;
    report = record empty_report { refused_reason = some reason };
  }

  abbrev pub pass_for : TrustResolution → String → M PlanResult
  pass_for (refused reason) started_at = pure (refusal reason)
  pass_for (trusted mode operators) started_at = trusted_pass mode operators started_at

  unfoldable pub plan : M PlanResult
  plan = do started_at ← the_iso p; trust ← resolve_trust_gate input p; pass_for trust started_at
