-- ===== src/Planner/Lifecycle.antt =====
-- The lifecycle reconcile against the forge and the collection of worktrees: src/planner/reconcile.ts.
pub mod Laws
pub mod Closing
use status_pipe.Base.{
  String, Bool, true, false, not, Option, none, some, get_or, List, [], ◌∷◌, ◌++◌, map, ◌^^◌, ◌&&◌,
  ◌||◌, if◌then◌else◌, keep, keys, has_text, insert, lookup, Dict,
}
use status_pipe.Protocol.{TicketFile, Phase, Health, phase_name}
use status_pipe.Planner.{Candidate, PassState}
use status_pipe.Planner.Inventory.{keys_of}
use status_pipe.Planner.Effects.{
  Ports, M, ◌>>=◌, ◌>>◌, pure, attempt, ask, save_ticket, the_iso, reclaim, get_states,
  list_worktrees, TicketState, OpenState, StateReason,
}
use status_pipe.Planner.Schedule.Tickets.{is_terminal}

-- The ticket with an entry of history for its phase so far.
abbrev with_entry : TicketFile → String → String → TicketFile
with_entry t iso note = record t {
  history =
      t.history
      ++ record { at = iso; phase = some (phase_name t.phase); note = note; run_id = none } ∷ [];
  updated_at = iso;
}

abbrev pub as_reopened : TicketFile → String → TicketFile
as_reopened t iso =
    record (with_entry t iso
      ("forge issue live again (was " ^^ phase_name t.phase ^^ "); reopened by reconcile")) {
        phase = Phase.planning;
        health = Health.ok;
      }

abbrev reason_name : Option StateReason → String
reason_name none = "unspecified"
reason_name (some StateReason.completed) = "completed"
reason_name (some StateReason.not_planned) = "not_planned"
reason_name (some StateReason.reopened) = "reopened"

abbrev pub closed_phase : Option StateReason → Phase
closed_phase (some StateReason.not_planned) = Phase.abandoned
closed_phase _ = Phase.merged

abbrev pub as_closed : TicketFile → TicketState → String → TicketFile
as_closed t v iso =
    record (with_entry t iso (
      "forge issue closed ("
      ^^ reason_name v.state_reason
      ^^ "); "
      ^^ phase_name (closed_phase v.state_reason)
      ^^ " by reconcile")) { phase = closed_phase v.state_reason; health = Health.done }

abbrev is_reopened : Option TicketState → Bool
is_reopened (some v) = elim v.state_reason [ some StateReason.reopened ↦ true | _ ↦ false ]
is_reopened none = false

abbrev pub closed_verdict : Option TicketState → Option TicketState
closed_verdict none = none
closed_verdict (some v) = elim v.state [
  | OpenState.closed_issue ↦ some v
  | OpenState.open_issue ↦ none
]

abbrev pub safe_get_states : Ports → List String → M (Dict TicketState)
safe_get_states p ks = do
  found ← attempt (ask p (get_states ks) (λ w. p.states w ks))
  pure (get_or found [])

abbrev update_ticket : Ports → String → TicketFile → PassState → M PassState
update_ticket p key t s = do
  save_ticket p key t
  pure (record s { tickets = insert key t s.tickets })

abbrev mark_reopened : String → PassState → PassState
mark_reopened key s = record s {
  report = record s.report { reopened = s.report.reopened ++ key ∷ [] };
}

abbrev mark_closed : String → PassState → PassState
mark_closed key s = record s {
  report = record s.report { closed_by_reconcile = s.report.closed_by_reconcile ++ key ∷ [] };
}

abbrev pub reopen_one : Ports → String → Dict TicketState → String → PassState → M PassState
reopen_one p iso states key s = elim (lookup key s.tickets) [
  | none ↦ pure s
  | some t ↦ elim (is_reopened (lookup key states)) [
    | false ↦ pure s
    | true ↦ do next ← update_ticket p key (as_reopened t iso) s; pure (mark_reopened key next)
  ]
]

abbrev pub close_one : Ports → String → Dict TicketState → String → PassState → M PassState
close_one p iso states key s = elim (lookup key s.tickets) [
  | none ↦ pure s
  | some t ↦ elim (closed_verdict (lookup key states)) [
    | none ↦ pure s
    | some v ↦ do next ← update_ticket p key (as_closed t v iso) s; pure (mark_closed key next)
  ]
]

-- `for (const key of keys) await step(key)`
unfoldable pub in_turn : (String → PassState → M PassState) → List String → PassState → M PassState
in_turn step [] s = pure s
in_turn step (key ∷ ks) s = do next ← step key s; in_turn step ks next

abbrev pub reconcile_keys :
    Ports
    → (String → Dict TicketState → String → PassState → M PassState)
    → List String
    → PassState
    → M PassState
reconcile_keys p step [] s = pure s
reconcile_keys p step (key ∷ ks) s = do
  states ← safe_get_states p (key ∷ ks)
  iso ← the_iso p
  in_turn (step iso states) (key ∷ ks) s

abbrev pub terminal_keys : PassState → List Candidate → List String
terminal_keys s cs = keys_of (keep (λ (c : Candidate). is_terminal (lookup c.key s.tickets)) cs)

unfoldable pub reconcile_reopened : Ports → PassState → List Candidate → M PassState
unfolding in_turn
reconcile_reopened p s cs = reconcile_keys p (reopen_one p) (terminal_keys s cs) s

abbrev pub drift_keys : PassState → List Candidate → List String
drift_keys s cs =
    keep (λ k. not (has_text k (keys_of cs)) && not (is_terminal (lookup k s.tickets)))
      (keys s.tickets)

unfoldable pub reconcile_closed : Ports → PassState → List Candidate → M PassState
unfolding in_turn
reconcile_closed p s cs = reconcile_keys p (close_one p) (drift_keys s cs) s

abbrev slug_of_file : String × TicketFile → String
slug_of_file (key, t) = get_or t.slug ("ticket-" ^^ key)

abbrev pub active_slugs : PassState → List Candidate → List String
active_slugs s cs =
    map (λ (c : Candidate). c.slug)
      (keep (λ (c : Candidate). not (is_terminal (lookup c.key s.tickets))) cs)
    ++ map slug_of_file (keep (λ (e : String × TicketFile). not (is_terminal (some e.1))) s.tickets)

abbrev mark_removed : String → Option (Unit {0}) → PassState → PassState
mark_removed slug none s = s
mark_removed slug (some u) s = record s {
  report = record s.report { worktrees_removed = s.report.worktrees_removed ++ slug ∷ [] };
}

abbrev pub remove_one : Ports → String → PassState → M PassState
remove_one p slug s = do removed ← attempt (reclaim p slug); pure (mark_removed slug removed s)

abbrev pub sweep_one : Ports → List String → String → PassState → M PassState
sweep_one p active slug s = elim (has_text slug active) [
  | true ↦ pure s
  | false ↦ remove_one p slug s
]

unfoldable pub sweep : Ports → List String → List String → PassState → M PassState
sweep p active [] s = pure s
sweep p active (slug ∷ slugs) s = do next ← sweep_one p active slug s; sweep p active slugs next

unfoldable pub garbage_collect_worktrees : Ports → PassState → List Candidate → M PassState
garbage_collect_worktrees p s cs = do
  slugs ← ask p list_worktrees (λ w. w.worktrees)
  sweep p (active_slugs s cs) slugs s
