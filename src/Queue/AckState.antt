-- ===== src/Queue/AckState.antt =====
-- The ack chip and the staleness of acks: src/queue/ackState.ts.
pub mod Laws
use status_pipe.Base.{
  ℕ, ◌*◌, ◌-◌, String, Bool, true, false, Option, none, some, List, [], ◌∷◌, ◌||◌, ◌&&◌, not, any,
  find, first, sort, ltb, leb, if◌then◌else◌, ◌==◌, includes, includes_folded, compare, Ordering,
  get_or, is_some,
}
use status_pipe.Base.Platform.{Platform}
use status_pipe.Protocol.{
  TicketFile, HistoryEntry, OrchestratorFile, LaunchFile, LaunchAgent, planner_id,
}
use status_pipe.Protocol.AckId.{ack_target_for, ack_matches_ticket}
use status_pipe.Protocol.Worker.{nonempty}
use status_pipe.Queue.{
  KnownAck, AckChipState, pending, picked_up, superseded, pickup_unconfirmed, stale, moved_on,
  AckChipDisplay, AckControlDisplay,
}

pub record AckContext : Type 0 where
  pub orchestrator : Option OrchestratorFile
  pub launch : Option LaunchFile
  pub stale_worker_minutes : ℕ
  pub now : ℕ

unfoldable pub parse_time : Platform → Option String → Option ℕ
parse_time os iso = elim (nonempty iso) [ none ↦ none | some text ↦ os.date_parse text ]

abbrev both_passed : ℕ → Option ℕ → Option ℕ → Bool
both_passed created (some started) (some finished) = ltb created started && leb started finished
both_passed created _ _ = false

unfoldable pub pass_completed_since : Platform → ℕ → Option OrchestratorFile → Bool
unfolding parse_time
pass_completed_since os created none = false
pass_completed_since os created (some o) =
    both_passed created (parse_time os o.last_pass_started_at)
      (parse_time os o.last_pass_finished_at)

abbrev tick_minutes : Option LaunchAgent → ℕ → ℕ
tick_minutes none fallback = fallback
tick_minutes (some a) fallback = a.interval_minutes

abbrev launch_agents : Option LaunchFile → List LaunchAgent
launch_agents none = []
launch_agents (some l) = l.agents

unfoldable pub expected_tick_interval_ms : AckContext → ℕ
expected_tick_interval_ms ctx =
    tick_minutes (find (λ (a : LaunchAgent). a.id == planner_id) (launch_agents ctx.launch))
      ctx.stale_worker_minutes
    * 60000

-- `now - created` is compared as an integer in the source: a `created` in the future is not stale in either.
unfoldable pub is_ack_stale : Platform → KnownAck → AckContext → Bool
is_ack_stale os k ctx = elim k.on_disk [
  | false ↦ false
  | true ↦ elim (os.date_parse k.ack.created_at) [
    | none ↦ false
    | some created ↦
        pass_completed_since os created ctx.orchestrator
        || ltb (2 * expected_tick_interval_ms ctx) (ctx.now - created)
  ]
]

abbrev disk_state : Platform → KnownAck → TicketFile → AckContext → AckChipState
disk_state os k t ctx =
    if k.on_disk
    then if ack_matches_ticket k.ack t
      then if is_ack_stale os k ctx then stale else pending
      else moved_on
    else pickup_unconfirmed

-- The history entry that names the ack.
abbrev pub history_note : KnownAck → TicketFile → Option HistoryEntry
history_note k t = find (λ (h : HistoryEntry). includes h.note k.ack.ack_id) t.history

unfoldable pub chip_state_for : Platform → KnownAck → TicketFile → AckContext → AckChipState
chip_state_for os k t ctx = elim (history_note k t) [
  | some h ↦ if includes_folded h.note "supersed" then superseded else picked_up
  | none ↦ disk_state os k t ctx
]

to_chip : KnownAck → AckChipState → AckChipDisplay
to_chip k s = record {
  state = s;
  ack_id = k.ack.ack_id;
  created_at = k.ack.created_at;
  note = k.ack.note;
}

-- Descending by creation; an unreadable time counts as 0.
unfoldable pub newest_first : Platform → KnownAck → KnownAck → Ordering
newest_first os a b =
    compare (get_or (parse_time os (some b.ack.created_at)) 0)
      (get_or (parse_time os (some a.ack.created_at)) 0)

abbrev pub is_pending : AckChipState → Bool
is_pending pending = true
is_pending _ = false

abbrev pub is_picked_up : AckChipState → Bool
is_picked_up picked_up = true
is_picked_up _ = false

abbrev pub is_stale_state : AckChipState → Bool
is_stale_state stale = true
is_stale_state _ = false

unfoldable pub honors_current_request : Platform → KnownAck → TicketFile → AckContext → Bool
honors_current_request os k t ctx =
    is_pending (chip_state_for os k t ctx)
    || (is_picked_up (chip_state_for os k t ctx) && ack_matches_ticket k.ack t)

unfoldable pub newest : Platform → List KnownAck → Option KnownAck
newest os acks = first (sort (newest_first os) acks)

unfoldable pub derive_ack_control :
    Platform → TicketFile → List KnownAck → AckContext → AckControlDisplay
unfolding to_chip
derive_ack_control os t acks ctx = elim (newest os acks) [
  | none ↦ record { actionable = is_some (ack_target_for t); chip = none }
  | some k ↦ record {
    actionable =
        is_some (ack_target_for t)
        && not (honors_current_request os k t ctx || is_stale_state (chip_state_for os k t ctx));
    chip = some (to_chip k (chip_state_for os k t ctx));
  }
]

unfoldable pub has_acked_current_request : Platform → TicketFile → List KnownAck → AckContext → Bool
has_acked_current_request os t acks ctx = any (λ k. honors_current_request os k t ctx) acks

unfoldable pub has_stale_ack : Platform → TicketFile → List KnownAck → AckContext → Bool
has_stale_ack os t acks ctx = any (λ k. is_stale_state (chip_state_for os k t ctx)) acks

unfoldable pub is_acked : Platform → TicketFile → List KnownAck → AckContext → Bool
is_acked os t acks ctx = elim (newest os acks) [
  | none ↦ false
  | some k ↦ is_pending (chip_state_for os k t ctx) || is_picked_up (chip_state_for os k t ctx)
]
