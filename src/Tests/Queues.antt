-- ===== src/Tests/Queues.antt =====
-- The queue's theorems at one repository with one ticket that waits on its owner.
use mathlib.Core.List.{Mem, Perm, mem-cons_self}
use status_pipe.Base.{◌+◌, ◌≡◌, refl, none, some, true, false, [], ◌∷◌, length, any, All}
use status_pipe.Base.Order.{IsOrdered}
use status_pipe.Protocol.{AckFile, parsed, AckWaitingKind, WaitingKind}
use status_pipe.Protocol.AckId.{BuildAckOptions}
use status_pipe.Queue.{RepoState, TicketEntry, QueueModelInput, KnownAck}
use status_pipe.Queue.Lanes.{LaneContext, assign_lane}
use status_pipe.Queue.Lanes.Priority.{IsRight, assign_lane-IsRight}
use status_pipe.Queue.AckState.{AckContext}
use status_pipe.Queue.Cards.{entry_card}
use status_pipe.Queue.Model.{build_display_state, all_cards}
use status_pipe.Queue.Model.Laws.{
  StandsAbove, cards-IsOrdered-perm, counts-total, entry_card-shown, hidden_cards, HidesQuiet,
}
use status_pipe.Protocol.{AgentLifetime}
use status_pipe.Queue.{AgentProcessState, AgentRunState}
use status_pipe.Queue.Model.{repo_launchers}
use status_pipe.Queue.Model.Launchers.{live_agent-shown, shows}
use status_pipe.Tests.{test_os, owner_ticket}

abbrev lane_ctx : LaneContext
lane_ctx = record {
  stale_worker_minutes = 30;
  now = 2000;
  enrichment = none;
  request_acked = false;
  stale_ack = false;
  pr_rows = [];
}

assign_lane-IsRight_example :
    IsRight test_os owner_ticket lane_ctx (assign_lane test_os owner_ticket lane_ctx)
assign_lane-IsRight_example = assign_lane-IsRight test_os owner_ticket lane_ctx

abbrev entry : TicketEntry
entry = record { key = "7"; parsed = parsed owner_ticket }

abbrev repo : RepoState
repo = record {
  repo_root = "/repo";
  name = "repo";
  forge_id = none;
  capabilities = none;
  monitor_only = false;
  issues_url = none;
  orchestrator = none;
  config = none;
  launch = none;
  tickets = entry ∷ [];
  acks = [];
  enrichment = none;
}

abbrev pub input : QueueModelInput
input = record {
  repos = repo ∷ [];
  agents = [];
  workers = [];
  now = 2000;
  settings = record { stale_worker_minutes_default = 30; quiet_retention_hours = 24 };
}

cards-IsOrdered-perm_example :
    IsOrdered (StandsAbove test_os) (build_display_state test_os input).cards
    × Perm (build_display_state test_os input).cards (all_cards test_os input)
cards-IsOrdered-perm_example = cards-IsOrdered-perm test_os input

counts-total_example :
    let s = build_display_state test_os input in
    (s.counts.needs_you + s.counts.waiting + s.counts.quiet + hidden_cards s.cards ≡ length s.cards)
    × All HidesQuiet s.cards
counts-total_example = counts-total test_os input

entry_card-shown_example :
    Mem (entry_card test_os repo input entry) (build_display_state test_os input).cards
entry_card-shown_example = entry_card-shown test_os input repo entry mem-cons_self mem-cons_self

abbrev ack_ctx : AckContext
ack_ctx = record { orchestrator = none; launch = none; stale_worker_minutes = 30; now = 2000 }

abbrev click : BuildAckOptions
click = record { ticket = owner_ticket; note = some "done"; created_at = "t1"; created_by = "op" }

abbrev clicked : AckFile
clicked = record {
  schema_version = 1;
  ticket = "7";
  ack_id = "7ownert0";
  target = record {
    waiting_kind = AckWaitingKind.on WaitingKind.owner;
    waiting_since = "t0";
    ref = none;
    pr = none;
  };
  state_updated_at = "t0";
  note = some "done";
  created_at = "t1";
  created_by = "op";
}

-- An ack of another request, whose time does not read.
abbrev elder : KnownAck
elder = record { ack = record clicked { ack_id = "old"; created_at = "" }; on_disk = true }

abbrev tick_runner : AgentProcessState
tick_runner = record {
  repo_root = "/repo";
  agent_id = "tick";
  title = "Tick";
  lifetime = AgentLifetime.scheduled;
  state = AgentRunState.scheduled;
  next_tick_at = none;
  running_since = none;
  last_output_at = none;
  consecutive_failures = 0;
  last_exit_code = none;
  detail = none;
}

live_agent-shown_example : any (shows "tick") (repo_launchers repo (tick_runner ∷ [])) ≡ true
live_agent-shown_example = live_agent-shown repo (tick_runner ∷ []) "tick" refl refl
