-- ===== src/Planner/Schedule/Tickets.antt =====
-- The ticket files that a pass writes: asReconciled, newTicket and stamped of src/planner/schedule.ts.
use status_pipe.Base.{ℕ, String, Bool, true, false, Option, none, some, [], ◌∷◌, ◌++◌, ◌^^◌}
use status_pipe.Base.Platform.{Platform}
use status_pipe.Protocol.{
  TicketFile, Phase, Health, WorkerState, WorkerStatus, DispatchKind, phase_name,
}
use status_pipe.Protocol.Worker.{or_else_text}
use status_pipe.Planner.{Candidate}

abbrev failed_worker : WorkerState → WorkerState
failed_worker s = record s { status = WorkerStatus.error }

-- It is called on a ticket with a worker only.
abbrev pub as_reconciled : Platform → TicketFile → String → ℕ → TicketFile
as_reconciled os t iso stale_minutes = record t {
  worker = elim t.worker [ none ↦ none | some s ↦ some (failed_worker s) ];
  history =
      t.history
      ++ record {
        at = iso;
        phase = some (phase_name t.phase);
        note =
            "worker presumed crashed (heartbeat stale > "
            ^^ os.show_number stale_minutes
            ^^ "m); eligible for relaunch";
        run_id = none;
      }
        ∷ [];
  updated_at = iso;
}

abbrev pub new_ticket : Candidate → String → String → TicketFile
new_ticket c repo iso = record {
  schema_version = 1;
  repo = repo;
  ticket = c.key;
  title = c.title;
  slug = none;
  url = c.url;
  phase = Phase.planning;
  health = Health.ok;
  headline = "";
  waiting_on = none;
  prs = [];
  blockers = [];
  sub_tickets = [];
  agent_comment_ids = [];
  history = [];
  worker = none;
  updated_at = iso;
}

abbrev own_slug : Candidate → Option String
own_slug c = elim c.kind [ DispatchKind.epic ↦ some c.slug | DispatchKind.ticket ↦ none ]

abbrev base_ticket : Option TicketFile → Candidate → String → String → TicketFile
base_ticket (some t) c repo iso = t
base_ticket none c repo iso = new_ticket c repo iso

abbrev pub stamped : Option TicketFile → Candidate → String → String → TicketFile
stamped existing c repo iso = record (base_ticket existing c repo iso) {
  slug = or_else_text (base_ticket existing c repo iso).slug (own_slug c);
  worker = some (record {
    status = WorkerStatus.running;
    task_id = none;
    started_at = some iso;
    heartbeat_at = some iso;
  });
  updated_at = iso;
}

abbrev pub is_terminal_phase : Phase → Bool
is_terminal_phase Phase.merged = true
is_terminal_phase Phase.abandoned = true
is_terminal_phase _ = false

abbrev pub is_terminal : Option TicketFile → Bool
is_terminal none = false
is_terminal (some t) = is_terminal_phase t.phase
