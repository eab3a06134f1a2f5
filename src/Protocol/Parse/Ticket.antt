-- ===== src/Protocol/Parse/Ticket.antt =====
-- parseTicketFile of src/protocol/parse.ts.
use status_pipe.Base.{String, Option, some, get_or, map, map_some}
use status_pipe.Protocol.{
  TicketFile, WaitingOn, TicketPr, HistoryEntry, WorkerState, SubTicket, Phase, Health, CiState,
  PrState, ParseResult, parsed, phase_name,
}
use status_pipe.Protocol.Json.{
  Json, Object, Engine, get, str, num, str_array, obj, obj_array, named_in, is_true, ◌>>=◌,
}
use status_pipe.Protocol.Worker.{nonempty}
use status_pipe.Protocol.Parse.{
  parse_versioned, if_parsed, phases, healths, waiting_kinds, ci_states, pr_states, worker_statuses,
  health_name, waiting_name, ci_name, pr_state_name, status_name,
}

unfoldable pub parse_waiting_on : Option Json → Option WaitingOn
parse_waiting_on v = do
  w ← obj v
  kind ← named_in waiting_name waiting_kinds (nonempty (str (get "kind" w)))
  since ← nonempty (str (get "since" w))
  some (record {
    kind = kind;
    ref = str (get "ref" w);
    pr = num (get "pr" w);
    since = since;
    detail = str (get "detail" w);
  })

unfoldable pub parse_pr : Object → Option TicketPr
parse_pr p = do
  number ← num (get "number" p)
  head ← nonempty (str (get "head" p))
  base ← nonempty (str (get "base" p))
  some (record {
    number = number;
    url = str (get "url" p);
    head = head;
    base = base;
    draft = is_true (get "draft" p);
    state = get_or (named_in pr_state_name pr_states (str (get "state" p))) PrState.open_pr;
    ci = get_or (named_in ci_name ci_states (str (get "ci" p))) CiState.unknown;
    part = str (get "part" p);
  })

unfoldable pub parse_history_entry : Object → Option HistoryEntry
parse_history_entry h = do
  at ← nonempty (str (get "at" h))
  note ← str (get "note" h)
  some (record { at = at; phase = str (get "phase" h); note = note; run_id = str (get "runId" h) })

unfoldable pub parse_worker : Option Json → Option WorkerState
parse_worker v = do
  w ← obj v
  status ← named_in status_name worker_statuses (nonempty (str (get "status" w)))
  some (record {
    status = status;
    task_id = str (get "taskId" w);
    started_at = str (get "startedAt" w);
    heartbeat_at = str (get "heartbeatAt" w);
  })

unfoldable pub sub_ticket : Object → SubTicket
sub_ticket s = record {
  key = get_or (str (get "key" s)) "";
  url = str (get "url" s);
  topic = get_or (str (get "topic" s)) "";
  status = str (get "status" s);
}

unfoldable pub ticket_from_json : Object → String → TicketFile
unfolding parse_waiting_on parse_pr parse_history_entry parse_worker sub_ticket
ticket_from_json o fallback_key = record {
  schema_version = 1;
  repo = get_or (str (get "repo" o)) "";
  ticket = get_or (str (get "ticket" o)) fallback_key;
  title = get_or (str (get "title" o)) fallback_key;
  slug = str (get "slug" o);
  url = str (get "url" o);
  phase = get_or (named_in phase_name phases (str (get "phase" o))) Phase.planning;
  health = get_or (named_in health_name healths (str (get "health" o))) Health.ok;
  headline = get_or (str (get "headline" o)) "";
  waiting_on = parse_waiting_on (get "waitingOn" o);
  prs = map_some parse_pr (obj_array (get "prs" o));
  blockers = str_array (get "blockers" o);
  sub_tickets = map sub_ticket (obj_array (get "subTickets" o));
  agent_comment_ids = str_array (get "agentCommentIds" o);
  history = map_some parse_history_entry (obj_array (get "history" o));
  worker = parse_worker (get "worker" o);
  updated_at = get_or (str (get "updatedAt" o)) "";
}

-- `fallback_key` is the stem of the file's name.
unfoldable pub parse_ticket_file : Engine → String → String → ParseResult TicketFile
unfolding ticket_from_json
parse_ticket_file js raw fallback_key =
    if_parsed (parse_versioned js raw) λ o. parsed (ticket_from_json o fallback_key)
