-- ===== src/Protocol/Store/RoundTrip.antt =====
-- Members that were written, read back: src/planner/protocolIo.ts over src/protocol/parse.ts.
use status_pipe.Base.{
  String, ◌≡◌, refl, sym, Option, none, some, List, [], ◌∷◌, map, map_some, All, All-impl, lookup,
  arith,
}
use status_pipe.Protocol.{
  TicketFile, WaitingOn, TicketPr, SubTicket, HistoryEntry, WorkerState, WaitingKind, WorkerStatus,
}
use status_pipe.Protocol.Json.{Object, get}
use status_pipe.Protocol.Json.Writing.{
  members_of-to_members, obj_array-objects, str_array-texts, str-text_or_null, num-number_or_null,
  map_some-map, is_true-bool,
}
use status_pipe.Protocol.Worker.{nonempty}
use status_pipe.Protocol.Parse.{waiting_name, status_name}
use status_pipe.Protocol.Parse.Ticket.{
  parse_waiting_on, parse_pr, parse_history_entry, parse_worker, sub_ticket, ticket_from_json,
}
use status_pipe.Protocol.Store.Fields.{
  overlay, or_null, waiting_fields, pr_fields, sub_ticket_fields, history_fields, worker_fields,
  ticket_fields,
}
use status_pipe.Protocol.Store.Overlay.{
  or_else, get-overlay, named-phase, named-health, named-waiting, named-ci, named-pr_state,
  named-status,
}

-- The text is not empty.
abbrev pub Filled : String → Type 0
Filled s = nonempty (some s) ≡ some s

abbrev pub OrNone {ℓ κ} : {A : Type ℓ} → (A → Type κ) → Option A → Type κ
OrNone P none = Unit
OrNone P (some a) = P a

-- The texts that the reader requires are there.
pub record IsTicket (t : TicketFile) : Type 0 where
  pub version : t.schema_version ≡ 1
  pub waiting : OrNone (λ w. Filled w.since) t.waiting_on
  pub heads : All (λ p. Filled p.head × Filled p.base) t.prs
  pub noted : All (λ h. Filled h.at) t.history

filled-waiting : (k : WaitingKind) → Filled (waiting_name k)
filled-waiting WaitingKind.build = refl
filled-waiting _ = refl

filled-status : (s : WorkerStatus) → Filled (status_name s)
filled-status WorkerStatus.idle = refl
filled-status _ = refl

ruleset reading = (
  str-text_or_null, num-number_or_null, str_array-texts, obj_array-objects, members_of-to_members,
  named-phase, named-health, named-waiting, named-ci, named-pr_state, named-status,
)

parse_waiting_on-fields :
    (o : Option WaitingOn)
    → OrNone (λ w. Filled w.since) o
    → parse_waiting_on (some (or_null waiting_fields o)) ≡ o
unfolding parse_waiting_on lookup
parse_waiting_on-fields none h = refl
parse_waiting_on-fields (some w) h = simp (reading, filled-waiting, h)

parse_pr-fields : (p : TicketPr) → Filled p.head × Filled p.base → parse_pr (pr_fields p) ≡ some p
unfolding parse_pr lookup
parse_pr-fields p h = simp (reading, h.0, h.1, is_true-bool)

parse_history-fields :
    (e : HistoryEntry) → Filled e.at → parse_history_entry (history_fields e) ≡ some e
unfolding parse_history_entry lookup
parse_history-fields e h = simp (reading, h)

sub_ticket-fields : (s : SubTicket) → sub_ticket (sub_ticket_fields s) ≡ s
unfolding sub_ticket lookup
sub_ticket-fields s = simp reading

sub_tickets-fields : (ss : List SubTicket) → map sub_ticket (map sub_ticket_fields ss) ≡ ss
sub_tickets-fields [] = refl
sub_tickets-fields (s ∷ ss) = rw (sub_ticket-fields s, sub_tickets-fields ss)

parse_worker-fields : (w : Option WorkerState) → parse_worker (some (or_null worker_fields w)) ≡ w
unfolding parse_worker lookup
parse_worker-fields none = refl
parse_worker-fields (some w) = simp (reading, filled-status)

prs-fields :
    (ps : List TicketPr)
    → All (λ p. Filled p.head × Filled p.base) ps
    → map_some parse_pr (map pr_fields ps) ≡ ps
prs-fields ps h = map_some-map parse_pr pr_fields ps (All-impl _ _ parse_pr-fields ps h)

history-fields :
    (es : List HistoryEntry)
    → All (λ h. Filled h.at) es
    → map_some parse_history_entry (map history_fields es) ≡ es
history-fields es h =
    map_some-map parse_history_entry history_fields es (All-impl _ _ parse_history-fields es h)

pub get-written_ticket :
    (o : Object) (t : TicketFile) (k : String)
    → get k (overlay o (ticket_fields t)) ≡ or_else (get k (ticket_fields t)) (get k o)
get-written_ticket o t k = get-overlay k o (ticket_fields t) (ground arith)

-- A ticket is read off its own members.
ticket_from_json-fields :
    (key : String) (t : TicketFile) → IsTicket t → ticket_from_json (ticket_fields t) key ≡ t
unfolding ticket_from_json lookup
ticket_from_json-fields key t v = simp (
  reading,
  prs-fields t.prs v.heads,
  history-fields t.history v.noted,
  sub_tickets-fields,
  parse_worker-fields,
  parse_waiting_on-fields t.waiting_on v.waiting,
  sym v.version,
)

-- What is laid over an object is read off it, whatever lies below.
pub ticket_from_json-overlay :
    (o : Object) (key : String) (t : TicketFile)
    → IsTicket t
    → ticket_from_json (overlay o (ticket_fields t)) key ≡ t
unfolding ticket_from_json lookup
ticket_from_json-overlay o key t v =
    let g = get-written_ticket o t in
    rw
      (
        g "repo",
        g "ticket",
        g "title",
        g "slug",
        g "url",
        g "phase",
        g "health",
        g "headline",
        g "waitingOn",
        g "prs",
        g "blockers",
        g "subTickets",
        g "agentCommentIds",
        g "history",
        g "worker",
        g "updatedAt",
      )
      (ticket_from_json-fields key t v)
