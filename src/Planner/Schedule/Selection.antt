-- ===== src/Planner/Schedule/Selection.antt =====
-- Which candidates a pass may dispatch and in which order: eligible, selectable and ordered of
-- src/planner/schedule.ts.
pub mod Laws
use status_pipe.Base.{
  ℕ, String, Bool, true, false, not, Option, none, some, get_or, List, map, ◌&&◌, ◌||◌, keep, has,
  has_text, lookup, sort, compare, Ordering, ◌or_else◌,
}
use status_pipe.Base.Platform.{Platform}
use status_pipe.Protocol.{TicketFile, Health}
use status_pipe.Planner.{Candidate, PassState}
use status_pipe.Planner.Schedule.Tickets.{is_terminal_phase}

pub record Selectable : Type 0 where
  pub candidate : Candidate
  pub ticket : Option TicketFile
  pub ack_consumed : Bool

abbrev idles : Health → Bool
idles Health.waiting = true
idles Health.blocked = true
idles _ = false

abbrev pub eligible : Option TicketFile → Bool → Bool
eligible none ack_consumed = true
eligible (some t) ack_consumed =
    not (is_terminal_phase t.phase) && (not (idles t.health) || ack_consumed)

abbrev pub updated_at_ms : Platform → Option TicketFile → ℕ
updated_at_ms os none = 0
updated_at_ms os (some t) = get_or (os.date_parse t.updated_at) 0

abbrev pub as_selectable : PassState → Candidate → Selectable
as_selectable state c = record {
  candidate = c;
  ticket = lookup c.key state.tickets;
  ack_consumed = has c.key state.consumed;
}

abbrev pub selectable : List String → PassState → List Candidate → List Selectable
selectable live state candidates =
    keep (λ (s : Selectable). eligible s.ticket s.ack_consumed)
      (map (as_selectable state) (keep (λ (c : Candidate). not (has_text c.key live)) candidates))

-- Consumers of an ack in front.
abbrev pub ack_rank : Selectable → ℕ
ack_rank s = elim s.ack_consumed [ true ↦ 0 | false ↦ 1 ]

abbrev pub compare_selectable : Platform → Selectable → Selectable → Ordering
compare_selectable os a b =
    compare (ack_rank a) (ack_rank b)
    or_else compare (updated_at_ms os a.ticket) (updated_at_ms os b.ticket)

abbrev pub ordered : Platform → List Selectable → List Selectable
ordered os items = sort (compare_selectable os) items
