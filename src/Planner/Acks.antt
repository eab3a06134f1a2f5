-- ===== src/Planner/Acks.antt =====
-- The consumption of the ack inbox: src/planner/acks.ts.
pub mod Laws
use status_pipe.Base.{
  String, Bool, true, false, Option, none, some, get_or, List, [], ◌∷◌, ◌++◌, ◌^^◌, Dict, insert,
}
use status_pipe.Protocol.{TicketFile, HistoryEntry, phase_name}
use status_pipe.Protocol.AckId.{ack_matches_ticket}
use status_pipe.Planner.{PlanReport}
use status_pipe.Planner.Effects.{
  Ports, M, ◌>>=◌, ◌>>◌, pure, ask, StoredAck, save_ticket, load_ticket, drop_ack, the_iso,
  list_acks,
}

-- Tickets whose ack was consumed in this pass, with the operator's note.
abbrev pub ConsumedAcks : Type 0
ConsumedAcks = Dict (Option String)

abbrev pub noted : TicketFile → String → String → TicketFile
noted t iso note = record t {
  history =
      t.history
      ++ record { at = iso; phase = some (phase_name t.phase); note = note; run_id = none } ∷ [];
}

abbrev append_history : Ports → TicketFile → String → M (Unit {0})
append_history p t note = do iso ← the_iso p; save_ticket p t.ticket (noted t iso note)

abbrev pub consume_note : String → Option String → Bool → String
consume_note id text true = "owner ack " ^^ id ^^ " consumed: " ^^ get_or text "ready-for-look"
consume_note id text false = "ack " ^^ id ^^ " superseded (state advanced before pickup)"

-- The bookkeeping that ends the handling of an ack with a ticket.
abbrev settled : StoredAck → Bool → ConsumedAcks × PlanReport → ConsumedAcks × PlanReport
settled s true (consumed, report) = (
  insert s.ack.ticket s.ack.note consumed,
  record report { consumed_acks = report.consumed_acks ++ s.ack.ack_id ∷ [] },
)
settled s false (consumed, report) =
    (consumed, record report { superseded_acks = report.superseded_acks ++ s.ack.ack_id ∷ [] })

abbrev consume_known :
    Ports → StoredAck → TicketFile → ConsumedAcks × PlanReport → M (ConsumedAcks × PlanReport)
consume_known p s t acc = do
  let matched = ack_matches_ticket s.ack t
  append_history p t (consume_note s.ack.ack_id s.ack.note matched)
  drop_ack p s.path
  pure (settled s matched acc)

abbrev consume_orphan :
    Ports → StoredAck → ConsumedAcks × PlanReport → M (ConsumedAcks × PlanReport)
consume_orphan p s acc = do
  drop_ack p s.path
  pure (acc.0, record acc.1 { orphaned_acks = acc.1.orphaned_acks ++ s.ack.ack_id ∷ [] })

unfoldable pub consume_one :
    Ports → StoredAck → ConsumedAcks × PlanReport → M (ConsumedAcks × PlanReport)
consume_one p s acc = do
  found ← load_ticket p s.ack.ticket
  elim found [ none ↦ consume_orphan p s acc | some t ↦ consume_known p s t acc ]

unfoldable pub consume_each :
    Ports → List StoredAck → ConsumedAcks × PlanReport → M (ConsumedAcks × PlanReport)
consume_each p [] acc = pure acc
consume_each p (s ∷ ss) acc = do next ← consume_one p s acc; consume_each p ss next

unfoldable pub consume_acks : Ports → PlanReport → M (ConsumedAcks × PlanReport)
consume_acks p report = do inbox ← ask p list_acks (λ w. w.inbox); consume_each p inbox ([], report)
