-- ===== src/Planner/Acks/Laws.antt =====
-- The ack inbox of src/planner/acks.ts when calls throw.
use status_pipe.Base.{◌≡◌, ◌⊎◌, some, lookup, lookup-insert_self, arith}
use status_pipe.Protocol.{TicketFile}
use status_pipe.Protocol.AckId.{ack_matches_ticket}
use status_pipe.Planner.{PlanReport}
use status_pipe.Planner.Acks.{ConsumedAcks, consume_one, consume_note, noted}
use status_pipe.Planner.Effects.{Ports, World, StoredAck, logged, read_ticket}
use status_pipe.Planner.Effects.Outcomes.{Ends}

-- For an ack whose ticket has a file that names the key it is stored under: whatever call throws, either the inbox is as it
-- was, or the file is the one read with the note of the ack added at the end of its history.
pub consume_one-keeps_note :
    (p : Ports) (s : StoredAck) (t : TicketFile) (acc : ConsumedAcks × PlanReport) (w : World)
    → lookup s.ack.ticket w.tickets ≡ some t
    → t.ticket ≡ s.ack.ticket
    → Ends
        (λ v.
          (v.inbox ≡ w.inbox)
          ⊎ (lookup s.ack.ticket v.tickets
              ≡ some (
                  noted t
                    (p.iso (logged (read_ticket s.ack.ticket) w))
                    (consume_note s.ack.ack_id s.ack.note (ack_matches_ticket s.ack t)))))
        (consume_one p s acc w)
unfolding consume_one
consume_one-keeps_note p s t acc w e k = ground (
  arith,
  e,
  k,
  lookup-insert_self t.ticket
      (noted t (p.iso (logged (read_ticket s.ack.ticket) w))
        (consume_note s.ack.ack_id s.ack.note (ack_matches_ticket s.ack t)))
      w.tickets,
)
