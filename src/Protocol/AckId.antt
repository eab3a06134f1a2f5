-- ===== src/Protocol/AckId.antt =====
-- The identity and the target of an ack: src/protocol/ackId.ts.
pub mod Laws
use status_pipe.Base.{String, Bool, false, Option, none, some, [], ◌∷◌, ◌^^◌, ◌==◌, ◌&&◌}
use status_pipe.Base.Platform.{Platform}
use status_pipe.Protocol.{TicketFile, AckFile, AckTarget, AckWaitingKind, kind_name}

unfoldable pub derive_ack_id : Platform → String → String → String → String
derive_ack_id os ticket kind since = os.sha256_head (ticket ^^ kind ^^ since)

-- `none` where the ticket has nothing to ack.
unfoldable pub ack_target_for : TicketFile → Option AckTarget
ack_target_for t = elim t.waiting_on [
  | some w ↦ some (record {
    waiting_kind = AckWaitingKind.on w.kind;
    waiting_since = w.since;
    ref = w.ref;
    pr = w.pr;
  })
  | none ↦ elim t.blockers [
    | [] ↦ none
    | b ∷ bs ↦ some (record {
      waiting_kind = AckWaitingKind.blockers;
      waiting_since = t.updated_at;
      ref = none;
      pr = none;
    })
  ]
]

pub record BuildAckOptions : Type 0 where
  pub ticket : TicketFile
  pub note : Option String
  pub created_at : String
  pub created_by : String

unfoldable pub ack_for : Platform → BuildAckOptions → AckTarget → AckFile
ack_for os o target = record {
  schema_version = 1;
  ticket = o.ticket.ticket;
  ack_id = derive_ack_id os o.ticket.ticket (kind_name target.waiting_kind) target.waiting_since;
  target = target;
  state_updated_at = o.ticket.updated_at;
  note = o.note;
  created_at = o.created_at;
  created_by = o.created_by;
}

unfoldable pub build_ack : Platform → BuildAckOptions → Option AckFile
unfolding ack_for
build_ack os o = elim (ack_target_for o.ticket) [
  | none ↦ none
  | some target ↦ some (ack_for os o target)
]

-- The two targets name the same request.
abbrev pub same_request : AckTarget → AckTarget → Bool
same_request a b =
    kind_name a.waiting_kind == kind_name b.waiting_kind && a.waiting_since == b.waiting_since

unfoldable pub ack_matches_ticket : AckFile → TicketFile → Bool
ack_matches_ticket ack t = elim (ack_target_for t) [
  | none ↦ false
  | some current ↦ same_request current ack.target
]
