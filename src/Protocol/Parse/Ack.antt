-- ===== src/Protocol/Parse/Ack.antt =====
-- parseAckFile of src/protocol/parse.ts.
use status_pipe.Base.{
  ℕ, String, Bool, Option, none, some, get_or, eqb, leb, ◌&&◌, ◌||◌, codes, length, every, ◌^^◌,
  ◌==◌, if◌then◌else◌,
}
use status_pipe.Protocol.{AckFile, AckTarget, ParseResult, parsed, failed, ParseFailure, kind_name}
use status_pipe.Protocol.Json.{
  Json, Object, Engine, get, str, num, obj, named_in, guard, ◌>>=◌, ◌>>◌,
}
use status_pipe.Protocol.Worker.{nonempty}
use status_pipe.Protocol.Parse.{parse_versioned, if_parsed, ack_waiting_kinds}

unfoldable pub ack_target_from_json : Option Json → Option AckTarget
ack_target_from_json v = do
  t ← obj v
  kind ← named_in kind_name ack_waiting_kinds (nonempty (str (get "waitingKind" t)))
  since ← nonempty (str (get "waitingSince" t))
  some (record {
    waiting_kind = kind;
    waiting_since = since;
    ref = str (get "ref" t);
    pr = num (get "pr" t);
  })

abbrev is_hex : ℕ → Bool
is_hex c = (leb b'0' c && leb c b'9') || (leb b'a' c && leb c b'f')

-- `/^[0-9a-f]{8}$/`
abbrev pub is_ack_id : String → Bool
is_ack_id s = eqb (length (codes s)) 8 && every is_hex (codes s)

pub record AckIdentity : Type 0 where
  pub ticket : String
  pub ack_id : String
  pub target : AckTarget

unfoldable pub ack_identity_from_json : Object → Option AckIdentity
unfolding ack_target_from_json
ack_identity_from_json o = do
  ticket ← nonempty (str (get "ticket" o))
  ack_id ← nonempty (str (get "ackId" o))
  guard (is_ack_id ack_id)
  target ← ack_target_from_json (get "target" o)
  some (record { ticket = ticket; ack_id = ack_id; target = target })

abbrev pub ack_from_json : Object → AckIdentity → AckFile
ack_from_json o identity = record {
  schema_version = 1;
  ticket = identity.ticket;
  ack_id = identity.ack_id;
  target = identity.target;
  state_updated_at = get_or (str (get "stateUpdatedAt" o)) "";
  note = str (get "note" o);
  created_at = get_or (str (get "createdAt" o)) "";
  created_by = get_or (str (get "createdBy" o)) "";
}

abbrev identified : String → Object → Option AckIdentity → ParseResult AckFile
identified raw o none = failed ParseFailure.corrupt raw "missing/invalid ticket, ackId, or target"
identified raw o (some identity) = parsed (ack_from_json o identity)

unfoldable pub ack_of_kind : String → Object → ParseResult AckFile
unfolding ack_identity_from_json
ack_of_kind raw o =
    let kind = get_or (str (get "kind" o)) "ready-for-look" in
    if kind == "ready-for-look"
    then identified raw o (ack_identity_from_json o)
    else failed ParseFailure.unknown_schema raw
        ("unknown ack kind \"" ^^ kind ^^ "\" — update status-pipe")

unfoldable pub parse_ack_file : Engine → String → ParseResult AckFile
unfolding ack_of_kind
parse_ack_file js raw = if_parsed (parse_versioned js raw) (ack_of_kind raw)
