-- ===== src/Tests/Stores.antt =====
-- The protocol directory's theorems at one ticket file and one ack, and an orchestrator file.
use status_pipe.Base.{
  String, ◌≡◌, refl, inr, false, none, some, [], ◌∷◌, ◌^^◌, ◌==◌, if◌then◌else◌, has_text, keys,
  lookup,
}
use status_pipe.Base.Platform.{Platform}
use status_pipe.Protocol.{OrchestratorFile, DispatchKind, AckFile, AckWaitingKind, WaitingKind}
use status_pipe.Protocol.AckId.{BuildAckOptions, build_ack, ack_for, derive_ack_id, ack_target_for}
use status_pipe.Protocol.Json.{Engine, Json, Object, bad, good, get, text}
use status_pipe.Protocol.Json.Writing.{written}
use status_pipe.Protocol.Store.{
  content, as_json_object, read_merge_base, write_ticket, read_ticket, write_ack_file,
}
use status_pipe.Protocol.Store.Fields.{ticket_fields, ack_fields, overlay}
use status_pipe.Protocol.Store.Tickets.{write_ticket-overlays}
use status_pipe.Protocol.Store.Acks.{write_ack_file-delivers, Delivered}
use status_pipe.Tests.{test_os, owner_ticket}

-- An engine that knows the text "old" as the first value and writes the second as "new".
abbrev engine : Json → Json → Engine
engine old new = record {
  json_parse = λ t. if t == "old" then good old else if t == "new" then good new else bad "?";
  stringify = λ v. "new";
  to_text = λ v. "?";
}

-- A ticket file on which the agent keeps its plan.
abbrev pub old_members : Object
old_members = ("phase", text "merged") ∷ ("plan", text "mine") ∷ []

abbrev ticket_engine : Engine
ticket_engine =
    engine (written old_members) (written (overlay old_members (ticket_fields owner_ticket)))

write_ticket-overlays_example :
    (raw : String) × (write_ticket ticket_engine "7" (content "old") owner_ticket
      ≡ inr (content raw))
    × (read_ticket ticket_engine "7" (content raw) ≡ some owner_ticket)
    × (o : Object) × (as_json_object ticket_engine raw ≡ some o)
    × ((k : String)
        → has_text k (keys (ticket_fields owner_ticket)) ≡ false
        → get k o ≡ get k old_members)
unfolding read_merge_base as_json_object
write_ticket-overlays_example =
    write_ticket-overlays ticket_engine "7" (content "old") owner_ticket old_members
      (record { version = refl; waiting = refl; heads = tt; noted = tt }) refl refl

abbrev pub pass_file : OrchestratorFile
pass_file = record {
  schema_version = 1;
  repo = some "/repo";
  pass_count = some 4;
  last_pass_started_at = some "t0";
  last_pass_finished_at = some "t1";
  stale_worker_minutes = none;
  parked = some (record { since = "t1"; reason = "waiting"; recheck_after = none });
  dispatch = some (record {
    max_concurrent = 2;
    items =
        record { key = "7"; kind = DispatchKind.ticket; prompt = "/work 7"; worktree = "/w" } ∷ [];
  });
  note = none;
}

abbrev ack_os : Platform
ack_os = record test_os { sha256_head = λ s. "00c0ffee" }

abbrev click : BuildAckOptions
click = record { ticket = owner_ticket; note = some "go"; created_at = "t2"; created_by = "me" }

abbrev owner_ack : AckFile
owner_ack = record {
  schema_version = 1;
  ticket = "7";
  ack_id = "00c0ffee";
  target = record {
    waiting_kind = AckWaitingKind.on WaitingKind.owner;
    waiting_since = "t0";
    ref = none;
    pr = none;
  };
  state_updated_at = "t0";
  note = some "go";
  created_at = "t2";
  created_by = "me";
}

abbrev inbox : String → String → String
inbox ticket name = "inbox/" ^^ ticket ^^ "/" ^^ name

abbrev ack_engine : Engine
ack_engine = engine Json.null (written (ack_fields owner_ack))

write_ack_file-delivers_example :
    Delivered ack_engine inbox
      (("inbox/9/ack-1.json", "other") ∷ [])
      owner_ack
      (write_ack_file inbox ack_engine (("inbox/9/ack-1.json", "other") ∷ []) owner_ack)
unfolding build_ack ack_for derive_ack_id ack_target_for lookup
write_ack_file-delivers_example =
    write_ack_file-delivers ack_engine ack_os inbox (("inbox/9/ack-1.json", "other") ∷ []) click
      owner_ack refl (λ t. refl) refl refl refl refl
