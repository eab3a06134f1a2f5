-- ===== src/Protocol/Store.antt =====
-- The protocol directory as text files: readTicket, writeTicket, readOrchestrator, writeOrchestrator and readAck of
-- src/planner/protocolIo.ts, and src/protocol/ackWriter.ts without the sweep. A write is one atomic replacement.
pub mod Overlay
pub mod RoundTrip
pub mod Tickets
pub mod Passes
pub mod Acks
pub mod Fields
use status_pipe.Base.{
  String, Bool, true, false, Option, none, some, [], ◌∷◌, ◌^^◌, Dict, lookup, insert, remove, has,
  if◌then◌else◌, ◌⊎◌, inl, inr,
}
use status_pipe.Protocol.{TicketFile, OrchestratorFile, AckFile, ParseResult, parsed, failed}
use status_pipe.Protocol.Json.{Engine, Decoded, bad, good, Object, Json, obj}
use status_pipe.Protocol.Json.Writing.{written}
use status_pipe.Protocol.Parse.Ticket.{parse_ticket_file}
use status_pipe.Protocol.Parse.Orchestrator.{parse_orchestrator_file}
use status_pipe.Protocol.Parse.Ack.{parse_ack_file}
use status_pipe.Protocol.Store.Fields.{ticket_fields, orchestrator_fields, ack_fields, overlay}

-- What reading a file meets.
pub data Disk : Type 0 where
  absent unreadable : Disk
  content : (raw : String) → Disk

-- `readFileOrNull`
abbrev pub read_file_or_null : Disk → Option String
read_file_or_null (content raw) = some raw
read_file_or_null _ = none

abbrev pub value_or_null {ℓ} : {A : Type ℓ} → ParseResult A → Option A
value_or_null (parsed a) = some a
value_or_null (failed reason raw detail) = none

pub data MergeBase : Type 0 where
  threw : (message : String) → MergeBase
  base : Object → MergeBase

module _ (js : Engine) where
  unfoldable pub read_ticket : String → Disk → Option TicketFile
  read_ticket key disk = elim (read_file_or_null disk) [
    | none ↦ none
    | some raw ↦ value_or_null (parse_ticket_file js raw key)
  ]

  unfoldable pub read_orchestrator : Disk → Option OrchestratorFile
  read_orchestrator disk = elim (read_file_or_null disk) [
    | none ↦ none
    | some raw ↦ value_or_null (parse_orchestrator_file js raw)
  ]

  unfoldable pub read_ack : Disk → Option AckFile
  read_ack disk = elim (read_file_or_null disk) [
    | none ↦ none
    | some raw ↦ value_or_null (parse_ack_file js raw)
  ]

  unfoldable pub as_json_object : String → Option Object
  as_json_object raw = elim (js.json_parse raw) [ bad message ↦ none | good v ↦ obj (some v) ]

  abbrev base_of : String → Option Object → MergeBase
  base_of name none =
      threw ("refusing to stamp a corrupt ticket file (" ^^ name ^^ ") — fix or delete it")
  base_of name (some o) = base o

  unfoldable pub read_merge_base : String → Disk → MergeBase
  unfolding as_json_object
  read_merge_base name absent = base []
  read_merge_base name unreadable = threw "unreadable"
  read_merge_base name (content raw) = base_of name (as_json_object raw)

  -- The object of the file that a write leaves.
  abbrev pub merged : Object → TicketFile → Json
  merged existing t = written (overlay existing (ticket_fields t))

  -- The file afterwards, or the error that leaves it as it was.
  unfoldable pub write_ticket : String → Disk → TicketFile → String ⊎ Disk
  unfolding read_merge_base
  write_ticket key disk t = elim (read_merge_base (key ^^ ".json") disk) [
    | threw message ↦ inl message
    | base existing ↦ inr (content (js.stringify (merged existing t)))
  ]

  abbrev pub write_orchestrator : OrchestratorFile → Disk
  write_orchestrator file = content (js.stringify (written (orchestrator_fields file)))

pub data WriteAckResult : Type 0 where
  created already_sent : WriteAckResult

pub data WithdrawResult : Type 0 where
  withdrawn already_gone : WithdrawResult

-- `path.join(protocolDir, 'inbox', ticket, name)` is a parameter.
module _ (inbox_path : String → String → String) where
  abbrev pub ack_file_path : String → String → String
  ack_file_path ticket ack_id = inbox_path ticket ("ack-" ^^ ack_id ^^ ".json")

  unfoldable pub write_ack_file : Engine → Dict String → AckFile → WriteAckResult × Dict String
  write_ack_file js files ack =
      let target = ack_file_path ack.ticket ack.ack_id in
      if has target files
      then (already_sent, files)
      else (created, insert target (js.stringify (written (ack_fields ack))) files)

  unfoldable pub withdraw_ack_file : Dict String → String → String → WithdrawResult × Dict String
  withdraw_ack_file files ticket ack_id =
      let target = ack_file_path ticket ack_id in
      if has target files then (withdrawn, remove target files) else (already_gone, files)
