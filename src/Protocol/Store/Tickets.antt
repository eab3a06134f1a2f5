-- ===== src/Protocol/Store/Tickets.antt =====
-- Ticket files written over what stands on disk: writeTicket and readTicket of src/planner/protocolIo.ts.
use status_pipe.Base.{String, ◌≡◌, ap, false, some, ◌^^◌, has_text, keys, lookup, inr}
use status_pipe.Protocol.{TicketFile}
use status_pipe.Protocol.Json.{Engine, Object, Json, good, get, number}
use status_pipe.Protocol.Json.Writing.{written, members_of-to_members}
use status_pipe.Protocol.Parse.Versioned.{parse_versioned-written}
use status_pipe.Protocol.Parse.Ticket.{parse_ticket_file}
use status_pipe.Protocol.Store.{
  Disk, content, base, read_merge_base, write_ticket, read_ticket, as_json_object, merged,
}
use status_pipe.Protocol.Store.Fields.{overlay, ticket_fields}
use status_pipe.Protocol.Store.Overlay.{absent-lookup}
use status_pipe.Protocol.Store.RoundTrip.{IsTicket, get-written_ticket, ticket_from_json-overlay}

-- What `JSON.parse` makes of the text that `JSON.stringify` gave for this value.
abbrev pub Decodes : Engine → Json → Type 0
Decodes js v = js.json_parse (js.stringify v) ≡ good v

module _ (js : Engine) (raw : String) (o : Object)
    (decoded : js.json_parse raw ≡ good (written o)) where
  pub as_json_object-written : as_json_object js raw ≡ some o
  unfolding as_json_object
  as_json_object-written = rw (decoded, as_json_object, members_of-to_members o)

version-overlay :
    (o : Object) (t : TicketFile)
    → IsTicket t
    → get "schemaVersion" (overlay o (ticket_fields t)) ≡ some (number 1)
unfolding lookup
version-overlay o t v = rw (get-written_ticket o t "schemaVersion", v.version)

-- Where the disk holds no file or a JSON object, a write succeeds, what it leaves reads back as the ticket, and every
-- member that the ticket does not name is still there. The text of an object is assumed to decode to that object.
pub write_ticket-overlays :
    (js : Engine) (key : String) (disk : Disk) (t : TicketFile) (existing : Object)
    → IsTicket t
    → read_merge_base js (key ^^ ".json") disk ≡ base existing
    → Decodes js (merged js existing t)
    → (raw : String) × (write_ticket js key disk t ≡ inr (content raw))
      × (read_ticket js key (content raw) ≡ some t)
      × (o : Object) × (as_json_object js raw ≡ some o)
      × ((k : String) → has_text k (keys (ticket_fields t)) ≡ false → get k o ≡ get k existing)
unfolding write_ticket read_ticket parse_ticket_file
write_ticket-overlays js key disk t existing v below decodes =
    let o = overlay existing (ticket_fields t) in
    let raw = js.stringify (merged js existing t) in
    (
      raw,
      rw (below, write_ticket),
      rw (parse_versioned-written js raw o decodes (version-overlay existing t v))
          (ap some (ticket_from_json-overlay existing key t v)),
      o,
      as_json_object-written js raw o decodes,
      λ k h. rw (get-written_ticket existing t k, absent-lookup k (ticket_fields t) h),
    )
