-- ===== src/Protocol/Store/Acks.antt =====
-- An ack from the click to the reader: buildAck, src/protocol/ackWriter.ts and readAck of src/planner/protocolIo.ts.
use status_pipe.Base.{
  String, ◌≡◌, refl, sym, ap, true, false, none, some, lookup, insert, remove, has, arith, Dict,
  lookup-insert, lookup-remove, lookup-insert_self, ==_refl, if◌then◌else◌, ◌==◌,
}
use mathlib.Core.Path.{subst}
use status_pipe.Base.Platform.{Platform}
use status_pipe.Protocol.{AckFile, AckWaitingKind, WaitingKind, kind_name, parsed}
use status_pipe.Protocol.AckId.{build_ack, BuildAckOptions, ack_for, derive_ack_id}
use status_pipe.Protocol.AckId.Laws.{build_ack_inv}
use status_pipe.Protocol.Json.{Engine, number}
use status_pipe.Protocol.Json.Writing.{
  written, members_of-to_members, str-text_or_null, num-number_or_null,
}
use status_pipe.Protocol.Parse.Versioned.{parse_versioned-written}
use status_pipe.Protocol.Parse.Ack.{
  is_ack_id, ack_target_from_json, ack_identity_from_json, ack_of_kind, parse_ack_file,
}
use status_pipe.Protocol.Store.{
  content, read_ack, write_ack_file, withdraw_ack_file, ack_file_path, created, already_sent,
  withdrawn, WriteAckResult,
}
use status_pipe.Protocol.Store.Fields.{ack_fields}
use status_pipe.Protocol.Store.Overlay.{named-kind}
use status_pipe.Protocol.Store.RoundTrip.{Filled}
use status_pipe.Protocol.Store.Tickets.{Decodes}

pub record IsAck (a : AckFile) : Type 0 where
  pub version : a.schema_version ≡ 1
  pub ticket : Filled a.ticket
  pub id : is_ack_id a.ack_id ≡ true
  pub since : Filled a.target.waiting_since

filled-kind : (k : AckWaitingKind) → Filled (kind_name k)
filled-kind (AckWaitingKind.on WaitingKind.build) = refl
filled-kind _ = refl

is_ack_id-Filled : (s : String) → is_ack_id s ≡ true → Filled s
is_ack_id-Filled String.[] h = ground (arith, h)
is_ack_id-Filled (String.◌∷◌ c s) h = refl

ruleset reading =
    (str-text_or_null, num-number_or_null, members_of-to_members, named-kind, filled-kind)

ack_of_kind-fields :
    (raw : String) (a : AckFile) → IsAck a → ack_of_kind raw (ack_fields a) ≡ parsed a
unfolding ack_of_kind ack_identity_from_json ack_target_from_json lookup
ack_of_kind-fields raw a v =
    simp (reading, v.ticket, is_ack_id-Filled a.ack_id v.id, v.id, v.since, sym v.version)

read_ack-written :
    (js : Engine) (a : AckFile)
    → IsAck a
    → Decodes js (written (ack_fields a))
    → read_ack js (content (js.stringify (written (ack_fields a)))) ≡ some a
unfolding read_ack parse_ack_file lookup
read_ack-written js a v decodes = rw (
  parse_versioned-written js _ (ack_fields a) decodes (ap (λ n. some (number n)) v.version),
  ack_of_kind-fields (js.stringify (written (ack_fields a))) a v,
)

built-IsAck :
    (os : Platform) (o : BuildAckOptions) (a : AckFile)
    → build_ack os o ≡ some a
    → ((text : String) → is_ack_id (os.sha256_head text) ≡ true)
    → Filled o.ticket.ticket
    → Filled a.target.waiting_since
    → IsAck a
unfolding build_ack ack_for derive_ack_id
built-IsAck os o a built hex ticket since =
    let (x, e, p) = build_ack_inv os o a built in
    subst (λ b. Filled b.target.waiting_since → IsAck b) p
      (λ s. record { version = refl; ticket = ticket; id = hex _; since = s }) since

-- Writing an ack where its path is free.
module _ (js : Engine) (path : String → String → String) (files : Dict String) (a : AckFile)
    (fresh : has (ack_file_path path a.ticket a.ack_id) files ≡ false) where
  abbrev target : String
  target = ack_file_path path a.ticket a.ack_id

  abbrev raw : String
  raw = js.stringify (written (ack_fields a))

  write_fresh : write_ack_file path js files a ≡ (created, insert target raw files)
  unfolding write_ack_file
  write_fresh = rw (fresh, write_ack_file)

  write_again :
      write_ack_file path js (insert target raw files) a ≡ (already_sent, insert target raw files)
  unfolding write_ack_file
  write_again = rw (lookup-insert_self target raw files, write_ack_file)

  withdraw_written :
      withdraw_ack_file path (insert target raw files) a.ticket a.ack_id
      ≡ (withdrawn, remove target (insert target raw files))
  unfolding withdraw_ack_file
  withdraw_written = rw (lookup-insert_self target raw files, withdraw_ack_file)

-- The files after the write `w` deliver this ack: it was created under `target` and no other file was touched; it reads
-- back as it was built; a second write finds it sent and changes nothing; a withdrawal removes it.
pub record Delivered (js : Engine) (path : String → String → String) (files : Dict String)
    (a : AckFile) (w : WriteAckResult × Dict String) : Type 0 where
  pub raw : String
  pub written_once : w.0 ≡ created
  pub placed :
      (k : String)
      → lookup k w.1
        ≡ (if ack_file_path path a.ticket a.ack_id == k then some raw else lookup k files)
  pub reads : read_ack js (content raw) ≡ some a
  pub again : write_ack_file path js w.1 a ≡ (already_sent, w.1)
  pub gone :
      (rest : Dict String) × (withdraw_ack_file path w.1 a.ticket a.ack_id ≡ (withdrawn, rest))
      × (lookup (ack_file_path path a.ticket a.ack_id) rest ≡ none)

-- The ack that is built for a ticket's request and written at a free path is delivered (`Delivered`). The ticket's name
-- and the start of its wait are not empty, the hash gives eight hex digits, and the text of an object decodes to it.
pub write_ack_file-delivers :
    (js : Engine) (os : Platform) (path : String → String → String) (files : Dict String)
    (o : BuildAckOptions) (a : AckFile)
    → build_ack os o ≡ some a
    → ((text : String) → is_ack_id (os.sha256_head text) ≡ true)
    → Filled o.ticket.ticket
    → Filled a.target.waiting_since
    → has (ack_file_path path a.ticket a.ack_id) files ≡ false
    → Decodes js (written (ack_fields a))
    → Delivered js path files a (write_ack_file path js files a)
write_ack_file-delivers js os path files o a built hex ticket since fresh decodes =
    let t = ack_file_path path a.ticket a.ack_id in
    let text = js.stringify (written (ack_fields a)) in
    rw (write_fresh js path files a fresh) (record {
      raw = text;
      written_once = refl;
      placed = λ k. lookup-insert t k text files;
      reads = read_ack-written js a (built-IsAck os o a built hex ticket since) decodes;
      again = write_again js path files a fresh;
      gone = (
        remove t (insert t text files),
        withdraw_written js path files a fresh,
        rw (lookup-remove t t (insert t text files), ==_refl t),
      );
    })
