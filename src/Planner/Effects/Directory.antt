-- ===== src/Planner/Effects/Directory.antt =====
-- The protocol directory as texts behind three of the planner's ports: readTicket, writeTicket and writeOrchestrator of
-- src/planner/protocolIo.ts. The listings of the directory, deleteAck and readOrchestrator are not treated here.
use status_pipe.Base.{
  String, ◌≡◌, refl, ap, ◌∙◌, Bool, true, false, Option, none, some, ◌⊎◌, inl, inr, Dict, lookup,
  insert, lookup-insert, ◌==◌, ==_iff, ◌^^◌, Bool-cases,
}
use mathlib.Core.Path.{subst}
use status_pipe.Protocol.{TicketFile, OrchestratorFile}
use status_pipe.Protocol.Json.{Engine, Object}
use status_pipe.Protocol.Json.Writing.{written}
use status_pipe.Protocol.Store.{
  Disk, absent, content, MergeBase, base, threw, read_ticket, read_orchestrator, read_merge_base,
  write_ticket, write_orchestrator, merged,
}
use status_pipe.Protocol.Store.Fields.{orchestrator_fields}
use status_pipe.Protocol.Store.RoundTrip.{IsTicket}
use status_pipe.Protocol.Store.Tickets.{Decodes, write_ticket-overlays}
use status_pipe.Protocol.Store.Passes.{IsOrchestrator, read_orchestrator-write}
use status_pipe.Planner.Effects.{
  Call, Ports, World, world_of, perform, save_ticket, load_ticket, save_orchestrator, done,
}
use status_pipe.Planner.Effects

-- The texts of the ticket files by key, and the orchestrator file.
pub record Directory : Type 0 where
  pub tickets : Dict Disk
  pub orchestrator : Disk

abbrev pub disk_or_absent : Option Disk → Disk
disk_or_absent none = absent
disk_or_absent (some disk) = disk

abbrev pub ticket_disk : String → Directory → Disk
ticket_disk key d = disk_or_absent (lookup key d.tickets)

-- What a write of a ticket leaves in the directory.
abbrev pub written_to : String → Directory → String ⊎ Disk → Directory
written_to key d (inl message) = d
written_to key d (inr disk) = record d { tickets = insert key disk d.tickets }

abbrev pub is_refused : String ⊎ Disk → Bool
is_refused (inl message) = true
is_refused (inr disk) = false

MergeBase-cases :
    (m : MergeBase) → ((message : String) × (m ≡ threw message)) ⊎ ((o : Object) × (m ≡ base o))
MergeBase-cases (threw message) = inl (message, refl)
MergeBase-cases (base o) = inr (o, refl)

module _ (js : Engine) where
  -- The ticket of each key and the orchestrator file of the world are what the readers make of the texts.
  pub record Represents (d : Directory) (w : World) : Type 0 where
    pub tickets : (key : String) → read_ticket js key (ticket_disk key d) ≡ lookup key w.tickets
    pub orchestrator : read_orchestrator js d.orchestrator ≡ w.orchestrator

  written-Represents :
      (d : Directory) (w : World) (key raw : String) (t : TicketFile)
      → Represents d w
      → read_ticket js key (content raw) ≡ some t
      → Represents
          (written_to key d (inr (content raw)))
          (record w { tickets = insert key t w.tickets })
  written-Represents d w key raw t r reads = record {
    tickets = λ j.
        rw (lookup-insert key j (content raw) d.tickets, lookup-insert key j t w.tickets)
          (elim (Bool-cases (key == j)) [
            | inl same ↦
                rw same (
                  subst (λ k. read_ticket js k (content raw) ≡ some t) ((==_iff key j).0 same)
                    reads)
            | inr other ↦ rw other (r.tickets j)
          ]);
    orchestrator = r.orchestrator;
  }

  logged-Represents :
      (d : Directory) (w : World) (c : Call) → Represents d w → Represents d (Effects.logged c w)
  logged-Represents d w c r = record { tickets = r.tickets; orchestrator = r.orchestrator }

  module _ (p : Ports) (d : Directory) (w : World) (r : Represents d w) where
    save_ticket-Represents :
        (key : String) (t : TicketFile)
        → IsTicket t
        → ((existing : Object)
            → read_merge_base js (key ^^ ".json") (ticket_disk key d) ≡ base existing
            → Decodes js (merged js existing t))
        → p.throws w (Effects.write_ticket key t)
          ≡ is_refused (write_ticket js key (ticket_disk key d) t)
        → Represents
            (written_to key d (write_ticket js key (ticket_disk key d) t))
            (world_of (save_ticket p key t w))
    unfolding write_ticket
    save_ticket-Represents key t v decodes agrees =
        elim (MergeBase-cases (read_merge_base js (key ^^ ".json") (ticket_disk key d))) [
          | inl (message, e) ↦
              let refused : write_ticket js key (ticket_disk key d) t ≡ inl message =
                rw (e, write_ticket) in
              let throws : p.throws w (Effects.write_ticket key t) ≡ true =
                agrees ∙ ap is_refused refused in
              rw (refused, throws, perform, save_ticket, world_of)
                (logged-Represents d w (Effects.write_ticket key t) r)
          | inr (o, e) ↦
              let (raw, wrote, reads, _, _, _) =
                write_ticket-overlays js key (ticket_disk key d) t o v e (decodes o e) in
              let acts : p.throws w (Effects.write_ticket key t) ≡ false =
                agrees ∙ ap is_refused wrote in
              rw (wrote, acts, perform, save_ticket, world_of)
                (written-Represents d (Effects.logged (Effects.write_ticket key t) w) key raw t
                  (logged-Represents d w (Effects.write_ticket key t) r) reads)
        ]

    load_ticket-reads :
        (key : String)
        → p.throws w (Effects.read_ticket key) ≡ false
        → load_ticket p key w
          ≡ done
              (read_ticket js key (ticket_disk key d))
              (Effects.logged (Effects.read_ticket key) w)
    load_ticket-reads key answers = rw (answers, perform, load_ticket, r.tickets key)

    save_orchestrator-Represents :
        (f : OrchestratorFile)
        → IsOrchestrator f
        → Decodes js (written (orchestrator_fields f))
        → p.throws w (Effects.write_orchestrator f) ≡ false
        → Represents
            (record d { orchestrator = write_orchestrator js f })
            (world_of (save_orchestrator p f w))
    save_orchestrator-Represents f v decodes answers =
        rw (answers, perform, save_orchestrator, world_of)
          (record { tickets = r.tickets; orchestrator = read_orchestrator-write js f v decodes })

-- Three calls of the planner's ports, readTicket, writeTicket and writeOrchestrator, act on the texts as on the world: where
-- the ticket of each key and the orchestrator file of the world are what the readers make of the texts, a ticket is
-- answered as the reader reads it, and after either write they are again what the readers make of the texts. The port
-- throws for a ticket exactly where the write is refused, and then neither changes; the other two calls do not throw; the
-- required texts are there; the text of a written object decodes to that object.
pub directory-Represents :
    (js : Engine) (p : Ports) (d : Directory) (w : World)
    → Represents js d w
    → (key : String) (t : TicketFile) (f : OrchestratorFile) → IsTicket t
    → IsOrchestrator f
    → ((existing : Object)
        → read_merge_base js (key ^^ ".json") (ticket_disk key d) ≡ base existing
        → Decodes js (merged js existing t))
    → Decodes js (written (orchestrator_fields f))
    → p.throws w (Effects.read_ticket key) ≡ false
    → p.throws w (Effects.write_ticket key t)
      ≡ is_refused (write_ticket js key (ticket_disk key d) t)
    → p.throws w (Effects.write_orchestrator f) ≡ false
    → (load_ticket p key w
        ≡ done
            (read_ticket js key (ticket_disk key d))
            (Effects.logged (Effects.read_ticket key) w))
      × Represents js
          (written_to key d (write_ticket js key (ticket_disk key d) t))
          (world_of (save_ticket p key t w))
      × Represents js
          (record d { orchestrator = write_orchestrator js f })
          (world_of (save_orchestrator p f w))
directory-Represents js p d w r key t f v o decodes plain answers agrees saves = (
  load_ticket-reads js p d w r key answers,
  save_ticket-Represents js p d w r key t v decodes agrees,
  save_orchestrator-Represents js p d w r f o plain saves,
)
