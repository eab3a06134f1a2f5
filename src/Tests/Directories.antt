-- ===== src/Tests/Directories.antt =====
-- The protocol directory behind the planner's ports, at a ticket file of another schema version.
use status_pipe.Base.{
  ◌≡◌, refl, none, some, [], ◌∷◌, ◌==◌, if◌then◌else◌, if-intro, is_some, lookup, insert,
}
use status_pipe.Protocol.Json.{Engine, Object, bad, good, get, obj, ◌>>=◌}
use status_pipe.Protocol.Json.Writing.{written}
use status_pipe.Protocol.Parse.{parse_versioned}
use status_pipe.Protocol.Parse.Ticket.{parse_ticket_file}
use status_pipe.Protocol.Store.{
  absent, content, read_ticket, read_orchestrator, read_merge_base, as_json_object, write_ticket,
  merged, base, write_orchestrator,
}
use status_pipe.Protocol.Store.Fields.{ticket_fields, orchestrator_fields, overlay}
use status_pipe.Protocol.Store.Tickets.{Decodes}
use mathlib.Core.Path.{subst}
use status_pipe.Planner.Effects.{
  World, done, logged, load_ticket, save_ticket, save_orchestrator, world_of,
}
use status_pipe.Planner.Effects
use status_pipe.Planner.Effects.Directory.{
  Directory, Represents, directory-Represents, disk_or_absent, ticket_disk, written_to,
}
use status_pipe.Tests.{owner_ticket}
use status_pipe.Tests.Passes.{ports}
use status_pipe.Tests.Stores.{old_members, pass_file}

-- It tells the two files that are written apart by a member.
abbrev engine : Engine
engine = record {
  json_parse = λ t.
      if t == "old"
      then good (written old_members)
      else if t == "ticket"
      then good (written (overlay old_members (ticket_fields owner_ticket)))
      else if t == "pass"
      then good (written (orchestrator_fields pass_file))
      else bad "?";
  stringify = λ v. if is_some (obj (some v) >>= get "passCount") then "pass" else "ticket";
  to_text = λ v. "?";
}

abbrev directory : Directory
directory = record { tickets = ("7", content "old") ∷ []; orchestrator = absent }

abbrev empty_world : World
empty_world = record {
  tickets = [];
  unparsed = "7" ∷ [];
  inbox = [];
  orchestrator = none;
  worktrees = [];
  log = [];
}

directory-read : Represents engine directory empty_world
unfolding lookup read_ticket read_orchestrator parse_ticket_file parse_versioned
directory-read = record {
  tickets = λ key.
      if-intro (λ o. read_ticket engine key (disk_or_absent o) ≡ none) ("7" == key) (λ _. refl)
        (λ _. refl);
  orchestrator = refl;
}

merged-Decodes :
    (o : Object)
    → read_merge_base engine "7.json" (ticket_disk "7" directory) ≡ base o
    → Decodes engine (merged engine o owner_ticket)
unfolding lookup read_merge_base as_json_object overlay insert
merged-Decodes o e =
    let there : base old_members ≡ base o = e in
    let own : old_members ≡ o = cc in
    subst (λ x. Decodes engine (merged engine x owner_ticket)) own refl

directory-Represents_example :
    (load_ticket ports "7" empty_world
      ≡ done
          (read_ticket engine "7" (ticket_disk "7" directory))
          (logged (Effects.read_ticket "7") empty_world))
    × Represents engine
        (written_to "7" directory
          (write_ticket engine "7" (ticket_disk "7" directory) owner_ticket))
        (world_of (save_ticket ports "7" owner_ticket empty_world))
    × Represents engine
        (record directory { orchestrator = write_orchestrator engine pass_file })
        (world_of (save_orchestrator ports pass_file empty_world))
unfolding lookup read_merge_base as_json_object write_ticket
directory-Represents_example =
    directory-Represents engine ports directory empty_world directory-read "7" owner_ticket
      pass_file (record { version = refl; waiting = refl; heads = tt; noted = tt })
      (record { version = refl; parked = refl; planned = (λ e. cc e, ((refl, refl, refl), tt)) })
      merged-Decodes refl refl refl refl
