-- ===== src/Host/Loading.antt =====
-- Loading a protocol directory, and removing a settled ticket from it: src/host/protocolStore.ts,
-- src/host/controllerHelpers.ts and src/protocol/ticketRemover.ts. The directory is what the two reads of a file meet.
use status_pipe.Base.{
  ℕ, String, Bool, true, false, Option, none, some, List, [], ◌∷◌, Dict, remove, map, map_some,
  find, any, eqb, if◌then◌else◌, ◌==◌, flat_map,
}
use status_pipe.Base.Platform.{Platform}
use status_pipe.Protocol.{
  TicketFile, OrchestratorFile, ConfigFile, LaunchFile, AckFile, ParseResult, parsed, failed,
  ParseFailure,
}
use status_pipe.Protocol.Json.{Engine}
use status_pipe.Protocol.Parse.Ticket.{parse_ticket_file}
use status_pipe.Protocol.Parse.Orchestrator.{parse_orchestrator_file}
use status_pipe.Protocol.Parse.Config.{parse_config_file}
use status_pipe.Protocol.Parse.Launch.{parse_launch_file}
use status_pipe.Protocol.Parse.Ack.{parse_ack_file}
use status_pipe.Protocol.Store.{Disk, read_file_or_null, value_or_null}
use status_pipe.Queue.{TicketEntry}
use status_pipe.Queue.Lanes.{is_quiet}

-- A file as the first read meets it, and as one 200 ms later does.
pub record Reads : Type 0 where
  pub at_first : Disk
  pub later : Disk

abbrev is_corrupt : ParseFailure → Bool
is_corrupt ParseFailure.corrupt = true
is_corrupt ParseFailure.unknown_schema = false

abbrev parse_again : {A : Type 0} → (String → ParseResult A) → Disk → Option (ParseResult A)
parse_again parse disk = elim (read_file_or_null disk) [ none ↦ none | some raw ↦ some (parse raw) ]

abbrev retried :
    {A : Type 0} → (String → ParseResult A) → Disk → ParseResult A → Option (ParseResult A)
retried parse later (parsed a) = some (parsed a)
retried parse later (failed reason raw detail) =
    if is_corrupt reason then parse_again parse later else some (failed reason raw detail)

-- `none` where the file is gone.
unfoldable pub parse_with_retry :
    {A : Type 0} → (String → ParseResult A) → Reads → Option (ParseResult A)
parse_with_retry parse file = elim (read_file_or_null file.at_first) [
  | none ↦ none
  | some raw ↦ retried parse file.later (parse raw)
]

abbrev pub load_optional : {A : Type 0} → (String → ParseResult A) → Reads → Option A
load_optional parse file = elim (parse_with_retry parse file) [
  | none ↦ none
  | some r ↦ value_or_null r
]

-- The files of a directory: the ticket files by key, in the order of their keys, and the acks in the order of the listing.
pub record ProtocolFiles : Type 0 where
  pub orchestrator : Reads
  pub config : Reads
  pub launch : Disk
  pub tickets : Dict Reads
  pub acks : List Reads

pub record RepoProtocolState : Type 0 where
  pub orchestrator : Option OrchestratorFile
  pub config : Option ConfigFile
  pub launch : Option LaunchFile
  pub launch_raw : Option String
  pub tickets : List TicketEntry
  pub acks_on_disk : List AckFile

abbrev load_ticket_entry : Engine → String × Reads → Option TicketEntry
load_ticket_entry js e = elim (parse_with_retry (λ raw. parse_ticket_file js raw e.0) e.1) [
  | none ↦ none
  | some r ↦ some (record { key = e.0; parsed = r })
]

abbrev launch_of : Engine → Platform → Option String → Option LaunchFile
launch_of js os none = none
launch_of js os (some String.[]) = none
launch_of js os (some (String.◌∷◌ c s)) = value_or_null (parse_launch_file js os (String.◌∷◌ c s))

unfoldable pub load_repo_protocol : Engine → Platform → ProtocolFiles → RepoProtocolState
unfolding parse_with_retry
load_repo_protocol js os files =
    let raw = read_file_or_null files.launch in
    record {
      orchestrator = load_optional (parse_orchestrator_file js) files.orchestrator;
      config = load_optional (parse_config_file js) files.config;
      launch = launch_of js os raw;
      launch_raw = raw;
      tickets = map_some (load_ticket_entry js) files.tickets;
      acks_on_disk = map_some (load_optional (parse_ack_file js)) files.acks;
    }

abbrev updated_of : Option TicketEntry → Option String
updated_of none = none
updated_of (some e) = elim e.parsed [
  | parsed t ↦ some t.updated_at
  | failed reason raw detail ↦ none
]

abbrev same_time : Option String → String → Bool
same_time none s = false
same_time (some r) s = r == s

-- The last entry of a key, as `new Map(entries)` keeps it.
abbrev last_entry : String → List TicketEntry → Option TicketEntry
last_entry key [] = none
last_entry key (e ∷ es) =
    let rest = last_entry key es in
    elim rest [ none ↦ if e.key == key then some e else none | some found ↦ some found ]

abbrev moved : List TicketEntry → TicketEntry → List ℕ
moved before e = elim e.parsed [
  | failed reason raw detail ↦ []
  | parsed t ↦
      if same_time (updated_of (last_entry e.key before)) t.updated_at
      then []
      else map (λ pr. pr.number) t.prs
]

abbrev distinct_numbers : List ℕ → List ℕ → List ℕ
distinct_numbers seen [] = []
distinct_numbers seen (n ∷ ns) =
    let fresh = n ∷ distinct_numbers (n ∷ seen) ns in
    let skipped = distinct_numbers seen ns in if any (λ m. eqb m n) seen then skipped else fresh

abbrev tickets_before : Option RepoProtocolState → List TicketEntry
tickets_before none = []
tickets_before (some s) = s.tickets

unfoldable pub changed_pr_numbers : Option RepoProtocolState → RepoProtocolState → List ℕ
changed_pr_numbers prev next =
    distinct_numbers [] (flat_map (moved (tickets_before prev)) next.tickets)

pub data Removal : Type 0 where
  removed not_allowed error : Removal

abbrev pub parsed_of : TicketEntry → Option TicketFile
parsed_of e = elim e.parsed [ parsed t ↦ some t | failed reason raw detail ↦ none ]

-- `deleteTicketFile`: `is_child` is whether the key names a direct child of the tickets' directory. A file that is gone
-- counts as removed.
abbrev delete_ticket_file : (String → Bool) → String → Dict Reads → Removal × Dict Reads
delete_ticket_file is_child key tickets =
    if is_child key then (removed, remove key tickets) else (error, tickets)

-- The ticket is found by its own `ticket`, the file is deleted by that name.
unfoldable pub remove_settled_ticket :
    Engine → Platform → (String → Bool) → String → ProtocolFiles → Removal × Dict Reads
unfolding load_repo_protocol
remove_settled_ticket js os is_child key files =
    elim (find (λ (t : TicketFile). t.ticket == key)
      (map_some parsed_of (load_repo_protocol js os files).tickets)) [
        | none ↦ (error, files.tickets)
        | some t ↦
            if is_quiet t
            then delete_ticket_file is_child key files.tickets
            else (not_allowed, files.tickets)
      ]
