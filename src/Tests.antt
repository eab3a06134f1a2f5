-- ===== src/Tests.antt =====
-- The values that the tests share: a platform, a ticket that waits on its owner, and the runs of the theorems on them.
pub mod Queues
pub mod Runners
pub mod Passes
pub mod Budgets
pub mod Stores
pub mod Fleets
pub mod Refreshes
pub mod Directories
pub mod Hosts
pub mod Clients
use status_pipe.Base.{ℕ, String, Option, none, some, []}
use status_pipe.Base.Platform.{Platform}
use status_pipe.Protocol.{TicketFile, Phase, Health, WaitingKind, WaitingOn}

-- Every text but the empty one is the instant 1000.
abbrev pub test_instant : String → Option ℕ
test_instant String.[] = none
test_instant (String.◌∷◌ c s) = some 1000

abbrev pub test_os : Platform
test_os = record {
  date_parse = test_instant;
  to_iso = λ n. "later";
  sha256_head = λ s. s;
  show_number = λ n. "n";
}

abbrev pub owner_wait : WaitingOn
owner_wait = record { kind = WaitingKind.owner; ref = none; pr = none; since = "t0"; detail = none }

abbrev pub owner_ticket : TicketFile
owner_ticket = record {
  schema_version = 1;
  repo = "/repo";
  ticket = "7";
  title = "A question";
  slug = none;
  url = none;
  phase = Phase.implementation;
  health = Health.ok;
  headline = "";
  waiting_on = some owner_wait;
  prs = [];
  blockers = [];
  sub_tickets = [];
  agent_comment_ids = [];
  history = [];
  worker = none;
  updated_at = "t0";
}
