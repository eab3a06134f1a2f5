-- ===== src/Planner/Effects.antt =====
-- The ports of the planner, src/planner/ports.ts, as effects on the protocol directory. Every call may throw; a call
-- that throws changes nothing, and is logged all the same. Other writers of the directory do not act during a pass.
pub mod Outcomes
pub mod Directory
use status_pipe.Base.{
  ℕ, String, Bool, true, false, not, Option, none, some, List, [], ◌∷◌, ◌++◌, Dict, insert, lookup,
  keep, ◌==◌, has, has_text, if◌then◌else◌, keys,
}
use status_pipe.Protocol.{AckFile, OrchestratorFile, TicketFile}

pub record InventoryTicket : Type 0 where
  pub key : String
  pub title : String
  pub url : Option String
  pub author : Option String
  pub assignees : List String

pub data OpenState : Type 0 where
  open_issue closed_issue : OpenState

pub data StateReason : Type 0 where
  completed not_planned reopened : StateReason

pub record TicketState : Type 0 where
  pub state : OpenState
  pub state_reason : Option StateReason

pub record EpicSpec : Type 0 where
  pub slug : String
  pub path : String
  pub title : String
  pub tracking_ticket : Option String

pub record StoredAck : Type 0 where
  pub path : String
  pub ack : AckFile

pub data Visibility : Type 0 where
  public_repo private_repo : Visibility

pub data Call : Type 0 where
  get_visibility get_viewer list_keys list_acks read_orchestrator list_worktrees : Call
  list_labeled find_tracking list_epics read_ticket delete_ack ensure_worktree remove_worktree :
      String → Call
  create_tracking : (title label : String) → Call
  get_states : List String → Call
  write_header : (path key : String) → Option String → Call
  write_ticket : String → TicketFile → Call
  write_orchestrator : OrchestratorFile → Call

-- The protocol directory, the worktrees by slug, and the calls made so far, the latest first. `tickets` has the ticket files
-- that parse, `unparsed` the names of files that do not.
pub record World : Type 0 where
  pub tickets : Dict TicketFile
  pub unparsed : List String
  pub inbox : List StoredAck
  pub orchestrator : Option OrchestratorFile
  pub worktrees : List String
  pub log : List Call

-- What lies outside the planner: failures, the clock, the forge, the epic specs and the paths of worktrees.
pub record Ports : Type 0 where
  pub throws : World → Call → Bool
  pub now : World → ℕ
  pub iso : World → String
  pub visibility : World → Visibility
  pub viewer_login : World → Option String
  pub labeled : World → String → List InventoryTicket
  pub states : World → List String → Dict TicketState
  pub tracking : World → String → Option InventoryTicket
  pub mint : World → String → String → InventoryTicket
  pub epics : World → String → List EpicSpec
  pub worktree_path : World → String → String

pub data Outcome (A : Type 0) : Type 0 where
  done : A → World → Outcome A
  thrown : World → Outcome A

abbrev pub M : Type 0 → Type 0
M A = World → Outcome A

abbrev pub pure : {A : Type 0} → A → M A
pure a w = done a w

infixl 5 ◌>>=◌ ◌>>◌
abbrev pub ◌>>=◌ : {A B : Type 0} → M A → (A → M B) → M B
◌>>=◌ m f w = elim (m w) [ done a w' ↦ f a w' | thrown w' ↦ thrown w' ]

abbrev pub ◌>>◌ : {B : Type 0} → M (Unit {0}) → M B → M B
m >> k = m >>= λ _. k

-- `try { some(await m) } catch { none }`
abbrev pub attempt : {A : Type 0} → M A → M (Option A)
attempt m w = elim (m w) [ done a w' ↦ done (some a) w' | thrown w' ↦ done none w' ]

-- The keys of all ticket files. A file that did not parse, and that a ticket was since written over, parses.
abbrev pub ticket_keys : World → List String
ticket_keys w = keys w.tickets ++ keep (λ key. not (has key w.tickets)) w.unparsed

-- The world that an outcome leaves.
abbrev pub world_of : {A : Type 0} → Outcome A → World
world_of (done a w) = w
world_of (thrown w) = w

abbrev pub logged : Call → World → World
logged c w = record w { log = c ∷ w.log }

-- One call of a port: it throws, or it answers and acts.
abbrev pub perform : {A : Type 0} → Ports → Call → (World → A) → (World → World) → M A
perform p c answer act w = elim (p.throws w c) [
  | true ↦ thrown (logged c w)
  | false ↦ done (answer w) (act (logged c w))
]

abbrev pub ask : {A : Type 0} → Ports → Call → (World → A) → M A
ask p c answer = perform p c answer (λ w. w)

abbrev pub save_ticket : Ports → String → TicketFile → M (Unit {0})
save_ticket p key t =
    perform p (write_ticket key t) (λ _. tt) (λ w. record w { tickets = insert key t w.tickets })

abbrev pub load_ticket : Ports → String → M (Option TicketFile)
load_ticket p key = ask p (read_ticket key) (λ w. lookup key w.tickets)

abbrev pub drop_ack : Ports → String → M (Unit {0})
drop_ack p path =
    perform p (delete_ack path) (λ _. tt)
      (λ w. record w { inbox = keep (λ (s : StoredAck). not (s.path == path)) w.inbox })

abbrev pub save_orchestrator : Ports → OrchestratorFile → M (Unit {0})
save_orchestrator p f =
    perform p (write_orchestrator f) (λ _. tt) (λ w. record w { orchestrator = some f })

abbrev pub provision : Ports → String → M String
provision p slug =
    perform p (ensure_worktree slug) (λ w. p.worktree_path w slug)
      (λ w. record w {
        worktrees = if has_text slug w.worktrees then w.worktrees else w.worktrees ++ slug ∷ [];
      })

abbrev pub reclaim : Ports → String → M (Unit {0})
reclaim p slug =
    perform p (remove_worktree slug) (λ _. tt)
      (λ w. record w { worktrees = keep (λ s. not (s == slug)) w.worktrees })

abbrev pub the_iso : Ports → M String
the_iso p w = done (p.iso w) w

abbrev pub the_now : Ports → M ℕ
the_now p w = done (p.now w) w
