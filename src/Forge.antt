-- ===== src/Forge.antt =====
-- The forge's answers as values: src/forge/types.ts. The handles that talk to the network are not modelled.
pub mod Budget
pub mod Mapping
pub mod Enricher
pub mod Http
pub mod Clients
use status_pipe.Base.{ℕ, String, Bool, Option, List}
use status_pipe.Protocol.{PrState}

pub data TicketLinks : Type 0 where
  native key_parsed no_links : TicketLinks

pub record ForgeCapabilities : Type 0 where
  pub tasks : Bool
  pub thread_resolution : Bool
  pub ticket_links : TicketLinks

pub record CommentCounts : Type 0 where
  pub total : ℕ
  pub resolvable : ℕ
  pub unresolved : ℕ
  pub pr_level_resolvable : Bool
  pub capped : Option Bool

pub record TaskCounts : Type 0 where
  pub total : ℕ
  pub unresolved : ℕ

pub data ReviewDecision : Type 0 where
  approved changes_requested review_required : ReviewDecision

pub record PullRequestInfo : Type 0 where
  pub number : ℕ
  pub url : String
  pub state : PrState
  pub draft : Bool
  pub title : String
  pub head_branch : String
  pub base_branch : String
  pub comments : CommentCounts
  pub tasks : Option TaskCounts
  pub review_decision : Option ReviewDecision
  pub review_requests : Option (List String)
  pub updated_at : String

pub data CheckStatus : Type 0 where
  passing failing pending skipped : CheckStatus

pub data Aggregate : Type 0 where
  all_passing some_failing some_pending no_checks : Aggregate

pub record Check : Type 0 where
  pub name : String
  pub status : CheckStatus
  pub url : Option String

pub record ChecksInfo : Type 0 where
  pub aggregate : Aggregate
  pub checks : List Check

pub record TicketRef : Type 0 where
  pub key : String
  pub title : Option String
  pub url : String
