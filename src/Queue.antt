-- ===== src/Queue.antt =====
-- The inputs of the queue model and what it shows: src/queue/queueInputs.ts and src/queue/displayTypes.ts. The
-- live activity of an agent (src/output/claudeStream.ts) is copied through and left out of the records.
pub mod Lanes
pub mod AckState
pub mod PrRows
pub mod Cards
pub mod Model
use status_pipe.Base.{ℕ, String, Bool, Option, List}
use status_pipe.Protocol.{
  AckFile, AgentLifetime, ConfigFile, Health, HistoryEntry, LaunchFile, OrchestratorFile,
  ParkedState, ParseFailure, ParseResult, Phase, PrState, SubTicket, TicketFile, WaitingKind,
  WorkerStatus,
}
use status_pipe.Forge.{
  Check, ChecksInfo, ForgeCapabilities, PullRequestInfo, ReviewDecision, TaskCounts, TicketRef,
}

pub record TicketEntry : Type 0 where
  pub key : String
  pub parsed : ParseResult TicketFile

pub record KnownAck : Type 0 where
  pub ack : AckFile
  pub on_disk : Bool

pub record PrEnrichment : Type 0 where
  pub info : Option PullRequestInfo
  pub checks : Option ChecksInfo
  pub linked_tickets : List TicketRef
  pub fetched_at : ℕ
  pub deleted_on_forge : Bool

pub record RepoEnrichment : Type 0 where
  pub prs : ℕ → Option PrEnrichment
  pub viewer_login : Option String

pub record RepoState : Type 0 where
  pub repo_root : String
  pub name : String
  pub forge_id : Option String
  pub capabilities : Option ForgeCapabilities
  pub monitor_only : Bool
  pub issues_url : Option String
  pub orchestrator : Option OrchestratorFile
  pub config : Option ConfigFile
  pub launch : Option LaunchFile
  pub tickets : List TicketEntry
  pub acks : List KnownAck
  pub enrichment : Option RepoEnrichment

pub data AgentRunState : Type 0 where
  disabled stopped scheduled launching running backoff failed parked : AgentRunState

pub record AgentProcessState : Type 0 where
  pub repo_root : String
  pub agent_id : String
  pub title : String
  pub lifetime : AgentLifetime
  pub state : AgentRunState
  pub next_tick_at : Option ℕ
  pub running_since : Option ℕ
  pub last_output_at : Option ℕ
  pub consecutive_failures : ℕ
  pub last_exit_code : Option ℕ
  pub detail : Option String

pub record WorkerProcessState : Type 0 where
  pub repo_root : String
  pub key : String
  pub running_since : Option ℕ
  pub last_output_at : Option ℕ

pub record Settings : Type 0 where
  pub stale_worker_minutes_default : ℕ
  pub quiet_retention_hours : ℕ

pub record QueueModelInput : Type 0 where
  pub repos : List RepoState
  pub agents : List AgentProcessState
  pub workers : List WorkerProcessState
  pub now : ℕ
  pub settings : Settings

pub data Lane : Type 0 where
  needs_you waiting quiet : Lane

pub data NeedsYouReason : Type 0 where
  launcher_failed worker_crashed stale_ack blocked owner review merge orphaned_ci degraded :
      NeedsYouReason

pub data AckChipState : Type 0 where
  pending picked_up superseded pickup_unconfirmed stale moved_on : AckChipState

pub record AckChipDisplay : Type 0 where
  pub state : AckChipState
  pub ack_id : String
  pub created_at : String
  pub note : Option String

pub record AckControlDisplay : Type 0 where
  pub actionable : Bool
  pub chip : Option AckChipDisplay

pub record WaitingDisplay : Type 0 where
  pub kind : WaitingKind
  pub ref : Option String
  pub pr : Option ℕ
  pub since : String
  pub duration_ms : ℕ
  pub detail : Option String

pub record WorkerDisplay : Type 0 where
  pub status : WorkerStatus
  pub heartbeat_at : Option String
  pub heartbeat_age_ms : Option ℕ
  pub stale : Bool

pub record CommentBadge : Type 0 where
  pub unresolved : ℕ
  pub total : ℕ
  pub resolvable : ℕ
  pub pr_level_resolvable : Bool
  pub capped : Bool

pub data EffectiveCi : Type 0 where
  unknown pending passing failing no_ci : EffectiveCi

pub record LinkedTicket : Type 0 where
  pub key : String
  pub url : Option String

pub record PrRowDisplay : Type 0 where
  pub number : ℕ
  pub url : Option String
  pub part : Option String
  pub head : String
  pub state : PrState
  pub draft : Bool
  pub ci : EffectiveCi
  pub ci_checks : List Check
  pub ci_url : Option String
  pub comments : Option CommentBadge
  pub tasks : Option TaskCounts
  pub review_decision : Option ReviewDecision
  pub linked_tickets : List LinkedTicket
  pub upstream : String
  pub downstream : List String
  pub enriched : Bool
  pub deleted_on_forge : Bool

pub record DegradedInfo : Type 0 where
  pub reason : ParseFailure
  pub detail : String

pub data CardKind : Type 0 where
  ticket_card launcher_failed_card : CardKind

pub record CardDisplay : Type 0 where
  pub id : String
  pub kind : CardKind
  pub repo_root : String
  pub repo_name : String
  pub ticket : Option String
  pub title : String
  pub url : Option String
  pub phase : Option Phase
  pub health : Health
  pub headline : String
  pub lane : Lane
  pub reason : Option NeedsYouReason
  pub priority_rank : ℕ
  pub waiting : Option WaitingDisplay
  pub blockers : List String
  pub prs : List PrRowDisplay
  pub sub_tickets : List SubTicket
  pub history : List HistoryEntry
  pub ack_control : AckControlDisplay
  pub acked : Bool
  pub worker : Option WorkerDisplay
  pub degraded : Option DegradedInfo
  pub raw_json : Option String
  pub epic_slug : Option String
  pub updated_at : String
  pub hidden_by_default : Bool
