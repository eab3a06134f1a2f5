-- ===== src/Protocol.antt =====
-- The protocol files under .status-pipe/ as values: src/protocol/types.ts. Numbers of the files (versions, PR
-- numbers, minutes) are natural numbers.
pub mod AckId
pub mod Json
pub mod Parse
pub mod Store
pub mod Worker
use status_pipe.Base.{ℕ, String, Bool, Option, List, Dict}

pub data Phase : Type 0 where
  planning implementation hardening review fixing merging awaiting_merge merged blocked : Phase
  abandoned : Phase

pub data Health : Type 0 where
  ok waiting blocked error done : Health

pub data WaitingKind : Type 0 where
  build review comment owner merge : WaitingKind

-- A kind of waiting, or the synthetic 'blockers' of an ack's target.
pub data AckWaitingKind : Type 0 where
  on : WaitingKind → AckWaitingKind
  blockers : AckWaitingKind

pub data CiState : Type 0 where
  unknown pending passing failing : CiState

pub data PrState : Type 0 where
  open_pr merged_pr closed_pr : PrState

pub data WorkerStatus : Type 0 where
  idle running error : WorkerStatus

pub data AgentType : Type 0 where
  claude exec built_in : AgentType

pub data AgentLifetime : Type 0 where
  scheduled daemon : AgentLifetime

pub data TrustMode : Type 0 where
  single_maintainer multi_maintainer public : TrustMode

pub record WaitingOn : Type 0 where
  pub kind : WaitingKind
  pub ref : Option String
  pub pr : Option ℕ
  pub since : String
  pub detail : Option String

pub record TicketPr : Type 0 where
  pub number : ℕ
  pub url : Option String
  pub head : String
  pub base : String
  pub draft : Bool
  pub state : PrState
  pub ci : CiState
  pub part : Option String

pub record SubTicket : Type 0 where
  pub key : String
  pub url : Option String
  pub topic : String
  pub status : Option String

pub record HistoryEntry : Type 0 where
  pub at : String
  pub phase : Option String
  pub note : String
  pub run_id : Option String

pub record WorkerState : Type 0 where
  pub status : WorkerStatus
  pub task_id : Option String
  pub started_at : Option String
  pub heartbeat_at : Option String

pub record TicketFile : Type 0 where
  pub schema_version : ℕ
  pub repo : String
  pub ticket : String
  pub title : String
  pub slug : Option String
  pub url : Option String
  pub phase : Phase
  pub health : Health
  pub headline : String
  pub waiting_on : Option WaitingOn
  pub prs : List TicketPr
  pub blockers : List String
  pub sub_tickets : List SubTicket
  pub agent_comment_ids : List String
  pub history : List HistoryEntry
  pub worker : Option WorkerState
  pub updated_at : String

pub record ParkedState : Type 0 where
  pub since : String
  pub reason : String
  pub recheck_after : Option String

pub data DispatchKind : Type 0 where
  ticket epic : DispatchKind

pub record DispatchItem : Type 0 where
  pub key : String
  pub kind : DispatchKind
  pub prompt : String
  pub worktree : String

pub record DispatchPlan : Type 0 where
  pub max_concurrent : ℕ
  pub items : List DispatchItem

pub record OrchestratorFile : Type 0 where
  pub schema_version : ℕ
  pub repo : Option String
  pub pass_count : Option ℕ
  pub last_pass_started_at : Option String
  pub last_pass_finished_at : Option String
  pub stale_worker_minutes : Option ℕ
  pub parked : Option ParkedState
  pub dispatch : Option DispatchPlan
  pub note : Option String

pub record AckTarget : Type 0 where
  pub waiting_kind : AckWaitingKind
  pub waiting_since : String
  pub ref : Option String
  pub pr : Option ℕ

-- `kind` is always 'ready-for-look' and is left out.
pub record AckFile : Type 0 where
  pub schema_version : ℕ
  pub ticket : String
  pub ack_id : String
  pub target : AckTarget
  pub state_updated_at : String
  pub note : Option String
  pub created_at : String
  pub created_by : String

pub record LaunchAgent : Type 0 where
  pub id : String
  pub title : String
  pub type : AgentType
  pub command : String
  pub args : List String
  pub stdin : String
  pub cwd : String
  pub env : Dict String
  pub lifetime : AgentLifetime
  pub interval_minutes : ℕ
  pub timeout_minutes : ℕ

pub record LaunchFile : Type 0 where
  pub schema_version : ℕ
  pub agents : List LaunchAgent

pub data TicketSourceId : Type 0 where
  github_issues jira_cloud : TicketSourceId

pub record ConfigFile : Type 0 where
  pub schema_version : ℕ
  pub epics_dir : String
  pub inventory_label : String
  pub inventory_assignees : List String
  pub ticket_source : Option TicketSourceId
  pub jira_site_url : Option String
  pub jira_project_key : Option String
  pub stale_worker_minutes : Option ℕ
  pub trust_mode : Option TrustMode
  pub trust_operators : List String

pub data ParseFailure : Type 0 where
  corrupt unknown_schema : ParseFailure

pub data ParseResult {ℓ} (A : Type ℓ) : Type ℓ where
  parsed : A → ParseResult A
  failed : (reason : ParseFailure) (raw detail : String) → ParseResult A

abbrev pub planner_id : String
planner_id = "tick"

abbrev pub worker_id : String
worker_id = "worker"

-- The texts that stand for the enumerated values in the files.
abbrev pub phase_name : Phase → String
phase_name Phase.planning = "planning"
phase_name Phase.implementation = "implementation"
phase_name Phase.hardening = "hardening"
phase_name Phase.review = "review"
phase_name Phase.fixing = "fixing"
phase_name Phase.merging = "merging"
phase_name Phase.awaiting_merge = "awaiting-merge"
phase_name Phase.merged = "merged"
phase_name Phase.blocked = "blocked"
phase_name Phase.abandoned = "abandoned"

abbrev pub kind_name : AckWaitingKind → String
kind_name (AckWaitingKind.on WaitingKind.build) = "build"
kind_name (AckWaitingKind.on WaitingKind.review) = "review"
kind_name (AckWaitingKind.on WaitingKind.comment) = "comment"
kind_name (AckWaitingKind.on WaitingKind.owner) = "owner"
kind_name (AckWaitingKind.on WaitingKind.merge) = "merge"
kind_name AckWaitingKind.blockers = "blockers"
