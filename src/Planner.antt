-- ===== src/Planner.antt =====
-- The planner's types: src/planner/types.ts, and the candidates of src/planner/inventory.ts.
pub mod Effects
pub mod Trust
pub mod Inventory
pub mod Acks
pub mod Schedule
pub mod Parking
pub mod Lifecycle
pub mod Pass
use status_pipe.Base.{ℕ, String, Bool, Option, none, List, [], Dict}
use status_pipe.Protocol.{
  DispatchItem, DispatchKind, DispatchPlan, ParkedState, TicketFile, TrustMode,
}

pub record PlannerConfig : Type 0 where
  pub epics_dir : String
  pub inventory_label : String
  pub inventory_assignees : List String
  pub trust_mode : Option TrustMode
  pub trust_operators : List String
  pub stale_worker_minutes : ℕ

pub record PlannerInput : Type 0 where
  pub repo : String
  pub config : PlannerConfig
  pub max_concurrent : ℕ
  pub live_worker_keys : List String

pub data TrustResolution : Type 0 where
  trusted : (mode : TrustMode) (operators : List String) → TrustResolution
  refused : (reason : String) → TrustResolution

pub record Candidate : Type 0 where
  pub key : String
  pub kind : DispatchKind
  pub title : String
  pub url : Option String
  pub epic_path : Option String
  pub slug : String

pub record PlanReport : Type 0 where
  pub refused_reason : Option String
  pub consumed_acks : List String
  pub superseded_acks : List String
  pub orphaned_acks : List String
  pub stale_reconciled : List String
  pub reopened : List String
  pub closed_by_reconcile : List String
  pub worktrees_removed : List String
  pub created_tracking_tickets : List String
  pub dispatched : List DispatchItem
  pub deferred : List String
  pub parked : Option ParkedState

abbrev pub empty_report : PlanReport
empty_report = record {
  refused_reason = none;
  consumed_acks = [];
  superseded_acks = [];
  orphaned_acks = [];
  stale_reconciled = [];
  reopened = [];
  closed_by_reconcile = [];
  worktrees_removed = [];
  created_tracking_tickets = [];
  dispatched = [];
  deferred = [];
  parked = none;
}

pub record PlanResult : Type 0 where
  pub dispatch : Option DispatchPlan
  pub report : PlanReport

-- What a pass threads through its steps: the loaded tickets, the operators' notes of consumed acks, the report.
pub record PassState : Type 0 where
  pub tickets : Dict TicketFile
  pub consumed : Dict (Option String)
  pub report : PlanReport
