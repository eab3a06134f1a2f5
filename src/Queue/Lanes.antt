-- ===== src/Queue/Lanes.antt =====
-- Lane assignment and the rank of the reasons: src/queue/lane.ts.
pub mod Priority
use status_pipe.Base.{
  ℕ, String, Bool, true, false, Option, none, some, List, [], ◌∷◌, ◌||◌, ◌&&◌, not, any, has_text,
  if◌then◌else◌,
}
use status_pipe.Base.Platform.{Platform}
use status_pipe.Protocol.{
  TicketFile, Phase, Health, WaitingKind, WaitingOn, PrState, WorkerState, WorkerStatus,
}
use status_pipe.Protocol.Worker.{is_worker_stale, nonempty}
use status_pipe.Forge.{PullRequestInfo}
use status_pipe.Queue.{
  Lane, NeedsYouReason, needs_you, waiting, quiet, RepoEnrichment, PrEnrichment, PrRowDisplay,
  EffectiveCi,
}

abbrev pub reason_rank : NeedsYouReason → ℕ
reason_rank NeedsYouReason.launcher_failed = 0
reason_rank NeedsYouReason.worker_crashed = 1
reason_rank NeedsYouReason.stale_ack = 2
reason_rank NeedsYouReason.blocked = 3
reason_rank NeedsYouReason.owner = 4
reason_rank NeedsYouReason.review = 5
reason_rank NeedsYouReason.merge = 6
reason_rank NeedsYouReason.orphaned_ci = 7
reason_rank NeedsYouReason.degraded = 8

pub record LaneContext : Type 0 where
  pub stale_worker_minutes : ℕ
  pub now : ℕ
  pub enrichment : Option RepoEnrichment
  pub request_acked : Bool
  pub stale_ack : Bool
  pub pr_rows : List PrRowDisplay

pub record LaneAssignment : Type 0 where
  pub lane : Lane
  pub reason : Option NeedsYouReason

abbrev is_end_phase : Phase → Bool
is_end_phase Phase.merged = true
is_end_phase Phase.abandoned = true
is_end_phase _ = false

abbrev is_done : Health → Bool
is_done Health.done = true
is_done _ = false

unfoldable pub is_quiet : TicketFile → Bool
is_quiet t = is_end_phase t.phase || is_done t.health

abbrev has_status_error : Option WorkerState → Bool
has_status_error none = false
has_status_error (some w) = elim w.status [ WorkerStatus.error ↦ true | _ ↦ false ]

unfoldable pub worker_crashed : Platform → TicketFile → LaneContext → Bool
worker_crashed os t ctx =
    has_status_error t.worker || is_worker_stale os t.worker ctx.stale_worker_minutes ctx.now

-- `ctx.enrichment?.prs[n]?.info?.reviewRequests`, with the viewer.
abbrev pr_info : RepoEnrichment → ℕ → Option PullRequestInfo
pr_info e n = elim (e.prs n) [ none ↦ none | some p ↦ p.info ]

abbrev requests_of : Option PullRequestInfo → List String
requests_of none = []
requests_of (some i) = elim i.review_requests [ none ↦ [] | some rs ↦ rs ]

abbrev excludes_viewer : String → List String → Bool
excludes_viewer viewer [] = false
excludes_viewer viewer (r ∷ rs) = not (has_text viewer (r ∷ rs))

abbrev waiting_pr : Option WaitingOn → Option ℕ
waiting_pr none = none
waiting_pr (some w) = w.pr

unfoldable pub review_is_someone_elses : TicketFile → LaneContext → Bool
review_is_someone_elses t ctx = elim ctx.enrichment [
  | none ↦ false
  | some e ↦ elim (nonempty e.viewer_login) [
    | none ↦ false
    | some viewer ↦ elim (waiting_pr t.waiting_on) [
      | none ↦ false
      | some n ↦ excludes_viewer viewer (requests_of (pr_info e n))
    ]
  ]
]

abbrev is_idle : Option WorkerState → Bool
is_idle none = true
is_idle (some w) = elim w.status [ WorkerStatus.idle ↦ true | _ ↦ false ]

abbrev is_fixing : Phase → Bool
is_fixing Phase.fixing = true
is_fixing _ = false

abbrev pub is_open : PrState → Bool
is_open PrState.open_pr = true
is_open _ = false

abbrev pub is_failing : EffectiveCi → Bool
is_failing EffectiveCi.failing = true
is_failing _ = false

unfoldable pub orphaned_failing_ci : TicketFile → LaneContext → Bool
orphaned_failing_ci t ctx =
    is_idle t.worker
    && not (is_fixing t.phase)
    && any (λ (r : PrRowDisplay). is_open r.state && is_failing r.ci) ctx.pr_rows

abbrev pub is_blocked : Health → Bool
is_blocked Health.blocked = true
is_blocked _ = false

abbrev pub is_empty {ℓ} : {A : Type ℓ} → List A → Bool
is_empty [] = true
is_empty (x ∷ xs) = false

abbrev kind_reason : Option WaitingOn → Bool → Option NeedsYouReason
kind_reason none elsewhere = none
kind_reason (some w) elsewhere = elim w.kind [
  | WaitingKind.owner ↦ some NeedsYouReason.owner
  | WaitingKind.comment ↦ some NeedsYouReason.owner
  | WaitingKind.review ↦ if elsewhere then none else some NeedsYouReason.review
  | WaitingKind.merge ↦ some NeedsYouReason.merge
  | WaitingKind.build ↦ none
]

unfoldable pub ackable_reason : TicketFile → LaneContext → Option NeedsYouReason
ackable_reason t ctx =
    if is_blocked t.health || not (is_empty t.blockers)
    then some NeedsYouReason.blocked
    else kind_reason t.waiting_on (review_is_someone_elses t ctx)

-- The reasons that an honoured ack does not silence.
abbrev late_reason : TicketFile → LaneContext → Option NeedsYouReason
late_reason t ctx = if orphaned_failing_ci t ctx then some NeedsYouReason.orphaned_ci else none

abbrev first_reason : Option NeedsYouReason → Option NeedsYouReason → Option NeedsYouReason
first_reason none r = r
first_reason (some r) s = some r

unfoldable pub needs_you_reason : Platform → TicketFile → LaneContext → Option NeedsYouReason
needs_you_reason os t ctx =
    if worker_crashed os t ctx
    then some NeedsYouReason.worker_crashed
    else if ctx.stale_ack
    then some NeedsYouReason.stale_ack
    else first_reason (if ctx.request_acked then none else ackable_reason t ctx) (late_reason t ctx)

unfoldable pub assign_lane : Platform → TicketFile → LaneContext → LaneAssignment
unfolding needs_you_reason
assign_lane os t ctx =
    if is_quiet t
    then record { lane = quiet; reason = none }
    else elim (needs_you_reason os t ctx) [
      | none ↦ record { lane = waiting; reason = none }
      | some r ↦ record { lane = needs_you; reason = some r }
    ]
