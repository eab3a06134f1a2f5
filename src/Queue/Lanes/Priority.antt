-- ===== src/Queue/Lanes/Priority.antt =====
-- The lane and the reason of src/queue/lane.ts against its classes, each described on its own.
use status_pipe.Base.{
  sym, subst, ap, ◌∙◌, ℕ, ◌+◌, ◌*◌, ltb, refl, String, List, [], ◌∷◌, any, every, has_text, ◌==◌,
  ==_iff, leb, ◌≡◌, Bool, true, false, Option, none, some, ◌||◌, ◌&&◌, not, arith, Bool-cases, inl,
  inr, Option-cases,
}
use status_pipe.Base.Platform.{Platform}
use status_pipe.Protocol.Worker.{nonempty, is_worker_stale, beat_is_old, or_else_text}
use status_pipe.Protocol.{
  WorkerState, WorkerStatus, Phase, PrState, TicketFile, WaitingKind, WaitingOn,
}
use status_pipe.Queue.{
  PrEnrichment, RepoEnrichment, PrRowDisplay, EffectiveCi, NeedsYouReason, needs_you, waiting,
  quiet,
}
use status_pipe.Queue.Lanes.{
  LaneContext, LaneAssignment, assign_lane, needs_you_reason, ackable_reason, is_quiet,
  worker_crashed, is_blocked, is_empty, review_is_someone_elses, orphaned_failing_ci, reason_rank,
  has_status_error, excludes_viewer, requests_of, pr_info, is_open, is_failing,
}

-- The ticket waits on something of this kind.
abbrev waits_on : (WaitingKind → Bool) → Option WaitingOn → Bool
waits_on p none = false
waits_on p (some w) = p w.kind

abbrev is_owner_kind : WaitingKind → Bool
is_owner_kind WaitingKind.owner = true
is_owner_kind WaitingKind.comment = true
is_owner_kind _ = false

abbrev is_review_kind : WaitingKind → Bool
is_review_kind WaitingKind.review = true
is_review_kind _ = false

abbrev is_merge_kind : WaitingKind → Bool
is_merge_kind WaitingKind.merge = true
is_merge_kind _ = false

-- The last sign of life of a worker is too long ago, or there is none that can be read.
abbrev is_silent : Option ℕ → ℕ → ℕ → Bool
is_silent none minutes now = true
is_silent (some sign) minutes now = ltb (sign + minutes * 60000) now

abbrev instant_of : Platform → Option String → Option ℕ
instant_of os none = none
instant_of os (some String.[]) = none
instant_of os (some (String.◌∷◌ c s)) = os.date_parse (String.◌∷◌ c s)

-- The heartbeat, and where the file has none, the start.
abbrev sign_of_life : Platform → Option String → Option String → Option ℕ
sign_of_life os none start = instant_of os start
sign_of_life os (some beat) start = instant_of os (some beat)

abbrev has_crashed : Platform → Option WorkerState → ℕ → ℕ → Bool
has_crashed os none minutes now = false
has_crashed os (some w) minutes now = elim w.status [
  | WorkerStatus.error ↦ true
  | WorkerStatus.idle ↦ false
  | WorkerStatus.running ↦ is_silent (sign_of_life os w.heartbeat_at w.started_at) minutes now
]

-- Reviewers are requested, and none of them is this viewer.
abbrev asks_others : String → List String → Bool
asks_others viewer [] = false
asks_others viewer (r ∷ rs) = every (λ (reviewer : String). not (reviewer == viewer)) (r ∷ rs)

abbrev reviewers : Option PrEnrichment → List String
reviewers none = []
reviewers (some p) = elim p.info [
  | none ↦ []
  | some info ↦ elim info.review_requests [ none ↦ [] | some names ↦ names ]
]

abbrev of_viewer : Option String → List String → Bool
of_viewer none names = false
of_viewer (some String.[]) names = false
of_viewer (some (String.◌∷◌ c s)) names = asks_others (String.◌∷◌ c s) names

-- The forge attributes the review that is waited for to others than the viewer.
abbrev review_of_others : Option RepoEnrichment → Option ℕ → Bool
review_of_others none n = false
review_of_others (some e) none = false
review_of_others (some e) (some n) = of_viewer e.viewer_login (reviewers (e.prs n))

abbrev awaited_pr : Option WaitingOn → Option ℕ
awaited_pr none = none
awaited_pr (some w) = w.pr

-- Nobody works on the ticket: no worker or an idle one, and not in the phase that fixes.
abbrev nobody_works : Option WorkerState → Phase → Bool
nobody_works worker Phase.fixing = false
nobody_works none phase = true
nobody_works (some w) phase = elim w.status [
  | WorkerStatus.idle ↦ true
  | WorkerStatus.running ↦ false
  | WorkerStatus.error ↦ false
]

abbrev fails_open : PrState → EffectiveCi → Bool
fails_open PrState.open_pr EffectiveCi.failing = true
fails_open state ci = false

module _ (os : Platform) (t : TicketFile) (ctx : LaneContext) where
  -- When each class applies, with no regard to the others.
  abbrev pub applies : NeedsYouReason → Bool
  applies NeedsYouReason.launcher_failed = false
  applies NeedsYouReason.worker_crashed = has_crashed os t.worker ctx.stale_worker_minutes ctx.now
  applies NeedsYouReason.stale_ack = ctx.stale_ack
  applies NeedsYouReason.blocked =
      not ctx.request_acked && (is_blocked t.health || not (is_empty t.blockers))
  applies NeedsYouReason.owner = not ctx.request_acked && waits_on is_owner_kind t.waiting_on
  applies NeedsYouReason.review =
      not ctx.request_acked
      && waits_on is_review_kind t.waiting_on
      && not (review_of_others ctx.enrichment (awaited_pr t.waiting_on))
  applies NeedsYouReason.merge = not ctx.request_acked && waits_on is_merge_kind t.waiting_on
  applies NeedsYouReason.orphaned_ci =
      nobody_works t.worker t.phase
      && any (λ (r : PrRowDisplay). fails_open r.state r.ci) ctx.pr_rows
  applies NeedsYouReason.degraded = false

  -- What the assignment of a ticket has to be.
  pub data IsRight : LaneAssignment → Type 0 where
    settled : is_quiet t ≡ true → IsRight (record { lane = quiet; reason = none })
    alarmed :
        (r : NeedsYouReason)
        → is_quiet t ≡ false
        → applies r ≡ true
        → ((s : NeedsYouReason) → (not (applies s) || leb (reason_rank r) (reason_rank s)) ≡ true)
        → IsRight (record { lane = needs_you; reason = some r })
    calm :
        is_quiet t ≡ false
        → ((s : NeedsYouReason) → applies s ≡ false)
        → IsRight (record { lane = waiting; reason = none })

silent_lem :
    (os : Platform) (beat start : Option String) (minutes now : ℕ)
    → beat_is_old os (or_else_text beat start) minutes now
      ≡ is_silent (sign_of_life os beat start) minutes now
unfolding beat_is_old
silent_lem os none none minutes now = refl
silent_lem os none (some String.[]) minutes now = refl
silent_lem os none (some (String.◌∷◌ c s)) minutes now = ground arith
silent_lem os (some String.[]) start minutes now = refl
silent_lem os (some (String.◌∷◌ c s)) start minutes now = ground arith

crashed_of :
    (os : Platform) (w : Option WorkerState) (minutes now : ℕ)
    → (has_status_error w || is_worker_stale os w minutes now) ≡ has_crashed os w minutes now
unfolding is_worker_stale
crashed_of os none minutes now = refl
crashed_of os (some w) minutes now =
    ground (arith, silent_lem os w.heartbeat_at w.started_at minutes now)

crashed_lem :
    (os : Platform) (t : TicketFile) (ctx : LaneContext)
    → worker_crashed os t ctx ≡ has_crashed os t.worker ctx.stale_worker_minutes ctx.now
unfolding worker_crashed
crashed_lem os t ctx = crashed_of os t.worker ctx.stale_worker_minutes ctx.now

every_other :
    (viewer : String) (names : List String)
    → not (has_text viewer names) ≡ every (λ (r : String). not (r == viewer)) names
every_other viewer [] = refl
every_other viewer (r ∷ rs) =
    ground (arith, every_other viewer rs, ==_iff r viewer, ==_iff viewer r)

excludes_lem :
    (viewer : String) (names : List String)
    → excludes_viewer viewer names ≡ asks_others viewer names
excludes_lem viewer [] = refl
excludes_lem viewer (r ∷ rs) = every_other viewer (r ∷ rs)

viewer_lem :
    (login : Option String) (names : List String)
    → (elim (nonempty login) [ none ↦ false | some viewer ↦ excludes_viewer viewer names ])
      ≡ of_viewer login names
viewer_lem none names = refl
viewer_lem (some String.[]) names = refl
viewer_lem (some (String.◌∷◌ c s)) names = excludes_lem (String.◌∷◌ c s) names

reviewers_lem :
    (p : Option PrEnrichment) → requests_of (elim p [ none ↦ none | some q ↦ q.info ]) ≡ reviewers p
reviewers_lem none = refl
reviewers_lem (some p) = ground arith

pr_lem :
    (e : RepoEnrichment) (pr : Option ℕ)
    → (elim (nonempty e.viewer_login) [
      | none ↦ false
      | some viewer ↦ elim pr [
        | none ↦ false
        | some n ↦ excludes_viewer viewer (requests_of (pr_info e n))
      ]
    ])
      ≡ review_of_others (some e) pr
pr_lem e none = ground arith
pr_lem e (some n) =
    viewer_lem e.viewer_login (requests_of (pr_info e n))
    ∙ ap (of_viewer e.viewer_login) (reviewers_lem (e.prs n))

review_at :
    (t : TicketFile) (ctx : LaneContext) (e : Option RepoEnrichment) (w : Option WaitingOn)
    → ctx.enrichment ≡ e
    → t.waiting_on ≡ w
    → review_is_someone_elses t ctx ≡ review_of_others e (awaited_pr w)
unfolding review_is_someone_elses
review_at t ctx none w at on = rw (at) refl
review_at t ctx (some e) none at on = rw (at, on) (ground arith)
review_at t ctx (some e) (some w) at on = rw (at, on) (pr_lem e w.pr)

review_lem :
    (t : TicketFile) (ctx : LaneContext)
    → review_is_someone_elses t ctx ≡ review_of_others ctx.enrichment (awaited_pr t.waiting_on)
review_lem t ctx = review_at t ctx ctx.enrichment t.waiting_on refl refl

rows_lem :
    (rows : List PrRowDisplay)
    → any (λ (r : PrRowDisplay). is_open r.state && is_failing r.ci) rows
      ≡ any (λ (r : PrRowDisplay). fails_open r.state r.ci) rows
rows_lem [] = refl
rows_lem (r ∷ rs) = ground (arith, rows_lem rs)

orphan_lem :
    (t : TicketFile) (ctx : LaneContext)
    → orphaned_failing_ci t ctx ≡ (
        nobody_works t.worker t.phase
        && any (λ (r : PrRowDisplay). fails_open r.state r.ci) ctx.pr_rows)
unfolding orphaned_failing_ci
orphan_lem t ctx = ground (arith, rows_lem ctx.pr_rows)

module _ (os : Platform) (t : TicketFile) (ctx : LaneContext) where
  -- The classes by the tests of the source.
  abbrev tested : NeedsYouReason → Bool
  tested NeedsYouReason.worker_crashed = worker_crashed os t ctx
  tested NeedsYouReason.review =
      not ctx.request_acked
      && waits_on is_review_kind t.waiting_on
      && not (review_is_someone_elses t ctx)
  tested NeedsYouReason.orphaned_ci = orphaned_failing_ci t ctx
  tested r = applies os t ctx r

  tested_lem : (r : NeedsYouReason) → tested r ≡ applies os t ctx r
  tested_lem NeedsYouReason.worker_crashed = crashed_lem os t ctx
  tested_lem NeedsYouReason.review =
      ap (λ b. not ctx.request_acked && waits_on is_review_kind t.waiting_on && not b)
        (review_lem t ctx)
  tested_lem NeedsYouReason.orphaned_ci = orphan_lem t ctx
  tested_lem _ = refl

  reason_below :
      (r s : NeedsYouReason)
      → needs_you_reason os t ctx ≡ some r
      → (not (tested s) || leb (reason_rank r) (reason_rank s)) ≡ true
  unfolding needs_you_reason ackable_reason
  reason_below r NeedsYouReason.launcher_failed e = ground arith
  reason_below r _ e = ground arith

  reason_applies : (r : NeedsYouReason) → needs_you_reason os t ctx ≡ some r → tested r ≡ true
  unfolding needs_you_reason ackable_reason
  reason_applies NeedsYouReason.launcher_failed e = ground arith
  reason_applies _ e = ground arith

  reason_missing : (s : NeedsYouReason) → needs_you_reason os t ctx ≡ none → tested s ≡ false
  unfolding needs_you_reason ackable_reason
  reason_missing NeedsYouReason.launcher_failed e = ground arith
  reason_missing _ e = ground arith

  -- Every ticket is in exactly the lane that the classes of lane.ts give it, each described on its own by `applies`: quiet
  -- when it is settled; otherwise in NEEDS YOU with a class that applies and whose rank no applying class undercuts;
  -- otherwise, and only if no class applies, in WAITING.
  pub assign_lane-IsRight : IsRight os t ctx (assign_lane os t ctx)
  unfolding assign_lane
  assign_lane-IsRight = elim (Bool-cases (is_quiet t)) [
    | inl q ↦ rw q (settled q)
    | inr q ↦ rw q (elim (Option-cases (needs_you_reason os t ctx)) [
      | inl e ↦ rw e (calm q (λ s. sym (tested_lem s) ∙ reason_missing s e))
      | inr (r, e) ↦ rw e (
          alarmed r q (sym (tested_lem r) ∙ reason_applies r e) (λ s.
            subst (λ b. (not b || leb (reason_rank r) (reason_rank s)) ≡ true) (tested_lem s)
              (reason_below r s e)))
    ])
  ]
