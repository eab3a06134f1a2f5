-- ===== src/Queue/PrRows.antt =====
-- The rows of a ticket's pull requests: src/queue/prRows.ts.
pub mod Laws
use status_pipe.Base.{
  ℕ, String, Bool, true, false, Option, none, some, List, [], ◌∷◌, map, ◌&&◌, not, find, keep,
  flat_map, sort, eqb, if◌then◌else◌, ◌==◌, ◌^^◌, compare, Ordering, ◌or_else◌, get_or, is_some,
  Dict, lookup, insert, has,
}
use status_pipe.Protocol.{TicketFile, TicketPr, CiState, PrState}
use status_pipe.Protocol.Worker.{nonempty}
use status_pipe.Forge.{
  ChecksInfo, Check, CheckStatus, Aggregate, PullRequestInfo, ReviewDecision, TaskCounts, TicketRef,
}
use status_pipe.Queue.{
  PrEnrichment, RepoEnrichment, PrRowDisplay, CommentBadge, EffectiveCi, LinkedTicket,
}
use status_pipe.Queue.Lanes.{is_open}

-- `String(n)` is taken as a parameter of the labels.
module _ (show : ℕ → String) where
  abbrev pr_label : TicketPr → String
  pr_label pr = elim (nonempty pr.part) [
    | some part ↦ part ^^ " #" ^^ show pr.number
    | none ↦ "#" ^^ show pr.number
  ]

-- The first tracked PR of a head branch stays.
abbrev index_pr : Dict TicketPr → TicketPr → Dict TicketPr
index_pr index pr = if has pr.head index then index else insert pr.head pr index

index_prs : Dict TicketPr → List TicketPr → Dict TicketPr
index_prs index [] = index
index_prs index (pr ∷ prs) = index_prs (index_pr index pr) prs

abbrev pub prs_of : List TicketFile → List TicketPr
prs_of tickets = flat_map (λ (t : TicketFile). t.prs) tickets

unfoldable pub build_head_index : List TicketFile → Dict TicketPr
unfolding index_prs
build_head_index tickets = index_prs [] (prs_of tickets)

module _ (show : ℕ → String) where
  unfoldable pub upstream_label : TicketPr → Dict TicketPr → String
  upstream_label pr index = elim (lookup pr.base index) [
    | some b ↦ pr_label show b
    | none ↦ pr.base
  ]

  unfoldable pub downstream_labels : TicketPr → List TicketPr → List String
  downstream_labels pr all =
      map (pr_label show)
        (keep (λ (o : TicketPr). o.base == pr.head && not (eqb o.number pr.number)) all)

abbrev cached_ci : CiState → EffectiveCi
cached_ci CiState.unknown = EffectiveCi.unknown
cached_ci CiState.pending = EffectiveCi.pending
cached_ci CiState.passing = EffectiveCi.passing
cached_ci CiState.failing = EffectiveCi.failing

abbrev live_ci : Aggregate → EffectiveCi
live_ci Aggregate.all_passing = EffectiveCi.passing
live_ci Aggregate.some_failing = EffectiveCi.failing
live_ci Aggregate.some_pending = EffectiveCi.pending
live_ci Aggregate.no_checks = EffectiveCi.no_ci

effective_ci : TicketPr → Option ChecksInfo → EffectiveCi
effective_ci pr (some c) = live_ci c.aggregate
effective_ci pr none = cached_ci pr.ci

abbrev is_failing_check : Check → Bool
is_failing_check c =
    (elim c.status as (λ _. Bool) [ CheckStatus.failing ↦ true | _ ↦ false ])
    && is_some (nonempty c.url)

abbrev checks_of : Option ChecksInfo → List Check
checks_of none = []
checks_of (some c) = c.checks

failing_check_url : Option ChecksInfo → Option String
failing_check_url checks = elim (find is_failing_check (checks_of checks)) [
  | none ↦ none
  | some c ↦ c.url
]

abbrev info_of : Option PrEnrichment → Option PullRequestInfo
info_of none = none
info_of (some e) = e.info

abbrev live_checks : Option PrEnrichment → Option ChecksInfo
live_checks none = none
live_checks (some e) = e.checks

comment_badge : Option PrEnrichment → Option CommentBadge
comment_badge e = elim (info_of e) [
  | none ↦ none
  | some i ↦ some (record {
    unresolved = i.comments.unresolved;
    total = i.comments.total;
    resolvable = i.comments.resolvable;
    pr_level_resolvable = i.comments.pr_level_resolvable;
    capped = get_or i.comments.capped false;
  })
]

review_badge : Option PrEnrichment → Option ReviewDecision
review_badge e = elim (info_of e) [
  | none ↦ none
  | some i ↦ elim i.review_decision [
    | none ↦ none
    | some d ↦ elim d [
      | ReviewDecision.approved ↦ some ReviewDecision.approved
      | ReviewDecision.changes_requested ↦ some ReviewDecision.changes_requested
      | ReviewDecision.review_required ↦ none
    ]
  ]
]

abbrev task_counts : Option PrEnrichment → Option TaskCounts
task_counts e = elim (info_of e) [ none ↦ none | some i ↦ i.tasks ]

abbrev url_of : Option PullRequestInfo → TicketPr → Option String
url_of none pr = pr.url
url_of (some i) pr = some i.url

abbrev state_of : Option PullRequestInfo → TicketPr → PrState
state_of none pr = pr.state
state_of (some i) pr = i.state

abbrev draft_of : Option PullRequestInfo → TicketPr → Bool
draft_of none pr = pr.draft
draft_of (some i) pr = i.draft

abbrev linked : Option PrEnrichment → List LinkedTicket
linked none = []
linked (some e) =
    map (λ (t : TicketRef). record { key = t.key; url = nonempty (some t.url) }) e.linked_tickets

abbrev is_deleted : Option PrEnrichment → Bool
is_deleted none = false
is_deleted (some e) = e.deleted_on_forge

abbrev enrichment_of : Option RepoEnrichment → ℕ → Option PrEnrichment
enrichment_of none n = none
enrichment_of (some e) n = e.prs n

abbrev pr_row : TicketPr → Option PrEnrichment → String → List String → PrRowDisplay
pr_row pr e up down = record {
  number = pr.number;
  url = url_of (info_of e) pr;
  part = pr.part;
  head = pr.head;
  state = state_of (info_of e) pr;
  draft = draft_of (info_of e) pr;
  ci = effective_ci pr (live_checks e);
  ci_checks = checks_of (live_checks e);
  ci_url = failing_check_url (live_checks e);
  comments = comment_badge e;
  tasks = task_counts e;
  review_decision = review_badge e;
  linked_tickets = linked e;
  upstream = up;
  downstream = down;
  enriched = is_some (info_of e);
  deleted_on_forge = is_deleted e;
}

abbrev open_first : PrRowDisplay → ℕ
open_first r = if is_open r.state then 0 else 1

unfoldable pub row_order : PrRowDisplay → PrRowDisplay → Ordering
row_order a b = compare (open_first a) (open_first b) or_else compare a.number b.number

module _ (show : ℕ → String) where
  pub build_pr_row : TicketPr → Dict TicketPr → List TicketPr → Option RepoEnrichment → PrRowDisplay
  build_pr_row pr index all enrichment =
      pr_row pr (enrichment_of enrichment pr.number) (upstream_label show pr index)
        (downstream_labels show pr all)

  unfoldable pub build_pr_rows :
      TicketFile → List TicketFile → Option RepoEnrichment → List PrRowDisplay
  unfolding row_order build_pr_row effective_ci failing_check_url comment_badge review_badge
  build_pr_rows t tickets enrichment =
      sort row_order
        (map (λ pr. build_pr_row pr (build_head_index tickets) (prs_of tickets) enrichment) t.prs)
