-- ===== src/Forge/Mapping/Github.antt =====
-- GitHub's nodes as the data of the forge: src/forge/githubMapping.ts.
use status_pipe.Base.{
  ℕ, ◌+◌, String, Bool, false, not, Option, none, some, List, [], ◌∷◌, get_or, map_some, keep,
  length, ltb, if◌then◌else◌, ◌==◌, first,
}
use status_pipe.Base.Platform.{Platform}
use status_pipe.Protocol.{PrState}
use status_pipe.Protocol.Json.{Json, Object, get, str, num, obj, is_true, ◌>>=◌}
use status_pipe.Protocol.Worker.{or_else_text}
use status_pipe.Forge.{
  CommentCounts, ReviewDecision, PullRequestInfo, CheckStatus, Aggregate, Check, ChecksInfo,
  TicketRef, approved, changes_requested, review_required,
}
use status_pipe.Forge.Mapping.{Unknown, as_arr, as_objs, dig}

abbrev thread_cap : ℕ
thread_cap = 100

-- `dig(node, …)` of an object.
abbrev inside : Option Object → List String → Unknown
inside none ks = none
inside (some o) [] = none
inside (some o) (k ∷ ks) = dig (get k o) ks

abbrev count_at : Option Object → List String → ℕ
count_at o ks = get_or (num (inside o ks)) 0

abbrev inline_count : List (Option Object) → ℕ
inline_count [] = 0
inline_count (t ∷ ts) = count_at t ("comments" ∷ "totalCount" ∷ []) + inline_count ts

abbrev is_unresolved : Option Object → Bool
is_unresolved none = false
is_unresolved (some t) = not (is_true (get "isResolved" t))

unfoldable pub map_github_comments : Object → CommentCounts
unfolding dig
map_github_comments node =
    let pr_level = count_at (some node) ("comments" ∷ "totalCount" ∷ []) in
    let threads_total = count_at (some node) ("reviewThreads" ∷ "totalCount" ∷ []) in
    let threads = as_objs (inside (some node) ("reviewThreads" ∷ "nodes" ∷ [])) in
    record {
      total = pr_level + inline_count threads;
      resolvable = threads_total;
      unresolved = length (keep is_unresolved threads);
      pr_level_resolvable = false;
      capped = some (ltb thread_cap threads_total);
    }

abbrev pub map_review_decision : Unknown → Option ReviewDecision
map_review_decision v =
    let s = get_or (str v) "" in
    if s == "APPROVED"
    then some approved
    else if s == "CHANGES_REQUESTED"
    then some changes_requested
    else if s == "REVIEW_REQUIRED"
    then some review_required
    else none

abbrev requested : Json → Option String
requested n =
    or_else_text (str (dig (some n) ("requestedReviewer" ∷ "login" ∷ [])))
      (str (dig (some n) ("requestedReviewer" ∷ "slug" ∷ [])))

abbrev pub map_review_requests : Object → List String
map_review_requests node =
    map_some requested (as_arr (inside (some node) ("reviewRequests" ∷ "nodes" ∷ [])))

abbrev pub map_pr_state : Unknown → PrState
map_pr_state v =
    let s = get_or (str v) "" in
    if s == "MERGED"
    then PrState.merged_pr
    else if s == "CLOSED"
    then PrState.closed_pr
    else PrState.open_pr

abbrev text_at : String → Object → String
text_at k o = get_or (str (get k o)) ""

unfoldable pub map_github_pr : Object → Option PullRequestInfo
unfolding map_github_comments
map_github_pr node = do
  number ← num (get "number" node)
  some (record {
    number = number;
    url = text_at "url" node;
    state = map_pr_state (get "state" node);
    draft = is_true (get "isDraft" node);
    title = text_at "title" node;
    head_branch = text_at "headRefName" node;
    base_branch = text_at "baseRefName" node;
    comments = map_github_comments node;
    tasks = none;
    review_decision = map_review_decision (get "reviewDecision" node);
    review_requests = some (map_review_requests node);
    updated_at = text_at "updatedAt" node;
  })

abbrev pub map_rollup_state : Unknown → Aggregate
map_rollup_state v =
    let s = get_or (str v) "" in
    if s == "SUCCESS"
    then Aggregate.all_passing
    else if s == "FAILURE"
    then Aggregate.some_failing
    else if s == "ERROR"
    then Aggregate.some_failing
    else if s == "PENDING"
    then Aggregate.some_pending
    else if s == "EXPECTED"
    then Aggregate.some_pending
    else Aggregate.no_checks

abbrev conclusion_status : String → CheckStatus
conclusion_status s =
    if s == "SUCCESS"
    then CheckStatus.passing
    else if s == "SKIPPED"
    then CheckStatus.skipped
    else if s == "NEUTRAL"
    then CheckStatus.skipped
    else CheckStatus.failing

abbrev pub map_check_run_status : Object → CheckStatus
map_check_run_status node =
    if text_at "status" node == "COMPLETED"
    then conclusion_status (text_at "conclusion" node)
    else CheckStatus.pending

abbrev pub map_status_context_state : Unknown → CheckStatus
map_status_context_state v =
    let s = get_or (str v) "" in
    if s == "SUCCESS"
    then CheckStatus.passing
    else if s == "PENDING"
    then CheckStatus.pending
    else CheckStatus.failing

-- A status context, where the node is no check run.
abbrev context_check : Object → Option Check
context_check node = do
  name ← str (get "context" node)
  some (record {
    name = name;
    status = map_status_context_state (get "state" node);
    url = str (get "targetUrl" node);
  })

unfoldable pub map_check_node : Object → Option Check
map_check_node node = elim (str (get "name" node)) [
  | some name ↦ some (record {
    name = name;
    status = map_check_run_status node;
    url = str (get "detailsUrl" node);
  })
  | none ↦ context_check node
]

abbrev checks_of : Option Object → ChecksInfo
checks_of none = record { aggregate = Aggregate.no_checks; checks = [] }
checks_of (some rollup) = record {
  aggregate = map_rollup_state (get "state" rollup);
  checks =
      map_some (λ n. obj (some n) >>= map_check_node)
        (as_arr (inside (some rollup) ("contexts" ∷ "nodes" ∷ [])));
}

unfoldable pub map_github_checks : Object → ChecksInfo
unfolding map_check_node dig
map_github_checks node =
    let head = first (as_arr (inside (some node) ("commits" ∷ "nodes" ∷ []))) in
    checks_of (obj (dig head ("commit" ∷ "statusCheckRollup" ∷ [])))

abbrev linked_ticket : Platform → Object → Option TicketRef
linked_ticket os n = do
  number ← num (get "number" n)
  some (record { key = os.show_number number; title = str (get "title" n); url = text_at "url" n })

unfoldable pub map_github_linked_tickets : Platform → Object → List TicketRef
unfolding dig
map_github_linked_tickets os node =
    map_some (λ n. obj (some n) >>= linked_ticket os)
      (as_arr (inside (some node) ("closingIssuesReferences" ∷ "nodes" ∷ [])))
