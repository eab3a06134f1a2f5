-- ===== src/Forge/Mapping/Bitbucket.antt =====
-- Bitbucket's answers as the data of the forge: src/forge/bitbucketMapping.ts without the Jira keys.
use status_pipe.Base.{
  String, Bool, true, false, not, ◌||◌, Option, none, some, List, [], ◌∷◌, get_or, map, map_some,
  keep, any, length, if◌then◌else◌, ◌==◌, is_some,
}
use status_pipe.Protocol.{PrState}
use status_pipe.Protocol.Json.{Json, Object, get, str, num, obj, is_true, ◌>>=◌}
use status_pipe.Protocol.Worker.{or_else_text}
use status_pipe.Forge.{
  CommentCounts, TaskCounts, ReviewDecision, PullRequestInfo, CheckStatus, Aggregate, Check,
  ChecksInfo, approved, changes_requested,
}
use status_pipe.Forge.Mapping.{Unknown, as_arr, as_objs, dig}

abbrev pub map_bitbucket_pr_state : Unknown → PrState
map_bitbucket_pr_state v =
    let s = get_or (str v) "" in
    if s == "MERGED"
    then PrState.merged_pr
    else if s == "DECLINED"
    then PrState.closed_pr
    else if s == "SUPERSEDED"
    then PrState.closed_pr
    else PrState.open_pr

abbrev text_at : String → Object → String
text_at k o = get_or (str (get k o)) ""

-- `asStr(p?.state) === state`
abbrev in_state : String → Option Object → Bool
in_state state none = false
in_state state (some p) = text_at "state" p == state

abbrev pub map_participants_decision : Object → Option ReviewDecision
map_participants_decision pr =
    let participants = as_objs (get "participants" pr) in
    if any (in_state "changes_requested") participants
    then some changes_requested
    else if any (in_state "approved") participants
    then some approved
    else none

abbrev pub map_reviewer_ids : Object → List String
map_reviewer_ids pr = map_some (λ r. str (dig (some r) ("uuid" ∷ []))) (as_arr (get "reviewers" pr))

unfoldable pub map_bitbucket_pr : Object → Option PullRequestInfo
unfolding dig
map_bitbucket_pr pr = do
  number ← num (get "id" pr)
  some (record {
    number = number;
    url = get_or (str (dig (get "links" pr) ("html" ∷ "href" ∷ []))) "";
    state = map_bitbucket_pr_state (get "state" pr);
    draft = is_true (get "draft" pr);
    title = text_at "title" pr;
    head_branch = get_or (str (dig (get "source" pr) ("branch" ∷ "name" ∷ []))) "";
    base_branch = get_or (str (dig (get "destination" pr) ("branch" ∷ "name" ∷ []))) "";
    comments = record {
      total = 0;
      resolvable = 0;
      unresolved = 0;
      pr_level_resolvable = false;
      capped = none;
    };
    tasks = none;
    review_decision = map_participants_decision pr;
    review_requests = some (map_reviewer_ids pr);
    updated_at = text_at "updated_on" pr;
  })

abbrev live_comment : Json → Option Object
live_comment v = obj (some v) >>= λ c. if is_true (get "deleted" c) then none else some c

abbrev is_inline : Object → Bool
is_inline c = is_some (obj (get "inline" c))

abbrev pub is_resolved : Object → Bool
is_resolved c = is_some (obj (get "resolution" c)) || is_true (get "resolved" c)

unfoldable pub map_bitbucket_comments : List Json → CommentCounts
map_bitbucket_comments values =
    let comments = map_some live_comment values in
    let inline = keep is_inline comments in
    record {
      total = length comments;
      resolvable = length inline;
      unresolved = length (keep (λ c. not (is_resolved c)) inline);
      pr_level_resolvable = false;
      capped = none;
    }

abbrev open_task : Object → Bool
open_task t = not (text_at "state" t == "RESOLVED")

unfoldable pub map_bitbucket_tasks : List Json → TaskCounts
map_bitbucket_tasks values =
    let tasks = map_some (λ v. obj (some v)) values in
    record { total = length tasks; unresolved = length (keep open_task tasks) }

abbrev pub map_status_state : Unknown → CheckStatus
map_status_state v =
    let s = get_or (str v) "" in
    if s == "SUCCESSFUL"
    then CheckStatus.passing
    else if s == "FAILED"
    then CheckStatus.failing
    else if s == "STOPPED"
    then CheckStatus.failing
    else CheckStatus.pending

abbrev status_check : Object → Check
status_check s = record {
  name = get_or (or_else_text (str (get "name" s)) (str (get "key" s))) "build";
  status = map_status_state (get "state" s);
  url = str (get "url" s);
}

abbrev is_failing : Check → Bool
is_failing c = elim c.status [ CheckStatus.failing ↦ true | _ ↦ false ]

abbrev is_pending : Check → Bool
is_pending c = elim c.status [ CheckStatus.pending ↦ true | _ ↦ false ]

abbrev pub aggregate_statuses : List Check → Aggregate
aggregate_statuses [] = Aggregate.no_checks
aggregate_statuses (c ∷ cs) =
    if any is_failing (c ∷ cs)
    then Aggregate.some_failing
    else if any is_pending (c ∷ cs)
    then Aggregate.some_pending
    else Aggregate.all_passing

unfoldable pub map_bitbucket_statuses : List Json → ChecksInfo
map_bitbucket_statuses values =
    let checks = map status_check (map_some (λ v. obj (some v)) values) in
    record { aggregate = aggregate_statuses checks; checks = checks }
