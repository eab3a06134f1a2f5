-- ===== src/Forge/Clients/Github.antt =====
-- The pull requests of a GitHub repository: the class GithubRepository of src/forge/github.ts. One request asks for all of the
-- tracked numbers; what it answers is kept, and the checks and tickets are read from it.
use status_pipe.Base.{
  ℕ, ◌+◌, String, Bool, true, false, Option, none, some, List, [], ◌∷◌, map, map_some, is_some,
  ◌^^◌, join, split, first, get_or,
}
use status_pipe.Base.Platform.{Platform}
use status_pipe.Protocol.Json.{Object, text, obj, str, get}
use status_pipe.Protocol.Worker.{or_else_text}
use status_pipe.Forge.{PullRequestInfo, ChecksInfo, TicketRef, Aggregate}
use status_pipe.Forge.Mapping.{dig}
use status_pipe.Forge.Mapping.Github.{map_github_pr, map_github_checks, map_github_linked_tickets}
use status_pipe.Forge.Enricher.{NumberMap, find_number, put_number}
use status_pipe.Forge.Http.{Web, M, ◌>>=◌, ◌>>◌, pure, throw, forge_error, read_state, write_state}
use status_pipe.Forge.Clients.Graphql.{GraphqlEndpoint, execute_graphql}

pub record PrBundle : Type 0 where
  pub info : PullRequestInfo
  pub checks : ChecksInfo
  pub linked_tickets : List TicketRef

pub record GithubRepository : Type 0 where
  pub bundles : NumberMap PrBundle
  pub viewer_login : Option String

abbrev pub new_repository : GithubRepository
new_repository = record { bundles = []; viewer_login = none }

abbrev pr_fields : String
pr_fields =
    "\n" ^^ "\tnumber url state isDraft title headRefName baseRefName updatedAt\n"
    ^^ "\tcomments { totalCount }\n"
    ^^ "\treviewThreads(first: 100) { totalCount nodes { isResolved comments { totalCount } } }\n"
    ^^ "\treviewDecision\n"
    ^^ "\treviewRequests(first: 20) { nodes { requestedReviewer { ... on User { login } ... on Team { slug } } } }\n"
    ^^ "\tclosingIssuesReferences(first: 10) { nodes { number title url } }\n"
    ^^ "\tcommits(last: 1) { nodes { commit { statusCheckRollup { state contexts(first: 50) { nodes {\n"
    ^^ "\t\t... on CheckRun { name status conclusion detailsUrl }\n"
    ^^ "\t\t... on StatusContext { context state targetUrl }\n" ^^ "\t} } } } } }"

abbrev second : List String → String
second (a ∷ b ∷ rest) = b
second _ = "undefined"

module _ (os : Platform) (w : Web) (slug : String) (endpoint : GraphqlEndpoint) where
  abbrev pr_alias : ℕ → String
  pr_alias i = "pr" ^^ w.show_number i

  abbrev pr_lookups : ℕ → List ℕ → List String
  pr_lookups i [] = []
  pr_lookups i (n ∷ ns) =
      (pr_alias i ^^ ": pullRequest(number: " ^^ w.show_number n ^^ ") {" ^^ pr_fields ^^ "\n}")
      ∷ pr_lookups (i + 1) ns

  abbrev quoted : String → String
  quoted s = w.to_json (text s)

  unfoldable pub build_query : List ℕ → String
  build_query numbers =
      "query {\n\t\t\tviewer { login }\n\t\t\trepository(owner: "
      ^^ quoted (get_or (first (split b'/' slug)) "")
      ^^ ", name: "
      ^^ quoted (second (split b'/' slug))
      ^^ ") {\n\t\t\t\t"
      ^^ join "\n" (pr_lookups 0 numbers)
      ^^ "\n\t\t\t}\n\t\t}"

  abbrev bundle_of : Object → Option PrBundle
  bundle_of node = elim (map_github_pr node) [
    | none ↦ none
    | some info ↦ some (record {
      info = info;
      checks = map_github_checks node;
      linked_tickets = map_github_linked_tickets os node;
    })
  ]

  abbrev bundle_in : Option Object → Option PrBundle
  bundle_in none = none
  bundle_in (some node) = bundle_of node

  abbrev keep_bundle : ℕ → Option PrBundle → NumberMap PrBundle → NumberMap PrBundle
  keep_bundle n none bundles = bundles
  keep_bundle n (some b) bundles = put_number n b bundles

  -- `numbers.forEach`, with the index. A pull request that is not answered keeps what was known of it.
  unfoldable pub ingest_each : Object → ℕ → List ℕ → NumberMap PrBundle → NumberMap PrBundle
  ingest_each repo i [] bundles = bundles
  ingest_each repo i (n ∷ ns) bundles =
      ingest_each repo (i + 1) ns (keep_bundle n (bundle_in (obj (get (pr_alias i) repo))) bundles)

  abbrev ingest_in : Option Object → List ℕ → M GithubRepository (Unit {0})
  ingest_in none numbers = throw (forge_error "not-found" ("repository " ^^ slug ^^ " not found"))
  ingest_in (some repo) numbers = do
    s ← read_state
    write_state (record s { bundles = ingest_each repo 0 numbers s.bundles })

  unfoldable pub ingest : Object → List ℕ → M GithubRepository (Unit {0})
  unfolding ingest_each
  ingest answer numbers = do
    s ← read_state
    write_state (record s {
      viewer_login = or_else_text (str (dig (get "viewer" answer) ("login" ∷ []))) s.viewer_login;
    })
    ingest_in (obj (get "repository" answer)) numbers

  abbrev infos : List ℕ → GithubRepository → List PullRequestInfo
  infos numbers s = map (λ (b : PrBundle). b.info) (map_some (λ n. find_number n s.bundles) numbers)

  unfoldable pub get_pull_requests : List ℕ → M GithubRepository (List PullRequestInfo)
  unfolding ingest
  get_pull_requests [] = pure []
  get_pull_requests (n ∷ ns) = do
    answer ← execute_graphql w endpoint (build_query (n ∷ ns)) none
    ingest answer (n ∷ ns)
    s ← read_state
    pure (infos (n ∷ ns) s)

  abbrev ask_if : Bool → ℕ → M GithubRepository (List PullRequestInfo)
  ask_if true number = pure []
  ask_if false number = get_pull_requests (number ∷ [])

  unfoldable pub bundle_for : ℕ → M GithubRepository (Option PrBundle)
  unfolding get_pull_requests
  bundle_for number = do
    s ← read_state
    asked ← ask_if (is_some (find_number number s.bundles)) number
    s' ← read_state
    pure (find_number number s'.bundles)

  abbrev checks_of : Option PrBundle → ChecksInfo
  checks_of none = record { aggregate = Aggregate.no_checks; checks = [] }
  checks_of (some b) = b.checks

  abbrev tickets_of : Option PrBundle → List TicketRef
  tickets_of none = []
  tickets_of (some b) = b.linked_tickets

  unfoldable pub get_checks : ℕ → M GithubRepository ChecksInfo
  unfolding bundle_for
  get_checks number = do b ← bundle_for number; pure (checks_of b)

  unfoldable pub get_linked_tickets : ℕ → M GithubRepository (List TicketRef)
  unfolding bundle_for
  get_linked_tickets number = do b ← bundle_for number; pure (tickets_of b)

  abbrev ask_viewer : Option String → M GithubRepository (Option String)
  ask_viewer (some login) = pure (some login)
  ask_viewer none = do
    answer ← execute_graphql w endpoint "query { viewer { login } }" none
    s ← read_state
    write_state (record s { viewer_login = str (dig (get "viewer" answer) ("login" ∷ [])) })
    pure (str (dig (get "viewer" answer) ("login" ∷ [])))

  unfoldable pub get_viewer_login : M GithubRepository (Option String)
  get_viewer_login = do s ← read_state; ask_viewer s.viewer_login
