-- ===== src/Forge/Clients/Inventory.antt =====
-- The issue inventory of GitHub: src/forge/githubInventory.ts. The slug of a repository has an owner and a name.
use status_pipe.Base.{
  ℕ, String, Bool, false, ◌&&◌, ◌||◌, Option, none, some, List, [], ◌∷◌, ◌++◌, Dict, insert, map,
  map_some, find, get_or, if◌then◌else◌, ltb, leb, eqb, ◌==◌, ◌^^◌, any, is_decimal, join,
}
use status_pipe.Protocol.Json.{Json, Object, text, obj, str, num, get}
use status_pipe.Protocol.Json.Writing.{written, texts}
use status_pipe.Forge.Mapping.{Unknown, as_arr, dig, safe_parse}
use status_pipe.Forge.Http.{
  Web, Method, Settled, ok, thrown, M, ◌>>=◌, ◌>>◌, pure, throw, http, note_rate, check_status,
  settle, forge_error,
}
use status_pipe.Forge.Clients.Graphql.{GraphqlEndpoint, execute_graphql}
use status_pipe.Planner.Effects.{
  InventoryTicket, TicketState, open_issue, closed_issue, StateReason, completed, not_planned,
  reopened, Visibility, public_repo, private_repo,
}

pub record GithubInventory : Type 0 where
  pub api_url : String
  pub owner : String
  pub name : String
  pub token : String

abbrev visibility_query : String
visibility_query = "query($o:String!,$n:String!){ repository(owner:$o,name:$n){ visibility } }"

abbrev labeled_query : String
labeled_query =
    "query($o:String!,$n:String!,$labels:[String!]){\n" ^^ "\trepository(owner:$o,name:$n){\n"
    ^^ "\t\tissues(first:100, states:OPEN, labels:$labels, orderBy:{field:UPDATED_AT, direction:DESC}){\n"
    ^^ "\t\t\tnodes { number title url author { login } assignees(first: 20) { nodes { login } } }\n"
    ^^ "\t\t}\n" ^^ "\t}\n" ^^ "}"

abbrev search_query : String
search_query =
    "query($q:String!){ search(query:$q, type:ISSUE, first:50){ nodes { ... on Issue { number title url author { login } assignees(first: 20) { nodes { login } } } } } }"

abbrev slug : GithubInventory → String
slug g = g.owner ^^ "/" ^^ g.name

abbrev endpoint : GithubInventory → GraphqlEndpoint
endpoint g = record { api_url = g.api_url; token = g.token }

abbrev owner_and_name : GithubInventory → Object
owner_and_name g = ("o", text g.owner) ∷ ("n", text g.name) ∷ []

abbrev login_of : Json → Option String
login_of n = str (dig (some n) ("login" ∷ []))

abbrev logins_of : Unknown → List String
logins_of nodes = map_some login_of (as_arr nodes)

-- A key that is a positive number below 2 ^ 53, with the number.
abbrev max_safe_integer : ℕ
max_safe_integer = 9007199254740991

module _ (w : Web) where
  abbrev numbered : String → Option (String × ℕ)
  numbered key =
      let n = w.to_number key in
      if is_decimal key && leb n max_safe_integer && ltb 0 n then some (key, n) else none

  unfoldable pub numeric_keys : List String → List (String × ℕ)
  numeric_keys keys = map_some numbered keys

  abbrev distinct_numbers : List ℕ → List ℕ → List ℕ
  distinct_numbers seen [] = []
  distinct_numbers seen (n ∷ ns) =
      let fresh = n ∷ distinct_numbers (n ∷ seen) ns in
      let skipped = distinct_numbers seen ns in if any (λ m. eqb m n) seen then skipped else fresh

  abbrev pub alias : ℕ → String
  alias n = "i" ^^ w.show_number n

  abbrev issue_lookup : ℕ → String
  issue_lookup n = alias n ^^ ": issue(number:" ^^ w.show_number n ^^ "){ state stateReason }"

  unfoldable pub issue_states_query : List (String × ℕ) → String
  issue_states_query ns =
      "query($o:String!,$n:String!){ repository(owner:$o,name:$n){ "
      ^^ join " " (map issue_lookup (distinct_numbers [] (map (λ e. e.1) ns)))
      ^^ " } }"

  abbrev map_state_reason : Option String → Option StateReason
  map_state_reason none = none
  map_state_reason (some raw) =
      if raw == "COMPLETED"
      then some completed
      else if raw == "NOT_PLANNED" || raw == "DUPLICATE"
      then some not_planned
      else if raw == "REOPENED"
      then some reopened
      else none

  abbrev is_text : String → Option String → Bool
  is_text expected none = false
  is_text expected (some s) = s == expected

  unfoldable pub map_issue_state : Object → TicketState
  map_issue_state node = record {
    state = if is_text "CLOSED" (str (get "state" node)) then closed_issue else open_issue;
    state_reason = map_state_reason (str (get "stateReason" node));
  }

  abbrev pub add_state : Option Object → String → Dict TicketState → Dict TicketState
  add_state none key states = states
  add_state (some node) key states = insert key (map_issue_state node) states

  -- The loop, with the map so far.
  unfoldable pub collect_issue_states :
      Object → List (String × ℕ) → Dict TicketState → Dict TicketState
  collect_issue_states repo [] out = out
  collect_issue_states repo ((key, n) ∷ ns) out =
      collect_issue_states repo ns (add_state (obj (get (alias n) repo)) key out)

  abbrev number_named : Json → Option ℕ
  number_named node = num (dig (some node) ("number" ∷ []))

  abbrev issue_of : Json → ℕ → InventoryTicket
  issue_of node n = record {
    key = w.show_number n;
    title = get_or (str (dig (some node) ("title" ∷ []))) "";
    url = str (dig (some node) ("url" ∷ []));
    author = str (dig (some node) ("author" ∷ "login" ∷ []));
    assignees = logins_of (dig (some node) ("assignees" ∷ "nodes" ∷ []));
  }

  abbrev map_graphql_issue : Json → Option InventoryTicket
  map_graphql_issue node = elim (number_named node) [
    | none ↦ none
    | some n ↦ some (issue_of node n)
  ]

  unfoldable pub map_issue_nodes : Unknown → List InventoryTicket
  map_issue_nodes nodes = map_some map_graphql_issue (as_arr nodes)

  abbrev created_issue : Object → ℕ → InventoryTicket
  created_issue o n = record {
    key = w.show_number n;
    title = get_or (str (get "title" o)) "";
    url = str (get "html_url" o);
    author = str (dig (some (written o)) ("user" ∷ "login" ∷ []));
    assignees = logins_of (get "assignees" o);
  }

  unfoldable pub parse_created_issue : String → Settled InventoryTicket
  parse_created_issue body = elim (obj (safe_parse w.js body)) [
    | none ↦ thrown (forge_error "network" "malformed issue-create response")
    | some o ↦ elim (num (get "number" o)) [
      | none ↦ thrown (forge_error "network" "malformed issue-create response")
      | some n ↦ ok (created_issue o n)
    ]
  ]

  module _ (g : GithubInventory) where
    abbrev found_repository : {S : Type 0} → Option Object → M S Object
    found_repository none =
        throw (forge_error "not-found" ("repository " ^^ slug g ^^ " not found"))
    found_repository (some repo) = pure repo

    -- The `repository` of an answer; without one the call fails.
    abbrev repository_in : {S : Type 0} → Object → M S Object
    repository_in o = found_repository (obj (get "repository" o))

    -- Only an explicit PRIVATE counts as private.
    unfoldable pub visibility : {S : Type 0} → M S Visibility
    visibility = do
      answer ← execute_graphql w (endpoint g) visibility_query (some (owner_and_name g))
      repo ← repository_in answer
      pure (if is_text "PRIVATE" (str (get "visibility" repo)) then private_repo else public_repo)

    unfoldable pub viewer_login : {S : Type 0} → M S (Option String)
    viewer_login = do
      answer ← execute_graphql w (endpoint g) "query { viewer { login } }" none
      pure (str (dig (get "viewer" answer) ("login" ∷ [])))

    unfoldable pub list_labeled_issues : {S : Type 0} → String → M S (List InventoryTicket)
    list_labeled_issues label = do
      answer ←
          execute_graphql w (endpoint g) labeled_query
            (some (owner_and_name g ++ ("labels", texts (label ∷ [])) ∷ []))
      repo ← repository_in answer
      pure (map_issue_nodes (dig (get "issues" repo) ("nodes" ∷ [])))

    abbrev ask_states : {S : Type 0} → List (String × ℕ) → M S (Dict TicketState)
    ask_states [] = pure []
    ask_states (x ∷ xs) = do
      answer ←
          execute_graphql w (endpoint g) (issue_states_query (x ∷ xs)) (some (owner_and_name g))
      repo ← repository_in answer
      pure (collect_issue_states repo (x ∷ xs) [])

    unfoldable pub get_issue_states : {S : Type 0} → List String → M S (Dict TicketState)
    get_issue_states keys = ask_states (numeric_keys keys)

    unfoldable pub find_issue_by_title : {S : Type 0} → String → M S (Option InventoryTicket)
    find_issue_by_title title = do
      answer ← execute_graphql w (endpoint g) search_query (
          some (
            (
              "q",
              text ("repo:" ^^ slug g ^^ " is:issue is:open in:title " ^^ w.to_json (text title)),
            )
            ∷ []))
      pure (
          find (λ (i : InventoryTicket). i.title == title)
            (map_issue_nodes (dig (get "search" answer) ("nodes" ∷ []))))

    unfoldable pub create_labeled_issue : {S : Type 0} → String → String → M S InventoryTicket
    create_labeled_issue title label = do
      response ← http w (record {
        url = g.api_url ^^ "/repos/" ^^ slug g ^^ "/issues";
        method = Method.post;
        headers =
            ("authorization", "Bearer " ^^ g.token)
            ∷ ("content-type", "application/json")
            ∷ ("accept", "application/vnd.github+json")
            ∷ ("user-agent", "status-pipe")
            ∷ [];
        body =
            some
              (w.to_json (written (("title", text title) ∷ ("labels", texts (label ∷ [])) ∷ [])));
      })
      note_rate w response
      check_status w response
      settle (parse_created_issue response.body)
