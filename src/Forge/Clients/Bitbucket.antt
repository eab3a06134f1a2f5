-- ===== src/Forge/Clients/Bitbucket.antt =====
-- The pull requests of a Bitbucket repository: the class BitbucketRepository of src/forge/bitbucket.ts. A read sends the
-- tag of what was read before, and 304 stands for that. The requests that run together are sent one after another here; if
-- one fails the others are still made. Jira keys in texts are left out.
pub mod Caching
pub mod Paging
use status_pipe.Base.{
  ℕ, zero, suc, String, Bool, true, false, Option, none, some, List, [], ◌∷◌, ◌++◌, Dict, insert,
  lookup, map_some, eqb, if◌then◌else◌, ◌^^◌, includes,
}
use status_pipe.Protocol.Json.{Json, Object, obj, str, get}
use status_pipe.Protocol.Worker.{nonempty}
use status_pipe.Forge.{PullRequestInfo, ChecksInfo}
use status_pipe.Forge.Mapping.{as_arr, safe_parse}
use status_pipe.Forge.Mapping.Bitbucket.{
  map_bitbucket_pr, map_bitbucket_comments, map_bitbucket_tasks, map_bitbucket_statuses,
}
use status_pipe.Forge.Enricher.{NumberMap, put_number}
use status_pipe.Forge.Http.{
  Web, Method, HttpRequest, HttpResponse, Settled, ok, thrown, M, ◌>>=◌, ◌>>◌, pure, throw, http,
  check_status, forge_error, read_state, write_state,
}

pub record EtagEntry : Type 0 where
  pub etag : String
  pub body : String

pub record BitbucketRepository : Type 0 where
  pub etags : Dict EtagEntry
  pub pr_json : NumberMap Object
  pub viewer_id : Option String

abbrev pub new_repository : BitbucketRepository
new_repository = record { etags = []; pr_json = []; viewer_id = none }

pub record BitbucketConfig : Type 0 where
  pub api_url : String
  pub slug : String
  pub username : Option String
  pub token : String

-- What a page walk ends with: the values, or the fuel ran out.
pub data Walk : Type 0 where
  walked : List Json → Walk
  out_of_fuel : Walk

module _ (w : Web) (c : BitbucketConfig) where
  abbrev auth_header : String
  auth_header = elim (nonempty c.username) [
    | none ↦ "Bearer " ^^ c.token
    | some name ↦ "Basic " ^^ w.base64 (name ^^ ":" ^^ c.token)
  ]

  abbrev tag_header : Option EtagEntry → Dict String
  tag_header none = []
  tag_header (some e) = ("if-none-match", e.etag) ∷ []

  abbrev pub build_request : String → BitbucketRepository → HttpRequest
  build_request url s = record {
    url = url;
    method = Method.get;
    headers =
        ("authorization", auth_header)
        ∷ ("accept", "application/json")
        ∷ ("user-agent", "status-pipe")
        ∷ tag_header (lookup url s.etags);
    body = none;
  }

  -- An empty tag is not kept.
  abbrev pub store_etag : String → HttpResponse → BitbucketRepository → BitbucketRepository
  store_etag url response s = elim (nonempty (response.header "etag")) [
    | none ↦ s
    | some tag ↦ record s {
      etags = insert url (record { etag = tag; body = response.body }) s.etags;
    }
  ]

  abbrev pub cached_body : String → BitbucketRepository → Option Object
  cached_body url s = elim (lookup url s.etags) [
    | none ↦ none
    | some e ↦ obj (safe_parse w.js e.body)
  ]

  abbrev pub parsed_or_throw : String → M BitbucketRepository (Option Object)
  parsed_or_throw body = elim (obj (safe_parse w.js body)) [
    | none ↦ throw (forge_error "network" "malformed Bitbucket response")
    | some o ↦ pure (some o)
  ]

  abbrev pub fresh_body : String → HttpResponse → M BitbucketRepository (Option Object)
  fresh_body url response = do
    check_status w response
    s ← read_state
    write_state (store_etag url response s)
    parsed_or_throw response.body

  abbrev from_cache : String → M BitbucketRepository (Option Object)
  from_cache url = do s ← read_state; pure (cached_body url s)

  -- What is gone at the forge is no failure.
  abbrev pub body_of : String → HttpResponse → M BitbucketRepository (Option Object)
  body_of url response =
      if eqb response.status 304
      then from_cache url
      else if eqb response.status 404
      then pure none
      else fresh_body url response

  unfoldable pub get_json : String → M BitbucketRepository (Option Object)
  get_json url = do s ← read_state; response ← http w (build_request url s); body_of url response

  abbrev pub after_page :
      (String → M BitbucketRepository Walk) → List Json → Option String → M BitbucketRepository Walk
  after_page rest values none = pure (walked values)
  after_page rest values (some String.[]) = pure (walked values)
  after_page rest values (some (String.◌∷◌ ch next)) = rest (String.◌∷◌ ch next)

  -- The loop, on fuel, with the values so far.
  unfoldable pub pages_from : ℕ → List Json → String → M BitbucketRepository Walk
  unfolding get_json
  pages_from zero values next = pure out_of_fuel
  pages_from (suc fuel) values next = do
    page ← get_json next
    elim page [
      | none ↦ pure (walked values)
      | some o ↦
          after_page (pages_from fuel (values ++ as_arr (get "values" o)))
            (values ++ as_arr (get "values" o)) (str (get "next" o))
    ]

  unfoldable pub get_paged : ℕ → String → M BitbucketRepository Walk
  unfolding pages_from
  get_paged fuel url =
      pages_from fuel [] (url ^^ (if includes url "?" then "&" else "?") ^^ "pagelen=100")

  abbrev pr_path : ℕ → String → String
  pr_path number suffix =
      c.api_url ^^ "/repositories/" ^^ c.slug ^^ "/pullrequests/" ^^ w.show_number number ^^ suffix

  abbrev values_of : Walk → List Json
  values_of (walked values) = values
  values_of out_of_fuel = []

  abbrev with_counts : PullRequestInfo → Walk → Walk → PullRequestInfo
  with_counts info comments tasks = record info {
    comments = map_bitbucket_comments (values_of comments);
    tasks = some (map_bitbucket_tasks (values_of tasks));
  }

  -- `Promise.all` of two calls: both are made, and the first failure is thrown.
  abbrev both : {A B S : Type 0} → M S A → M S B → M S (A × B)
  both m n s =
      let first = m s in
      let second = n first.1 in
      elim first.0 [
        | thrown e ↦ (thrown e, second.1)
        | ok a ↦ elim second.0 [ thrown e ↦ (thrown e, second.1) | ok b ↦ (ok (a, b), second.1) ]
      ]

  abbrev fetch_counts : ℕ → ℕ → PullRequestInfo → M BitbucketRepository (Option PullRequestInfo)
  fetch_counts fuel number info = do
    counts ←
        both (get_paged fuel (pr_path number "/comments"))
          (get_paged fuel (pr_path number "/tasks"))
    pure (some (with_counts info counts.0 counts.1))

  abbrev note_pr : ℕ → Object → M BitbucketRepository (Unit {0})
  note_pr number o = do
    s ← read_state
    write_state (record s { pr_json = put_number number o s.pr_json })

  abbrev mapped_pr : ℕ → ℕ → Object → M BitbucketRepository (Option PullRequestInfo)
  mapped_pr fuel number o = do
    note_pr number o
    elim (map_bitbucket_pr o) [ none ↦ pure none | some info ↦ fetch_counts fuel number info ]

  unfoldable pub fetch_pr : ℕ → ℕ → M BitbucketRepository (Option PullRequestInfo)
  unfolding get_json get_paged
  fetch_pr fuel number = do
    pr ← get_json (pr_path number "")
    elim pr [ none ↦ pure none | some o ↦ mapped_pr fuel number o ]

  abbrev prepend : Option PullRequestInfo × List PullRequestInfo → List PullRequestInfo
  prepend (none, rest) = rest
  prepend (some info, rest) = info ∷ rest

  unfoldable pub get_pull_requests : ℕ → List ℕ → M BitbucketRepository (List PullRequestInfo)
  unfolding fetch_pr
  get_pull_requests fuel [] = pure []
  get_pull_requests fuel (n ∷ ns) = do
    found ← both (fetch_pr fuel n) (get_pull_requests fuel ns)
    pure (prepend found)

  unfoldable pub get_checks : ℕ → ℕ → M BitbucketRepository ChecksInfo
  unfolding get_paged
  get_checks fuel number = do
    statuses ← get_paged fuel (pr_path number "/statuses")
    pure (map_bitbucket_statuses (values_of statuses))

  abbrev uuid_of : Option Object → Option String
  uuid_of none = none
  uuid_of (some user) = str (get "uuid" user)

  abbrev ask_viewer : Option String → M BitbucketRepository (Option String)
  ask_viewer (some id) = pure (some id)
  ask_viewer none = do
    user ← get_json (c.api_url ^^ "/user")
    s ← read_state
    write_state (record s { viewer_id = uuid_of user })
    pure (uuid_of user)

  unfoldable pub get_viewer_login : M BitbucketRepository (Option String)
  unfolding get_json
  get_viewer_login = do s ← read_state; ask_viewer s.viewer_id
