-- ===== src/Forge/Clients/Graphql.antt =====
-- One GraphQL request to GitHub: src/forge/graphql.ts.
use status_pipe.Base.{
  String, ◌||◌, Option, none, some, [], ◌∷◌, get_or, first, if◌then◌else◌, ◌^^◌, includes_folded,
}
use status_pipe.Protocol.Json.{Object, text, obj, str, get}
use status_pipe.Protocol.Json.Writing.{written}
use status_pipe.Forge.Mapping.{Unknown, as_arr, dig, safe_parse}
use status_pipe.Forge.Http.{
  Web, Method, Settled, ok, thrown, M, ◌>>=◌, ◌>>◌, http, note_rate, check_status, settle,
  forge_error,
}

pub record GraphqlEndpoint : Type 0 where
  pub api_url : String
  pub token : String

abbrev member_of : String → Option Object → Unknown
member_of k none = none
member_of k (some o) = get k o

abbrev pub classify_graphql_error : String → String
classify_graphql_error message =
    if includes_folded message "rate limit"
    then "rate-limit"
    else if includes_folded message "credentials"
        || includes_folded message "token"
        || includes_folded message "authorization"
    then "auth"
    else "network"

abbrev first_message : Option Object → String
first_message parsed =
    get_or (str (dig (first (as_arr (member_of "errors" parsed))) ("message" ∷ [])))
      "malformed GraphQL response"

module _ (w : Web) where
  unfoldable pub extract_graphql_data : String → Settled Object
  extract_graphql_data body =
      let parsed = obj (safe_parse w.js body) in
      elim (obj (member_of "data" parsed)) [
        | none ↦
            thrown
              (forge_error (classify_graphql_error (first_message parsed)) (first_message parsed))
        | some o ↦ ok o
      ]

  abbrev variables_member : Option Object → Object
  variables_member none = []
  variables_member (some o) = ("variables", written o) ∷ []

  unfoldable pub execute_graphql :
      {S : Type 0} → GraphqlEndpoint → String → Option Object → M S Object
  unfolding extract_graphql_data
  execute_graphql endpoint query variables = do
    response ← http w (record {
      url = endpoint.api_url ^^ "/graphql";
      method = Method.post;
      headers =
          ("authorization", "Bearer " ^^ endpoint.token)
          ∷ ("content-type", "application/json")
          ∷ ("user-agent", "status-pipe")
          ∷ [];
      body = some (w.to_json (written (("query", text query) ∷ variables_member variables)));
    })
    note_rate w response
    check_status w response
    settle (extract_graphql_data response.body)
