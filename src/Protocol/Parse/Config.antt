-- ===== src/Protocol/Parse/Config.antt =====
-- parseConfigFile of src/protocol/parse.ts.
use status_pipe.Base.{String, Option, none, some, List, [], ◌∷◌, get_or, flat_map}
use status_pipe.Protocol.{ConfigFile, TicketSourceId, TrustMode, ParseResult, parsed}
use status_pipe.Protocol.Json.{
  Json, Object, Engine, array, get, str, num, str_array, obj, named_in, ◌>>=◌,
}
use status_pipe.Protocol.Parse.{parse_versioned, if_parsed}

abbrev pub source_name : TicketSourceId → String
source_name TicketSourceId.github_issues = "github-issues"
source_name TicketSourceId.jira_cloud = "jira-cloud"

abbrev pub trust_mode_name : TrustMode → String
trust_mode_name TrustMode.single_maintainer = "single-maintainer"
trust_mode_name TrustMode.multi_maintainer = "multi-maintainer"
trust_mode_name TrustMode.public = "public"

abbrev pub ticket_source_from_json : Object → Option TicketSourceId
ticket_source_from_json tickets =
    named_in source_name (TicketSourceId.github_issues ∷ TicketSourceId.jira_cloud ∷ [])
      (str (get "source" tickets))

-- `obj(v)?.k`
abbrev inside : String → Option Json → Option Json
inside k v = obj v >>= get k

abbrev pub trust_mode_from_json : Object → Option TrustMode
trust_mode_from_json o =
    named_in trust_mode_name
      (TrustMode.single_maintainer ∷ TrustMode.multi_maintainer ∷ TrustMode.public ∷ [])
      (str (inside "mode" (get "trust" o)))

-- The texts of every channel of an object.
abbrev by_channel : Option Object → List String
by_channel none = []
by_channel (some o) = flat_map (λ e. str_array (some e.1)) o

-- The array form, or the form by channel.
abbrev pub flattened : Option Json → List String
flattened (some (array xs)) = str_array (some (array xs))
flattened v = by_channel (obj v)

abbrev pub trust_operators_from_json : Object → List String
trust_operators_from_json o = flattened (inside "operators" (get "trust" o))

abbrev pub inventory_assignees_from_json : Option Json → List String
inventory_assignees_from_json inventory = flattened (inside "assignees" inventory)

unfoldable pub config_value_from_json : Object → ConfigFile
config_value_from_json o =
    let tickets = get_or (obj (get "tickets" o)) [] in
    let jira = get_or (obj (get "jira" tickets)) [] in
    let inventory = get "inventory" o in
    record {
      schema_version = 1;
      epics_dir = get_or (str (inside "dir" (get "epics" o))) "epics";
      inventory_label = get_or (str (inside "label" inventory)) "agent-queue";
      inventory_assignees = inventory_assignees_from_json inventory;
      ticket_source = ticket_source_from_json tickets;
      jira_site_url = str (get "siteUrl" jira);
      jira_project_key = str (get "projectKey" jira);
      stale_worker_minutes = num (get "staleWorkerMinutes" o);
      trust_mode = trust_mode_from_json o;
      trust_operators = trust_operators_from_json o;
    }

unfoldable pub parse_config_file : Engine → String → ParseResult ConfigFile
unfolding config_value_from_json
parse_config_file js raw = if_parsed (parse_versioned js raw) λ o. parsed (config_value_from_json o)
