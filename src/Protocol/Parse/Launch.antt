-- ===== src/Protocol/Parse/Launch.antt =====
-- parseLaunchFile of src/protocol/parse.ts.
use status_pipe.Base.{
  ℕ, suc, String, Option, none, some, List, [], ◌∷◌, get_or, map_some, ◌^^◌, ◌==◌, if◌then◌else◌,
  Dict,
}
use status_pipe.Protocol.{
  LaunchAgent, LaunchFile, AgentType, AgentLifetime, ParseResult, parsed, failed, ParseFailure,
  planner_id, worker_id,
}
use status_pipe.Protocol.Json.{
  Json, Object, Engine, get, str, num, str_array, obj, obj_array, ◌>>=◌,
}
use status_pipe.Base.Platform.{Platform}
use status_pipe.Protocol.Worker.{nonempty}
use status_pipe.Protocol.Parse.{parse_versioned, if_parsed}

abbrev pub agent_type_from_json : Option Json → AgentType
agent_type_from_json v =
    let type = get_or (str v) "" in
    if type == "claude"
    then AgentType.claude
    else if type == "built-in"
    then AgentType.built_in
    else AgentType.exec

abbrev pub agent_lifetime_from_json : Option Json → AgentLifetime
agent_lifetime_from_json v =
    if get_or (str v) "" == "daemon" then AgentLifetime.daemon else AgentLifetime.scheduled

abbrev claude_flags : List String
claude_flags = "--output-format" ∷ "stream-json" ∷ "--verbose" ∷ "--permission-mode" ∷ "auto" ∷ []

abbrev pub claude_role_args : String → Option (List String)
claude_role_args id =
    if id == worker_id
    then some ("-p" ∷ "%prompt%" ∷ claude_flags)
    else if id == planner_id
    then some ("-p" ∷ "/status-pipe:tick --max-concurrent 3" ∷ claude_flags)
    else none

pub record Command : Type 0 where
  pub command : String
  pub args : List String

-- The user's arguments, or those of the role.
abbrev claude_args : List String → String → Option (List String)
claude_args [] id = claude_role_args id
claude_args (x ∷ xs) id = some (x ∷ xs)

unfoldable pub resolve_command : AgentType → String → Object → Option Command
resolve_command AgentType.built_in id a =
    if id == planner_id then some (record { command = ""; args = [] }) else none
resolve_command AgentType.claude id a = do
  args ← claude_args (str_array (get "args" a)) id
  some (record { command = get_or (nonempty (str (get "command" a))) "claude"; args = args })
resolve_command AgentType.exec id a = do
  command ← nonempty (str (get "command" a))
  some (record { command = command; args = str_array (get "args" a) })

abbrev text_entry : String × Json → Option (String × String)
text_entry e = str (some e.1) >>= λ s. some (e.0, s)

abbrev pub env_from_json : Option Json → Dict String
env_from_json v = map_some text_entry (get_or (obj v) [])

unfoldable pub launch_agent_from_json : Platform → Object → ℕ → Option LaunchAgent
unfolding resolve_command
launch_agent_from_json os a index = do
  let id = get_or (str (get "id" a)) ("agent-" ^^ os.show_number index)
  let type = agent_type_from_json (get "type" a)
  resolved ← resolve_command type id a
  some (record {
    id = id;
    title = get_or (str (get "title" a)) id;
    type = type;
    command = resolved.command;
    args = resolved.args;
    stdin = get_or (str (get "stdin" a)) "";
    cwd = get_or (str (get "cwd" a)) ".";
    env = env_from_json (get "env" a);
    lifetime = agent_lifetime_from_json (get "lifetime" a);
    interval_minutes = get_or (num (get "intervalMinutes" a)) 10;
    timeout_minutes = get_or (num (get "timeoutMinutes" a)) 45;
  })

unfoldable pub agents_from : Platform → List Object → ℕ → List LaunchAgent
unfolding launch_agent_from_json
agents_from os [] index = []
agents_from os (a ∷ as_) index =
    let rest = agents_from os as_ (suc index) in
    elim (launch_agent_from_json os a index) [ none ↦ rest | some agent ↦ agent ∷ rest ]

abbrev launch_file : String → List LaunchAgent → ParseResult LaunchFile
launch_file raw [] = failed ParseFailure.corrupt raw "no valid agents[] entries"
launch_file raw (a ∷ rest) = parsed (record { schema_version = 1; agents = a ∷ rest })

unfoldable pub parse_launch_file : Engine → Platform → String → ParseResult LaunchFile
unfolding agents_from
parse_launch_file js os raw =
    if_parsed (parse_versioned js raw)
      λ o. launch_file raw (agents_from os (obj_array (get "agents" o)) 0)
