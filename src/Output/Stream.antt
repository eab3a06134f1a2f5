-- ===== src/Output/Stream.antt =====
-- The stream of JSON lines that a claude process writes, folded into what it is doing: src/output/claudeStream.ts. Texts
-- are code points; `truncate` counts UTF-16 units and leaves out a character that its cut would split.
pub mod Chunks
use Prim.Native.Char.{Char, code}
use status_pipe.Base.{
  ℕ, zero, suc, ◌+◌, ◌-◌, String, Bool, true, false, not, ◌&&◌, ◌||◌, Option, none, some, List, [],
  ◌∷◌, get_or, if◌then◌else◌, ltb, leb, eqb, any, ◌^^◌, ◌==◌, is_some, length, drop, starts_with,
  map, trim, is_empty,
}
use status_pipe.Protocol.Worker.{or_else_text, nonempty}
use status_pipe.Protocol.Json.{
  Engine, Json, Object, bad, good, array, items_of, get, str, num, obj, is_true, ◌>>=◌,
}

pub data ActivityPhase : Type 0 where
  starting working done error : ActivityPhase

pub record RunResult : Type 0 where
  pub ok : Bool
  pub text : Option String

pub record AgentActivity : Type 0 where
  pub phase : Option ActivityPhase
  pub model : Option String
  pub last_text : Option String
  pub current_tool : Option String
  pub current_tool_detail : Option String
  pub tool_calls : ℕ
  pub input_tokens : ℕ
  pub output_tokens : ℕ
  pub cost_usd : Option ℕ
  pub duration_ms : Option ℕ
  pub num_turns : Option ℕ
  pub result : Option RunResult

abbrev pub empty_activity : AgentActivity
empty_activity = record {
  phase = none;
  model = none;
  last_text = none;
  current_tool = none;
  current_tool_detail = none;
  tool_calls = 0;
  input_tokens = 0;
  output_tokens = 0;
  cost_usd = none;
  duration_ms = none;
  num_turns = none;
  result = none;
}

unfoldable pub parse_stream_line : Engine → String → Option Object
parse_stream_line js line =
    let trimmed = trim line in
    if starts_with trimmed "{"
    then elim (js.json_parse trimmed) [ bad message ↦ none | good v ↦ obj (some v) ]
    else none

abbrev as_arr : Option Json → List Json
as_arr (some (array xs)) = items_of xs
as_arr _ = []

-- The segments between slashes.
abbrev pub split_path : String → List String
split_path String.[] = "" ∷ []
split_path (String.◌∷◌ c s) =
    let rest = split_path s in
    if eqb (code c) b'/' then "" ∷ rest else prepended (String.◌∷◌ c "") rest
  where
    prepended : String → List String → List String
    prepended c [] = c ∷ []
    prepended c (x ∷ xs) = (c ^^ x) ∷ xs

join_path : List String → String
join_path [] = ""
join_path (x ∷ []) = x
join_path (x ∷ y ∷ xs) = x ^^ "/" ^^ join_path (y ∷ xs)

-- `path.split('/').slice(-2).join('/')`
last_two : String → String
unfolding join_path
last_two path = let segments = split_path path in join_path (drop (length segments - 2) segments)

-- The UTF-16 units of a character.
abbrev units : Char → ℕ
units c = if ltb 65535 (code c) then 2 else 1

abbrev utf16_length : String → ℕ
utf16_length String.[] = 0
utf16_length (String.◌∷◌ c s) = units c + utf16_length s

abbrev take_units : ℕ → String → String
take_units n String.[] = ""
take_units n (String.◌∷◌ c s) =
    let rest = take_units (n - units c) s in if leb (units c) n then String.◌∷◌ c rest else ""

unfoldable pub truncate : String → String
truncate text = if ltb 60 (utf16_length text) then take_units 57 text ^^ "…" else text

-- `a ?? b ?? c` of three members.
abbrev first_of : String → String → String → Object → Option String
first_of a b c o = or_else_text (str (get a o)) (or_else_text (str (get b o)) (str (get c o)))

unfoldable pub tool_detail : Option String → Option Object → Option String
unfolding last_two truncate
tool_detail name none = none
tool_detail name (some input) =
    elim (nonempty (first_of "file_path" "path" "notebook_path" input)) [
      | some path ↦ some (last_two path)
      | none ↦ elim (nonempty (str (get "command" input))) [
        | some command ↦ some (truncate command)
        | none ↦ elim (nonempty (first_of "pattern" "query" "url" input)) [
          | some pattern ↦ some pattern
          | none ↦ if get_or name "" == "Task" then str (get "description" input) else none
        ]
      ]
    ]

abbrev or_number : Option ℕ → Option ℕ → Option ℕ
or_number none old = old
or_number (some n) old = some n

unfoldable pub apply_usage : Option Object → AgentActivity → AgentActivity
apply_usage none a = a
apply_usage (some usage) a = record a {
  input_tokens = get_or (num (get "input_tokens" usage)) a.input_tokens;
  output_tokens = get_or (num (get "output_tokens" usage)) a.output_tokens;
}

unfoldable pub apply_system : Object → AgentActivity → AgentActivity
apply_system event a =
    if get_or (str (get "subtype" event)) "" == "init"
    then record a {
      phase = some ActivityPhase.starting;
      model = or_else_text (str (get "model" event)) a.model;
    }
    else a

abbrev said : Option String → AgentActivity → AgentActivity
said none a = a
said (some text) a = if is_empty (trim text) then a else record a { last_text = some (trim text) }

unfoldable pub apply_content_block : Option Object → AgentActivity → AgentActivity
unfolding tool_detail
apply_content_block none a = a
apply_content_block (some block) a =
    let type = get_or (str (get "type" block)) "" in
    if type == "text"
    then said (str (get "text" block)) a
    else if type == "tool_use"
    then record a {
      tool_calls = a.tool_calls + 1;
      current_tool = str (get "name" block);
      current_tool_detail = tool_detail (str (get "name" block)) (obj (get "input" block));
    }
    else a

apply_blocks : List Json → AgentActivity → AgentActivity
unfolding apply_content_block
apply_blocks [] a = a
apply_blocks (b ∷ bs) a = apply_blocks bs (apply_content_block (obj (some b)) a)

apply_message : Option Object → AgentActivity → AgentActivity
unfolding apply_usage apply_blocks
apply_message none a = a
apply_message (some message) a = apply_blocks (as_arr (get "content" message)) (
    apply_usage (obj (get "usage" message))
      (record a { model = or_else_text (str (get "model" message)) a.model }))

unfoldable pub apply_assistant : Object → AgentActivity → AgentActivity
unfolding apply_message
apply_assistant event a =
    apply_message (obj (get "message" event)) (record a { phase = some ActivityPhase.working })

abbrev is_error_result : Object → Bool
is_error_result event =
    is_true (get "is_error" event) || starts_with (get_or (str (get "subtype" event)) "") "error"

unfoldable pub apply_result : Object → AgentActivity → AgentActivity
unfolding apply_usage
apply_result event a =
    let failed = is_error_result event in
    let counted = apply_usage (obj (get "usage" event)) (record a {
      phase = some (if failed then ActivityPhase.error else ActivityPhase.done);
      cost_usd = or_number (num (get "total_cost_usd" event)) a.cost_usd;
      duration_ms = or_number (num (get "duration_ms" event)) a.duration_ms;
      num_turns = or_number (num (get "num_turns" event)) a.num_turns;
    }) in
    record counted { result = some (record { ok = not failed; text = str (get "result" event) }) }

unfoldable pub apply : Object → AgentActivity → AgentActivity
unfolding apply_system apply_assistant apply_result
apply event a =
    let type = get_or (str (get "type" event)) "" in
    if type == "system"
    then apply_system event a
    else if type == "assistant"
    then apply_assistant event a
    else if type == "result"
    then apply_result event a
    else a

pub record ActivityReducer : Type 0 where
  pub buffer : String
  pub activity : AgentActivity

-- Also what `reset` leaves.
abbrev pub new_reducer : ActivityReducer
new_reducer = record { buffer = ""; activity = empty_activity }

abbrev pub longer : Char → List String × String → List String × String
longer c ([], rest) = ([], String.◌∷◌ c rest)
longer c (l ∷ ls, rest) = (String.◌∷◌ c l ∷ ls, rest)

-- The complete lines of a buffer and what is held back after them, as the loop over `indexOf('\n')` cuts them off.
unfoldable pub cut_lines : String → List String × String
cut_lines String.[] = ([], "")
cut_lines (String.◌∷◌ c s) =
    let cut = cut_lines s in if eqb (code c) 10 then ("" ∷ cut.0, cut.1) else longer c cut

unfoldable pub apply_line : Engine → String → AgentActivity → AgentActivity
unfolding parse_stream_line apply
apply_line js line a = elim (parse_stream_line js line) [ none ↦ a | some event ↦ apply event a ]

unfoldable pub apply_lines : Engine → List String → AgentActivity → AgentActivity
unfolding apply_line
apply_lines js [] a = a
apply_lines js (l ∷ ls) a = apply_lines js ls (apply_line js l a)

unfoldable pub push_chunk : Engine → String → ActivityReducer → ActivityReducer
unfolding cut_lines apply_lines
push_chunk js chunk r =
    let cut = cut_lines (r.buffer ^^ chunk) in
    record { buffer = cut.1; activity = apply_lines js cut.0 r.activity }
