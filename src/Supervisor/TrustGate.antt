-- ===== src/Supervisor/TrustGate.antt =====
-- What an approval of a launch entry covers, and the text that its dialog shows: src/supervisor/trustGate.ts.
pub mod Approvals
pub mod Laws
use status_pipe.Base.{ℕ, String, List, [], ◌∷◌, ◌++◌, Dict, map, sort, join, trim, ◌^^◌, Ordering}
use status_pipe.Protocol.{LaunchAgent, AgentType, AgentLifetime}
use status_pipe.Protocol.Json.{Json, Object, text, number}
use status_pipe.Protocol.Json.Writing.{written, texts}

-- `JSON.stringify(value)`, the hexadecimal SHA-256 of a text, `a.localeCompare(b)` and `String(n)`.
pub record Digest : Type 0 where
  pub to_json : Json → String
  pub sha256 : String → String
  pub locale_compare : String → String → Ordering
  pub show_number : ℕ → String

abbrev pub type_name : AgentType → String
type_name AgentType.claude = "claude"
type_name AgentType.exec = "exec"
type_name AgentType.built_in = "built-in"

abbrev pub lifetime_name : AgentLifetime → String
lifetime_name AgentLifetime.daemon = "daemon"
lifetime_name AgentLifetime.scheduled = "scheduled"

abbrev pub env_text : String × String → String × Json
env_text e = (e.0, text e.1)

module _ (os : Digest) where
  abbrev pub sorted_env : Dict String → Dict String
  sorted_env env = sort (λ a b. os.locale_compare a.0 b.0) env

  -- The object that is hashed.
  abbrev pub canonical : LaunchAgent → Object
  canonical a =
      ("id", text a.id)
      ∷ ("type", text (type_name a.type))
      ∷ ("command", text a.command)
      ∷ ("args", texts a.args)
      ∷ ("stdin", text a.stdin)
      ∷ ("cwd", text a.cwd)
      ∷ ("env", written (map env_text (sorted_env a.env)))
      ∷ ("lifetime", text (lifetime_name a.lifetime))
      ∷ ("intervalMinutes", number a.interval_minutes)
      ∷ ("timeoutMinutes", number a.timeout_minutes)
      ∷ []

  unfoldable pub launch_entry_hash : LaunchAgent → String
  launch_entry_hash a = os.sha256 (os.to_json (written (canonical a)))

  -- A built-in entry runs no process.
  abbrev command_line : LaunchAgent → String
  command_line a = elim a.type [
    | AgentType.built_in ↦ "in-process planner (no external command)"
    | _ ↦ trim ("command: " ^^ a.command ^^ " " ^^ join " " a.args)
  ]

  abbrev stdin_line : String → List String
  stdin_line String.[] = []
  stdin_line (String.◌∷◌ c s) = ("stdin: " ^^ String.◌∷◌ c s) ∷ []

  abbrev assignment : String × String → String
  assignment e = e.0 ^^ "=" ^^ e.1

  abbrev env_line : Dict String → List String
  env_line [] = []
  env_line (e ∷ es) = ("env: " ^^ join " " (map assignment (e ∷ es))) ∷ []

  unfoldable pub describe_launch_entry : LaunchAgent → String
  describe_launch_entry a = join "\n" (
      (a.id ^^ " — type " ^^ type_name a.type ^^ ", lifetime " ^^ lifetime_name a.lifetime)
      ∷ command_line a
      ∷ ("interval "
          ^^ os.show_number a.interval_minutes
          ^^ "m, timeout "
          ^^ os.show_number a.timeout_minutes
          ^^ "m")
      ∷ ("cwd: " ^^ a.cwd)
      ∷ (stdin_line a.stdin ++ env_line a.env))
