-- ===== src/Supervisor/Templates.antt =====
-- Launch requests and their tokens: src/supervisor/launchTemplate.ts. Node's path functions are parameters.
use status_pipe.Base.{
  ℕ, zero, suc, ◌-◌, String, Bool, ◌^^◌, ◌==◌, ◌||◌, if◌then◌else◌, starts_with, map, List, Dict,
  length, codes,
}
use status_pipe.Protocol.{LaunchAgent, worker_id}

pub record SpawnRequest : Type 0 where
  pub command : String
  pub args : List String
  pub cwd : String
  pub env : Dict String
  pub stdin : String

abbrev pub launch_agent_to_request : LaunchAgent → SpawnRequest
launch_agent_to_request a = record {
  command = a.command;
  args = a.args;
  cwd = a.cwd;
  env = a.env;
  stdin = a.stdin;
}

-- The replacement of a match, with the patterns `$$`, `$&`, `$\`` and `$'` that `replaceAll` reads in it.
unfoldable pub expand : String → String → String → String → String
expand before matched after String.[] = ""
expand before matched after (String.◌∷◌ c String.[]) = String.◌∷◌ c ""
expand before matched after (String.◌∷◌ c (String.◌∷◌ d s)) =
    let rest = expand before matched after s in
    let plain = expand before matched after (String.◌∷◌ d s) in
    let pattern = String.◌∷◌ c (String.◌∷◌ d "") in
    if pattern == "$$"
    then "$" ^^ rest
    else if pattern == "$&"
    then matched ^^ rest
    else if pattern == "$`"
    then before ^^ rest
    else if pattern == "$'"
    then after ^^ rest
    else String.◌∷◌ c plain

-- The text without its first characters.
unfoldable pub drop_text : ℕ → String → String
drop_text zero s = s
drop_text (suc n) String.[] = ""
drop_text (suc n) (String.◌∷◌ c s) = drop_text n s

-- `before` stands before the rest that is scanned; `skip` characters of the rest belong to the last match.
unfoldable pub replace_from : String → String → String → ℕ → String → String
unfolding expand drop_text
replace_from token by before skip String.[] = ""
replace_from token by before (suc skip) (String.◌∷◌ c s) =
    replace_from token by (before ^^ String.◌∷◌ c "") skip s
replace_from token by before zero (String.◌∷◌ c s) =
    let size = length (codes token) in
    let seen = before ^^ String.◌∷◌ c "" in
    let skipping = replace_from token by seen (size - 1) s in
    let going_on = replace_from token by seen zero s in
    if starts_with (String.◌∷◌ c s) token
    then expand before token (drop_text size (String.◌∷◌ c s)) by ^^ skipping
    else String.◌∷◌ c going_on

-- `value.replaceAll(token, by)` for a token that is not empty.
unfoldable pub replace_all : String → String → String → String
unfolding replace_from
replace_all value token by = replace_from token by "" zero value

abbrev pub substitute_home : String → String → String
substitute_home value home = replace_all value "%home%" home

abbrev pub substitute_worker : String → String → String → String
substitute_worker value prompt worktree =
    replace_all (replace_all value "%prompt%" prompt) "%worktree%" worktree

abbrev substitute_env : (String → String) → Dict String → Dict String
substitute_env f env = map (λ e. (e.0, f e.1)) env

-- `path.isAbsolute` and `path.resolve` of two paths.
module _ (is_absolute : String → Bool) (resolve : String → String → String) where
  unfoldable pub worker_cwd : String → String → String
  worker_cwd cwd worktree =
      if is_absolute cwd || starts_with cwd "%home%" then cwd else resolve worktree cwd

  unfoldable pub resolve_worker_request : SpawnRequest → String → String → SpawnRequest
  unfolding worker_cwd
  resolve_worker_request template prompt worktree = record {
    command = substitute_worker template.command prompt worktree;
    args = map (λ arg. substitute_worker arg prompt worktree) template.args;
    cwd = worker_cwd (substitute_worker template.cwd prompt worktree) worktree;
    env = substitute_env (λ v. substitute_worker v prompt worktree) template.env;
    stdin = substitute_worker template.stdin prompt worktree;
  }

  unfoldable pub resolve_agent_cwd : String → LaunchAgent → String
  resolve_agent_cwd root agent =
      if agent.id == worker_id || starts_with agent.cwd "%home%"
      then agent.cwd
      else resolve root agent.cwd

unfoldable pub resolve_launch_templates : SpawnRequest → String → SpawnRequest
resolve_launch_templates request home = record {
  command = substitute_home request.command home;
  args = map (λ arg. substitute_home arg home) request.args;
  cwd = substitute_home request.cwd home;
  env = substitute_env (λ v. substitute_home v home) request.env;
  stdin = request.stdin;
}
