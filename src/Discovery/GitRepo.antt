-- ===== src/Discovery/GitRepo.antt =====
-- A git checkout, read from its files without running git: src/discovery/gitRepo.ts. The regular expressions are read as
-- scans of the text, line by line; a value of the configuration has no carriage return inside.
use Prim.Native.Char.{code}
use status_pipe.Base.{
  ℕ, String, Bool, true, not, ◌&&◌, ◌||◌, Option, none, some, List, [], ◌∷◌, Dict, insert, lookup,
  has, if◌then◌else◌, eqb, ◌==◌, ◌^^◌, starts_with, is_some, any, is_space, is_empty, trim,
  trim_start, split,
}

pub data CheckoutRole : Type 0 where
  primary worktree : CheckoutRole

pub data EntryKind : Type 0 where
  directory other : EntryKind

-- The file system: `stat`, the contents of a file, the entries of a directory with whether each is one, `path.join`,
-- `path.resolve`, `path.dirname` and `path.sep`.
pub record Files : Type 0 where
  pub stat : String → Option EntryKind
  pub read : String → Option String
  pub entries : String → List (String × Bool)
  pub join : String → String → String
  pub resolve : String → String → String
  pub dirname : String → String
  pub sep : String

pub record GitCheckout : Type 0 where
  pub root : String
  pub role : CheckoutRole
  pub primary_root : String
  pub remote_url : Option String

-- What follows the prefix.
abbrev pub after_prefix : String → String → Option String
after_prefix String.[] s = some s
after_prefix (String.◌∷◌ c p) String.[] = none
after_prefix (String.◌∷◌ c p) (String.◌∷◌ d s) =
    let rest = after_prefix p s in if eqb (code c) (code d) then rest else none

-- What stands before the first occurrence of the marker.
unfoldable pub before_first : String → String → Option String
before_first marker String.[] = if is_empty marker then some "" else none
before_first marker (String.◌∷◌ c s) =
    let later = before_first marker s in
    if starts_with (String.◌∷◌ c s) marker
    then some ""
    else elim later [ none ↦ none | some t ↦ some (String.◌∷◌ c t) ]

abbrev ends_line : ℕ → Bool
ends_line c = any (λ t. eqb t c) (10 ∷ 13 ∷ 8232 ∷ 8233 ∷ [])

abbrev first_line : String → String
first_line String.[] = ""
first_line (String.◌∷◌ c s) = if ends_line (code c) then "" else String.◌∷◌ c (first_line s)

-- `match[1].trim()` of `/^gitdir:\s*(.+)\s*$/m`; an empty one counts as none.
abbrev pointer_in : String → Option String
pointer_in rest =
    let found = trim (first_line (trim_start rest)) in if is_empty found then none else some found

unfoldable pub pointer_from : Bool → String → Option String
pointer_from at_start String.[] = none
pointer_from at_start (String.◌∷◌ c s) =
    let later = pointer_from (ends_line (code c)) s in
    elim (after_prefix "gitdir:" (String.◌∷◌ c s)) [
      | none ↦ later
      | some rest ↦ if at_start then pointer_in rest else later
    ]

abbrev unquoted : String → String → Option String
unquoted name String.[] = none
unquoted name (String.◌∷◌ c s) =
    let more = unquoted (name ^^ String.◌∷◌ c "") s in
    if eqb (code c) b'"' then if s == "]" && not (is_empty name) then some name else none else more

abbrev quoted : String → Option String
quoted String.[] = none
quoted (String.◌∷◌ c s) =
    if is_space (code c)
    then elim (after_prefix "\"" (trim_start s)) [ none ↦ none | some r ↦ unquoted "" r ]
    else none

-- `/^\s*\[remote\s+"([^"]+)"\]\s*$/`
unfoldable pub remote_section : String → Option String
remote_section line = elim (after_prefix "[remote" (trim line)) [
  | none ↦ none
  | some rest ↦ quoted rest
]

-- The last character that `.` reads, of a text that is blank.
abbrev last_dot : String → Option String
last_dot String.[] = none
last_dot (String.◌∷◌ c s) =
    let later = last_dot s in
    elim later [
      | none ↦ if ends_line (code c) then none else some (String.◌∷◌ c "")
      | some t ↦ some t
    ]

abbrev value_after_equals : String → Option String
value_after_equals rest = if is_empty (trim rest) then last_dot rest else some (trim rest)

-- `/^\s*url\s*=\s*(.+?)\s*$/`
unfoldable pub url_of_line : String → Option String
url_of_line line = elim (after_prefix "url" (trim_start line)) [
  | none ↦ none
  | some rest ↦ elim (after_prefix "=" (trim_start rest)) [
    | none ↦ none
    | some value ↦ value_after_equals value
  ]
]

abbrev remote_url_from_line : String → Option String → Option (String × String)
remote_url_from_line line none = none
remote_url_from_line line (some String.[]) = none
remote_url_from_line line (some (String.◌∷◌ c s)) = elim (url_of_line line) [
  | none ↦ none
  | some url ↦ some (String.◌∷◌ c s, url)
]

abbrev add_remote : Option (String × String) → Dict String → Dict String
add_remote none remotes = remotes
add_remote (some (name, url)) remotes =
    if has name remotes then remotes else insert name url remotes

-- A section ends where any other begins.
unfoldable pub parse_remote_sections : Option String → List String → Dict String → Dict String
unfolding remote_section url_of_line
parse_remote_sections current [] remotes = remotes
parse_remote_sections current (line ∷ lines) remotes =
    let section = remote_section line in
    let opens = is_some section || starts_with (trim_start line) "[" in
    parse_remote_sections (if opens then section else current) lines
      (if opens then remotes else add_remote (remote_url_from_line line current) remotes)

abbrev first_value : Dict String → Option String
first_value [] = none
first_value (e ∷ es) = some e.1

unfoldable pub parse_remote_url : String → Option String
unfolding parse_remote_sections
parse_remote_url text =
    let remotes = parse_remote_sections none (split 10 text) [] in
    elim (lookup "origin" remotes) [ none ↦ first_value remotes | some url ↦ some url ]

module _ (fs : Files) where
  -- An empty file counts as none.
  abbrev nonblank : Option String → Option String
  nonblank none = none
  nonblank (some String.[]) = none
  nonblank (some (String.◌∷◌ c s)) = some (String.◌∷◌ c s)

  abbrev read_remote_url : String → Option String
  read_remote_url git_dir = elim (nonblank (fs.read (fs.join git_dir "config"))) [
    | none ↦ none
    | some text ↦ parse_remote_url text
  ]

  abbrev read_gitdir_pointer : String → Option String
  read_gitdir_pointer file = elim (nonblank (fs.read file)) [
    | none ↦ none
    | some text ↦ pointer_from true text
  ]

  abbrev at_marker : String → Option String → Option GitCheckout
  at_marker root none = none
  at_marker root (some super) =
      let git_dir = super ^^ fs.sep ^^ ".git" in
      some (record {
        root = root;
        role = worktree;
        primary_root = fs.dirname git_dir;
        remote_url = read_remote_url git_dir;
      })

  -- A linked worktree points into the `worktrees` of its primary; a submodule does not.
  unfoldable pub inspect_git_pointer_file : String → String → Option GitCheckout
  unfolding before_first pointer_from
  inspect_git_pointer_file root file = elim (read_gitdir_pointer file) [
    | none ↦ none
    | some gitdir ↦ at_marker root (
        before_first (fs.sep ^^ ".git" ^^ fs.sep ^^ "worktrees" ^^ fs.sep) (fs.resolve root gitdir))
  ]

  unfoldable pub inspect_git_checkout : String → Option GitCheckout
  unfolding inspect_git_pointer_file
  inspect_git_checkout root =
      let dot_git = fs.join root ".git" in
      elim (fs.stat dot_git) [
        | none ↦ none
        | some directory ↦ some (record {
          root = root;
          role = primary;
          primary_root = root;
          remote_url = read_remote_url dot_git;
        })
        | some other ↦ inspect_git_pointer_file root dot_git
      ]
