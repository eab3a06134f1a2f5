-- ===== src/Release.antt =====
-- The derivation of the next version: src/utils/releaseBump.ts. The text form of a version is left to its parameters.
use status_pipe.Base.{ℕ, ◌+◌, String, List, [], ◌∷◌, ◌==◌, ◌||◌, if◌then◌else◌, ◌^^◌}
use status_pipe.Base.Platform.{Platform}

pub data BumpLevel : Type 0 where
  minor patch no_bump : BumpLevel

pub record SemVer : Type 0 where
  pub major : ℕ
  pub minor : ℕ
  pub patch : ℕ

-- `KIND_BUMP[kind]`, with `no_bump` where there is none.
abbrev pub kind_bump : String → BumpLevel
kind_bump kind =
    if kind == "Added" || kind == "Changed" || kind == "Deprecated" || kind == "Removed"
    then BumpLevel.minor
    else if kind == "Fixed" || kind == "Security"
    then BumpLevel.patch
    else BumpLevel.no_bump

-- The loop, with its `result` so far.
unfoldable pub derive_from : BumpLevel → List String → BumpLevel
derive_from result [] = result
derive_from result (k ∷ ks) =
    let rest = derive_from result ks in
    let patched = derive_from BumpLevel.patch ks in
    elim (kind_bump k) [
      | BumpLevel.minor ↦ BumpLevel.minor
      | BumpLevel.patch ↦ patched
      | BumpLevel.no_bump ↦ rest
    ]

unfoldable pub derive_bump_level : List String → BumpLevel
unfolding derive_from
derive_bump_level kinds = derive_from BumpLevel.no_bump kinds

abbrev pub apply_bump : SemVer → BumpLevel → SemVer
apply_bump v BumpLevel.minor = record v { minor = v.minor + 1; patch = 0 }
apply_bump v BumpLevel.patch = record v { patch = v.patch + 1 }
apply_bump v BumpLevel.no_bump = v

abbrev pub format_sem_ver : Platform → SemVer → String
format_sem_ver os v =
    os.show_number v.major ^^ "." ^^ os.show_number v.minor ^^ "." ^^ os.show_number v.patch
