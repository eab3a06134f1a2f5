-- ===== src/Discovery/Laws.antt =====
-- Which entry a repository gets: src/discovery/repoScan.ts.
use status_pipe.Base.{
  String, ◌≡◌, refl, true, false, not, ◌&&◌, Option, none, some, List, [], ◌∷◌, Dict, insert,
  lookup, find, map, All, if◌then◌else◌, ◌==◌, ==_iff, lookup-insert, arith, ==_refl, Bool-cases,
  Option-cases, inl, inr, ◌∙◌, if-intro, has_text, Distinct, keys, sym,
}
use status_pipe.Discovery.{RepoContext, takes, is_worktree, dedupe_into, dedupe}

-- The first open primary of the repository, or else its first open worktree.
abbrev pub preferred : String → List RepoContext → Option RepoContext
preferred root cs =
    elim (find (λ (c : RepoContext). (c.repo_root == root) && not (is_worktree c.role)) cs) [
      | none ↦ find (λ (c : RepoContext). c.repo_root == root) cs
      | some c ↦ some c
    ]

abbrev kept : Option RepoContext → String → List RepoContext → Option RepoContext
kept none root cs = preferred root cs
kept (some e) root cs =
    if is_worktree e.role
    then elim (find (λ (c : RepoContext). (c.repo_root == root) && not (is_worktree c.role)) cs) [
      | none ↦ some e
      | some c ↦ some c
    ]
    else some e

abbrev updated : Option RepoContext → RepoContext → Option RepoContext
updated o c = if takes o c then some c else o

kept-same_root :
    (o : Option RepoContext) (root : String) (c : RepoContext) (cs : List RepoContext)
    → (c.repo_root == root) ≡ true
    → kept (updated o c) root cs ≡ kept o root (c ∷ cs)
kept-same_root none root c cs same = ground arith
kept-same_root (some e) root c cs same = ground arith

kept-other_root :
    (o : Option RepoContext) (root : String) (c : RepoContext) (cs : List RepoContext)
    → (c.repo_root == root) ≡ false
    → kept o root cs ≡ kept o root (c ∷ cs)
kept-other_root none root c cs other = ground arith
kept-other_root (some e) root c cs other = ground arith

abbrev stepped : Dict RepoContext → RepoContext → Dict RepoContext
stepped by_root c =
    if takes (lookup c.repo_root by_root) c then insert c.repo_root c by_root else by_root

lookup-stepped :
    (root : String) (by_root : Dict RepoContext) (c : RepoContext)
    → lookup root (stepped by_root c)
      ≡ (if c.repo_root == root then updated (lookup root by_root) c else lookup root by_root)
lookup-stepped root by_root c = elim (Bool-cases (c.repo_root == root)) [
  | inl same ↦
      let at : c.repo_root ≡ root = (==_iff _ _).0 same in
      rw (same, at) (ground (arith, lookup-insert root root c by_root, ==_refl root))
  | inr other ↦ rw other (ground (arith, lookup-insert c.repo_root root c by_root))
]

dedupe_into-kept :
    (root : String) (by_root : Dict RepoContext) (cs : List RepoContext)
    → lookup root (dedupe_into by_root cs) ≡ kept (lookup root by_root) root cs
unfolding dedupe_into
dedupe_into-kept root by_root [] = elim (Option-cases (lookup root by_root)) [
  | inl e ↦ rw e
  | inr (c, e) ↦ rw e (ground arith)
]
dedupe_into-kept root by_root (c ∷ cs) =
    dedupe_into-kept root (stepped by_root c) cs
    ∙ rw (lookup-stepped root by_root c) (
        if-intro (λ o. kept o root cs ≡ kept (lookup root by_root) root (c ∷ cs))
          (c.repo_root == root) (kept-same_root (lookup root by_root) root c cs)
          (kept-other_root (lookup root by_root) root c cs))

-- Every entry stands under its own root, and no root twice.
abbrev Keyed : Dict RepoContext → Type 0
Keyed d = All (λ e. e.1.repo_root ≡ e.0) d × Distinct (keys d)

has_text-keys-insert :
    (j k : String) (v : RepoContext) (d : Dict RepoContext)
    → has_text j (keys (insert k v d)) ≡ (if j == k then true else has_text j (keys d))
unfolding insert
has_text-keys-insert j k v [] = ground (arith, ==_iff j k)
has_text-keys-insert j k v ((i, w) ∷ d) =
    ground (arith, ==_iff j k, ==_iff i k, ==_iff j i, has_text-keys-insert j k v d)

insert-Keyed : (c : RepoContext) (d : Dict RepoContext) → Keyed d → Keyed (insert c.repo_root c d)
unfolding insert
insert-Keyed c [] h = ((refl, tt), (refl, tt))
insert-Keyed c ((i, w) ∷ d) h = elim (Bool-cases (i == c.repo_root)) [
  | inl same ↦ rw same ((sym ((==_iff _ _).0 same), h.0.1), h.1)
  | inr other ↦
      let rest = insert-Keyed c d (h.0.1, h.1.1) in
      let fresh : has_text i (keys (insert c.repo_root c d)) ≡ false =
        rw (has_text-keys-insert i c.repo_root c d, other) h.1.0 in
      rw other ((h.0.0, rest.0), (fresh, rest.1))
]

dedupe_into-Keyed :
    (by_root : Dict RepoContext) (cs : List RepoContext)
    → Keyed by_root
    → Keyed (dedupe_into by_root cs)
unfolding dedupe_into
dedupe_into-Keyed by_root [] h = h
dedupe_into-Keyed by_root (c ∷ cs) h =
    dedupe_into-Keyed (stepped by_root c) cs (
      if-intro Keyed (takes (lookup c.repo_root by_root) c) (λ _. insert-Keyed c by_root h)
        (λ _. h))

find-values :
    (root : String) (d : Dict RepoContext)
    → Keyed d
    → find (λ (c : RepoContext). c.repo_root == root) (map (λ e. e.1) d) ≡ lookup root d
unfolding lookup
find-values root [] h = refl
find-values root ((i, c) ∷ d) h = rw (h.0.0, find-values root d (h.0.1, h.1.1))

roots-keys :
    (d : Dict RepoContext)
    → All (λ e. e.1.repo_root ≡ e.0) d
    → map (λ (c : RepoContext). c.repo_root) (map (λ e. e.1) d) ≡ keys d
roots-keys [] h = refl
roots-keys (e ∷ d) h = rw (h.0, roots-keys d h.1)

-- No repository is listed twice, and each is listed as its first open primary checkout or, where only worktrees of it
-- are open, as the first of these.
pub dedupe-preferred :
    (cs : List RepoContext)
    → Distinct (map (λ (c : RepoContext). c.repo_root) (dedupe cs))
      × ((root : String)
          → find (λ (c : RepoContext). c.repo_root == root) (dedupe cs) ≡ preferred root cs)
unfolding dedupe lookup
dedupe-preferred cs =
    let keyed = dedupe_into-Keyed [] cs (tt, tt) in
    (
      rw (roots-keys (dedupe_into [] cs) keyed.0) keyed.1,
      λ root. find-values root (dedupe_into [] cs) keyed ∙ dedupe_into-kept root [] cs,
    )
