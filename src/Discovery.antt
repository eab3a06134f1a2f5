-- ===== src/Discovery.antt =====
-- The discovery of repositories below the open folders: src/discovery/repoScan.ts. The files do not change during a scan.
pub mod GitRepo
pub mod Laws
use status_pipe.Base.{
  String, Bool, true, false, not, ◌&&◌, Option, none, some, List, [], ◌∷◌, ◌++◌, Dict, insert,
  lookup, map, map_some, flat_map, if◌then◌else◌, ◌==◌, starts_with,
}
use status_pipe.Discovery.GitRepo.{
  CheckoutRole, primary, worktree, Files, GitCheckout, EntryKind, directory, inspect_git_checkout,
}

pub record RepoContext : Type 0 where
  pub folder : String
  pub repo_root : String
  pub protocol_dir : String
  pub remote_url : Option String
  pub role : CheckoutRole
  pub worktree_root : Option String

abbrev is_directory : Option EntryKind → Bool
is_directory (some directory) = true
is_directory _ = false

abbrev pub is_worktree : CheckoutRole → Bool
is_worktree worktree = true
is_worktree primary = false

module _ (fs : Files) where
  abbrev is_scanned : String × Bool → Bool
  is_scanned e = e.1 && not (starts_with e.0 ".") && not (e.0 == "node_modules")

  abbrev list_subdirs : String → List String
  list_subdirs dir =
      map_some (λ e. if is_scanned e then some (fs.join dir e.0) else none) (fs.entries dir)

  abbrev candidates_of : String → List (String × String)
  candidates_of folder =
      (folder, folder) ∷ map {B = String × String} (λ child. (folder, child)) (list_subdirs folder)

  abbrev collect_candidate_roots : List String → List (String × String)
  collect_candidate_roots folders = flat_map candidates_of folders

  abbrev build_context : String → GitCheckout → String → RepoContext
  build_context folder checkout dir = record {
    folder = folder;
    repo_root = checkout.primary_root;
    protocol_dir = dir;
    remote_url = checkout.remote_url;
    role = checkout.role;
    worktree_root = if is_worktree checkout.role then some checkout.root else none;
  }

  abbrev in_checkout : String → String → GitCheckout → Option RepoContext
  in_checkout name folder checkout =
      let dir = fs.join checkout.primary_root name in
      if is_directory (fs.stat dir) then some (build_context folder checkout dir) else none

  unfoldable pub context_for : String → String × String → Option RepoContext
  context_for name c = elim (inspect_git_checkout fs c.1) [
    | none ↦ none
    | some checkout ↦ in_checkout name c.0 checkout
  ]

-- A primary takes the place of a worktree; nothing else replaces an entry.
abbrev pub takes : Option RepoContext → RepoContext → Bool
takes none ctx = true
takes (some e) ctx = is_worktree e.role && not (is_worktree ctx.role)

unfoldable pub dedupe_into : Dict RepoContext → List RepoContext → Dict RepoContext
dedupe_into by_root [] = by_root
dedupe_into by_root (ctx ∷ cs) =
    dedupe_into
      (if takes (lookup ctx.repo_root by_root) ctx
        then insert ctx.repo_root ctx by_root
        else by_root)
      cs

unfoldable pub dedupe : List RepoContext → List RepoContext
unfolding dedupe_into
dedupe cs = map (λ e. e.1) (dedupe_into [] cs)

unfoldable pub scan_for_repos : Files → List String → String → List RepoContext
unfolding context_for dedupe
scan_for_repos fs folders name =
    dedupe (map_some (context_for fs name) (collect_candidate_roots fs folders))
