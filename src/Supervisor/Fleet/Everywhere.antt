-- ===== src/Supervisor/Fleet/Everywhere.antt =====
-- A property of every repository of the fleet, and the operations that keep it: src/supervisor/agentSupervisor.ts.
use status_pipe.Base.{
  String, lookup, inl, inr, Option-cases, AllValues, AllValues-insert, AllValues-lookup,
  AllValues-map,
}
use status_pipe.Supervisor.Fleet.{AgentSupervisor, RepoSupervision, new_repo, repo_of}
use status_pipe.Supervisor.Fleet.Operations.{on_repo, on_known, every_repo}

module _ {ℓ} (R : RepoSupervision → Type ℓ) where
  abbrev pub Everywhere : AgentSupervisor → Type ℓ
  Everywhere s = AllValues R s.repos

  -- An operation that keeps what holds of a repository.
  abbrev pub Keeps : (RepoSupervision → RepoSupervision) → Type ℓ
  Keeps f = (repo : RepoSupervision) → R repo → R (f repo)

  pub repo_of-Everywhere :
      R new_repo → (root : String) (s : AgentSupervisor) → Everywhere s → R (repo_of root s)
  repo_of-Everywhere fresh root s v = elim (Option-cases (lookup root s.repos)) [
    | inl missing ↦ rw missing fresh
    | inr (repo, found) ↦ rw found (AllValues-lookup R root repo s.repos v found)
  ]

  pub on_repo-Everywhere :
      (f : RepoSupervision → RepoSupervision) (root : String) (s : AgentSupervisor)
      → R (f (repo_of root s))
      → Everywhere s
      → Everywhere (on_repo root f s)
  on_repo-Everywhere f root s here v = AllValues-insert R root _ s.repos here v

  module _ (f : RepoSupervision → RepoSupervision) (keeps : Keeps f) where
    pub on_known-Everywhere :
        (root : String) (s : AgentSupervisor) → Everywhere s → Everywhere (on_known root f s)
    on_known-Everywhere root s v = elim (Option-cases (lookup root s.repos)) [
      | inl missing ↦ rw (missing, on_known) v
      | inr (repo, found) ↦
          rw (found, on_known)
            (AllValues-insert R root _ s.repos
              (keeps repo (AllValues-lookup R root repo s.repos v found)) v)
    ]

    pub every_repo-Everywhere : (s : AgentSupervisor) → Everywhere s → Everywhere (every_repo f s)
    every_repo-Everywhere s v = AllValues-map R f keeps s.repos v
