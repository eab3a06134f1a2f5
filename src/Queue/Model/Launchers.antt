-- ===== src/Queue/Model/Launchers.antt =====
-- The launcher rows of a repository.
use status_pipe.Base.{
  ◌≡◌, refl, ◌==◌, ◌&&◌, ◌||◌, String, Bool, true, false, List, [], ◌∷◌, ◌++◌, map, any, find,
  is_some, has_text, keep, arith, ==_iff, Bool-cases, inl, inr,
}
use status_pipe.Protocol.{LaunchAgent}
use status_pipe.Queue.{RepoState, AgentProcessState}
use status_pipe.Queue.Model.{
  AgentDisplay, repo_launchers, live_in, declared_in, runner_of, is_orphan, launcher_display,
  orphan_launcher,
}

any-append {ℓ} :
    {A : Type ℓ} (p : A → Bool) (xs ys : List A) → any p (xs ++ ys) ≡ (any p xs || any p ys)
any-append p [] ys = refl
any-append p (x ∷ xs) ys = ground (arith, any-append p xs ys)

find-is_some {ℓ} : {A : Type ℓ} (p : A → Bool) (xs : List A) → is_some (find p xs) ≡ any p xs
find-is_some p [] = refl
find-is_some p (x ∷ xs) = ground (arith, find-is_some p xs)

-- The row is that of a live runner of this agent.
abbrev pub shows : String → AgentDisplay → Bool
shows id row = row.agent_id == id && row.installed

abbrev pub is_agent : String → AgentProcessState → Bool
is_agent id a = a.agent_id == id

module _ (repo : RepoState) (id : String) where
  declared-shown :
      (ds : List LaunchAgent) (live : List AgentProcessState)
      → any (is_agent id) live ≡ true
      → has_text id (map (λ (d : LaunchAgent). d.id) ds) ≡ true
      → any (shows id) (map (λ d. launcher_display repo d (runner_of d live)) ds) ≡ true
  unfolding launcher_display
  declared-shown [] live h m = cc
  declared-shown (d ∷ ds) live h m = elim (Bool-cases (id == d.id)) [
    | inl e ↦ ground (
      arith,
      h,
      m,
      e,
      ==_iff id d.id,
      ==_iff d.id id,
      find-is_some (λ (a : AgentProcessState). a.agent_id == d.id) live,
    )
    | inr e ↦ ground (arith, e, declared-shown ds live h, m)
  ]

  orphan-shown :
      (ds : List LaunchAgent) (live : List AgentProcessState)
      → any (is_agent id) live ≡ true
      → has_text id (map (λ (d : LaunchAgent). d.id) ds) ≡ false
      → any (shows id) (map (orphan_launcher repo) (keep (is_orphan ds) live)) ≡ true
  unfolding orphan_launcher
  orphan-shown ds [] h m = cc
  orphan-shown ds (a ∷ live) h m = elim (Bool-cases (a.agent_id == id)) [
    | inl e ↦ ground (arith, m, e, ==_iff a.agent_id id)
    | inr e ↦ ground (arith, e, h, m, orphan-shown ds live)
  ]

-- A running agent never vanishes: where supervision is enabled, every agent with a live runner in the repository has an installed
-- row, whether launch.json declares it or not.
pub live_agent-shown :
    (repo : RepoState) (all : List AgentProcessState) (id : String)
    → repo.monitor_only ≡ false
    → any (is_agent id) (live_in repo all) ≡ true
    → any (shows id) (repo_launchers repo all) ≡ true
unfolding repo_launchers
live_agent-shown repo all id e h =
    rw (e) (elim (Bool-cases (has_text id (map (λ (d : LaunchAgent). d.id) (declared_in repo)))) [
      | inl m ↦ ground (
        arith,
        declared-shown repo id (declared_in repo) (live_in repo all) h m,
        any-append (shows id)
            (map (λ d. launcher_display repo d (runner_of d (live_in repo all))) (declared_in repo))
            (map (orphan_launcher repo) (keep (is_orphan (declared_in repo)) (live_in repo all))),
      )
      | inr m ↦ ground (
        arith,
        orphan-shown repo id (declared_in repo) (live_in repo all) h m,
        any-append (shows id)
            (map (λ d. launcher_display repo d (runner_of d (live_in repo all))) (declared_in repo))
            (map (orphan_launcher repo) (keep (is_orphan (declared_in repo)) (live_in repo all))),
      )
    ])
