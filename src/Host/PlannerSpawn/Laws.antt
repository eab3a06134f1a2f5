-- ===== src/Host/PlannerSpawn/Laws.antt =====
-- What a runner hears of the in-process planner: src/host/plannerSpawn.ts.
use status_pipe.Base.{
  ℕ, ◌≡◌, refl, String, Bool, true, false, Option, none, some, List, [], ◌∷◌, arith, if◌then◌else◌,
}
use status_pipe.Host.PlannerSpawn.{
  PlannerRepo, PassEvent, returns, throws, killed, ProcessEvent, on_output, on_exit, one_event,
  run_built_in_pass, planner_spawn,
}

-- The codes of the exits that are heard, in order.
abbrev pub exits : List ProcessEvent → List ℕ
exits [] = []
exits (on_output s ∷ es) = exits es
exits (on_exit code ∷ es) = code ∷ exits es

module _ (show_number : ℕ → String) (resolve : String → String → String) where
  settled-silent : (es : List PassEvent) → run_built_in_pass show_number resolve true es ≡ []
  unfolding run_built_in_pass
  settled-silent [] = refl
  settled-silent (returns r ∷ es) = settled-silent es
  settled-silent (throws m ∷ es) = settled-silent es
  settled-silent (killed ∷ es) = settled-silent es

  -- The process hears of the first thing that happens to the pass, and of nothing after it.
  pub run_built_in_pass-first :
      (e : PassEvent) (es : List PassEvent)
      → run_built_in_pass show_number resolve false (e ∷ es) ≡ one_event show_number resolve false e
  unfolding run_built_in_pass
  run_built_in_pass-first (returns r) es = rw (settled-silent es)
  run_built_in_pass-first (throws m) es = rw (settled-silent es)
  run_built_in_pass-first killed es = rw (settled-silent es)

  abbrev pub exit_code : PassEvent → ℕ
  exit_code (returns r) = 0
  exit_code (throws m) = 1
  exit_code killed = 1

  -- Why a process without a pass ends.
  abbrev pub early_code : Option PlannerRepo → ℕ
  early_code none = 1
  early_code (some repo) = if repo.forge_connected then 1 else 0

  abbrev pub runs_pass : Option PlannerRepo → Bool
  runs_pass none = false
  runs_pass (some repo) = repo.has_inventory

  -- Once anything has happened to the pass, exactly one exit is heard: that of what happened first, however the return, the
  -- failure and the kill follow one another. A repository that cannot run a pass exits at once: with 0 where the forge is
  -- not connected yet, so that it is tried again, and with 1 otherwise.
  pub planner_spawn-exits_once :
      (repo : Option PlannerRepo) (cwd : String) (e : PassEvent) (es : List PassEvent)
      → exits (planner_spawn show_number resolve repo cwd (e ∷ es))
        ≡ (if runs_pass repo then exit_code e else early_code repo) ∷ []
  unfolding planner_spawn
  planner_spawn-exits_once none cwd e es = refl
  planner_spawn-exits_once (some repo) cwd (returns r) es = rw (settled-silent es) (ground arith)
  planner_spawn-exits_once (some repo) cwd (throws m) es = rw (settled-silent es) (ground arith)
  planner_spawn-exits_once (some repo) cwd killed es = rw (settled-silent es) (ground arith)
