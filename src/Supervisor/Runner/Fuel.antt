-- ===== src/Supervisor/Runner/Fuel.antt =====
-- The recursion of a launch through the spawner, and its fuel: `launch` of src/supervisor/supervisedRunner.ts.
use status_pipe.Base.{ℕ, suc, ◌≡◌, refl, true, false, arith, Option, none, ◌+◌}
use status_pipe.Supervisor.Runner.{
  Env, Runner, Spawned, threw, exited, started, launch_by, after_spawn, on_exit_by, route_exit,
  wrote_output, spawning, launch,
}

module _ (f g : Runner → Runner) (env : Env) where
  -- Without a pending wake the exit never launches.
  pub after_spawn-no_wake :
      (s : Spawned) (seq : ℕ) (r : Runner)
      → r.pending_wake ≡ false
      → after_spawn f env s seq r ≡ after_spawn g env s seq r
  unfolding after_spawn on_exit_by route_exit wrote_output
  after_spawn-no_wake threw seq r h = ground arith
  after_spawn-no_wake (exited true code) seq r h = ground arith
  after_spawn-no_wake (exited false code) seq r h = ground arith
  after_spawn-no_wake started seq r h = refl

launch_no_wake :
    (m n : ℕ) (env : Env) (r : Runner)
    → r.pending_wake ≡ false
    → launch_by (suc m) env r ≡ launch_by (suc n) env r
unfolding launch_by
launch_no_wake m n env r h =
    after_spawn-no_wake (launch_by m env) (launch_by n env) env _ _ (spawning r) h

module _ {f g : Runner → Runner} (same : (r : Runner) → r.pending_wake ≡ false → f r ≡ g r)
    (env : Env) where
  route_exit-congr :
      (code : Option ℕ) (uptime : ℕ) (r : Runner)
      → route_exit f env code uptime r ≡ route_exit g env code uptime r
  unfolding route_exit
  route_exit-congr code uptime r = ground (
    arith,
    same (record r { consecutive_failures = 0; detail = none; pending_wake = false }) refl,
  )

  after_spawn-congr :
      (s : Spawned) (seq : ℕ) (r : Runner) → after_spawn f env s seq r ≡ after_spawn g env s seq r
  unfolding after_spawn on_exit_by
  after_spawn-congr threw seq r = simp route_exit-congr
  after_spawn-congr (exited wrote code) seq r = simp route_exit-congr
  after_spawn-congr started seq r = refl

-- Two rounds are enough: with any more fuel a launch does the same, so the model never runs out of it.
pub launch_by-enough :
    (n : ℕ) (env : Env) (r : Runner) → launch_by (suc (suc n)) env r ≡ launch env r
unfolding launch_by launch
launch_by-enough n env r =
    after_spawn-congr (λ s h. launch_no_wake n 0 env s h) env (env.spawn (r.spawn_seq + 1))
      (r.spawn_seq + 1) (spawning r)
