-- ===== src/Supervisor/Workers/Sound.antt =====
-- What holds of a pool between events: spawnWorker, stopWorkers and the events of the workers.
use status_pipe.Base.{
  ℕ, zero, suc, String, ◌≡◌, ◌≢◌, refl, ap, sym, true, false, some, List, [], ◌∷◌, Dict, has,
  lookup, lookup-insert, lookup-remove, length, arith, if-intro, leb, eqb, ◌∙◌, ◌⊎◌, inl, inr,
  ==_iff, ◌==◌, Bool-cases, Option-cases,
}
use status_pipe.Protocol.{LaunchAgent, DispatchItem}
use status_pipe.Supervisor.Workers.{
  Worker, WorkerEnv, worker_start, worker_exit, worker_output, worker_timed_out,
}
use status_pipe.Supervisor.Workers.Pool.{
  Pool, Host, act, done, nth, set_nth, entered, spawn_worker, spawn_items, worker_env, worker_for,
  stop_workers, worker_event, WorkerEvent, outputs, exits, times_out, no_workers,
}
use status_pipe.Supervisor.Workers.Caps.{nth-length, nth-append}

-- A running worker of this key.
abbrev pub Runs : List Worker → String → ℕ → Type 0
Runs heap k n = (w : Worker) × (nth n heap ≡ some w) × (w.key ≡ k) × (w.ended ≡ false)

-- Every entry of the map stands for a worker of its key that has not ended.
abbrev pub PoolInv : Pool → Type 0
PoolInv p = (k : String) (n : ℕ) → lookup k p.live ≡ some n → Runs p.heap k n

module _ {ℓ} {A : Type ℓ} where
  nth-set_same :
      (n : ℕ) (xs : List A) (x y : A) → nth n xs ≡ some x → nth n (set_nth n y xs) ≡ some y
  unfolding nth set_nth
  nth-set_same n [] x y h = absurd (cc h)
  nth-set_same zero (z ∷ xs) x y h = refl
  nth-set_same (suc n) (z ∷ xs) x y h = nth-set_same n xs x y h

  nth-set_other : (m n : ℕ) (xs : List A) (y : A) → m ≢ n → nth m (set_nth n y xs) ≡ nth m xs
  unfolding nth set_nth
  nth-set_other m n [] y h = refl
  nth-set_other zero zero (z ∷ xs) y h = absurd (h refl)
  nth-set_other zero (suc n) (z ∷ xs) y h = refl
  nth-set_other (suc m) zero (z ∷ xs) y h = refl
  nth-set_other (suc m) (suc n) (z ∷ xs) y h = nth-set_other m n xs y (λ e. h (ap suc e))

-- An operation of a worker that keeps its key.
abbrev KeepsKey : (Worker → Worker) → Type 0
KeepsKey f = (w : Worker) → (f w).key ≡ w.key

module _ (f : Worker → Worker) (keeps : KeepsKey f) where
  -- An entry that is left was there before, and is not that of a worker that has just ended.
  done-entry :
      (w : Worker) (k : String) (n : ℕ) (live : Dict ℕ)
      → lookup k (done w (f w) live) ≡ some n
      → (lookup k live ≡ some n) × (((f w).ended ≡ false) ⊎ (w.ended ≡ true) ⊎ (w.key ≢ k))
  done-entry w k n live h = ground (arith, lookup-remove w.key k live, ==_iff w.key k)

  same_object :
      (p : Pool) (n : ℕ) (w : Worker) (k : String)
      → nth n p.heap ≡ some w
      → Runs p.heap k n
      → ((f w).ended ≡ false) ⊎ (w.ended ≡ true) ⊎ (w.key ≢ k)
      → Runs (set_nth n (f w) p.heap) k n
  same_object p n w k e (w', e', key, run) alive =
      let own : w ≡ w' = cc in
      let ended : (f w).ended ≡ false = elim alive [
        | inl a ↦ a
        | inr (inl b) ↦ absurd (cc (ap (λ x. x.ended) own))
        | inr (inr c) ↦ absurd (c (ap (λ x. x.key) own ∙ key))
      ] in
      (f w, nth-set_same n p.heap w (f w) e, keeps w ∙ ap (λ x. x.key) own ∙ key, ended)

  pub act-PoolInv : (n : ℕ) (p : Pool) → PoolInv p → PoolInv (act f n p)
  unfolding act
  act-PoolInv n p v = elim (Option-cases (nth n p.heap)) [
    | inl e ↦ rw (e, act) v
    | inr (w, e) ↦
        rw (e, act)
          (λ k m h.
            let (found, alive) = done-entry w k m p.live h in
            elim (Bool-cases (eqb m n)) [
              | inl same ↦
                  let mn : m ≡ n = ground arith in
                  rw mn (same_object p n w k e (rw mn at (v k m found)) alive)
              | inr other ↦
                  let (w', e', key, run) = v k m found in
                  (w', nth-set_other m n p.heap (f w) (ground arith) ∙ e', key, run)
            ])
  ]

keeps-start : (env : WorkerEnv) → KeepsKey (worker_start env)
unfolding worker_start
keeps-start env w = ground arith

keeps-timed_out : (env : WorkerEnv) → KeepsKey (worker_timed_out env)
keeps-timed_out env w = ground arith

keeps-exit : KeepsKey worker_exit
keeps-exit w = ground arith

module _ (h : Host) (template : LaunchAgent) where
  entered-PoolInv : (i : DispatchItem) (p : Pool) → PoolInv p → PoolInv (entered h template i p)
  entered-PoolInv i p v k n found = elim (Bool-cases (i.key == k)) [
    | inl same ↦
        let own : some (length p.heap) ≡ some n =
          rw (lookup-insert i.key k (length p.heap) p.live, same) at found in
        let len : length p.heap ≡ n = cc in
        (
          worker_for h template i,
          rw (sym len) (nth-length p.heap (worker_for h template i)),
          (==_iff i.key k).0 same,
          refl,
        )
    | inr other ↦
        let (w, e, key, run) =
          v k n (rw (lookup-insert i.key k (length p.heap) p.live, other) at found) in
        (w, nth-append n p.heap w (worker_for h template i) e, key, run)
  ]

  spawn_worker-PoolInv :
      (i : DispatchItem) (p : Pool) → PoolInv p → PoolInv (spawn_worker h template i p)
  unfolding spawn_worker
  spawn_worker-PoolInv i p v =
      act-PoolInv (worker_start (worker_env h (length p.heap)))
        (keeps-start (worker_env h (length p.heap))) (length p.heap) (entered h template i p)
        (entered-PoolInv i p v)

  pub spawn_items-PoolInv :
      (cap : ℕ) (is : List DispatchItem) (p : Pool)
      → PoolInv p
      → PoolInv (spawn_items h template cap is p)
  unfolding spawn_items
  spawn_items-PoolInv cap [] p v = v
  spawn_items-PoolInv cap (i ∷ is) p v =
      if-intro PoolInv (leb cap (length p.live)) (λ _. v)
        (λ _.
          if-intro PoolInv (has i.key p.live) (λ _. spawn_items-PoolInv cap is p v)
            (λ _.
              spawn_items-PoolInv cap is (spawn_worker h template i p)
                (spawn_worker-PoolInv i p v)))

pub no_workers-PoolInv : PoolInv no_workers
unfolding lookup
no_workers-PoolInv k n h = absurd (cc h)

pub stop_workers-PoolInv : (h : Host) (p : Pool) → PoolInv (stop_workers h p)
unfolding stop_workers lookup
stop_workers-PoolInv h p k n found = absurd (cc found)

pub worker_event-PoolInv :
    (h : Host) (e : WorkerEvent) (n : ℕ) (p : Pool) → PoolInv p → PoolInv (worker_event h e n p)
unfolding worker_event
worker_event-PoolInv h outputs n p v = act-PoolInv (worker_output h.now) (λ w. refl) n p v
worker_event-PoolInv h exits n p v = act-PoolInv worker_exit keeps-exit n p v
worker_event-PoolInv h times_out n p v =
    act-PoolInv (worker_timed_out (worker_env h n)) (keeps-timed_out (worker_env h n)) n p v
