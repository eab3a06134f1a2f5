-- ===== src/Supervisor/Workers/Caps.antt =====
-- What a plan's workers do to the pool: the loop of reconcileWorkers of src/supervisor/agentSupervisor.ts.
use status_pipe.Base.{
  ℕ, zero, suc, ◌≤◌, max, String, ◌≡◌, refl, true, false, some, List, [], ◌∷◌, ◌++◌, Dict, remove,
  insert, has, lookup, lookup-insert, lookup-remove, lookup-insert_self, length, arith, All,
  All-intro, if-intro, leb, ◌⊎◌, inl, inr, ==_iff, Option-cases,
}
use status_pipe.Protocol.{LaunchAgent, DispatchItem}
use status_pipe.Supervisor.Runner.{started}
use status_pipe.Supervisor.Workers.{Worker, worker_start}
use status_pipe.Supervisor.Workers.Pool.{
  Pool, Host, act, done, nth, set_nth, entered, spawn_worker, spawn_items, worker_env, worker_for,
}

module _ {ℓ} {A : Type ℓ} where
  pub nth-length : (xs : List A) (y : A) → nth (length xs) (xs ++ y ∷ []) ≡ some y
  unfolding nth
  nth-length [] y = refl
  nth-length (x ∷ xs) y = nth-length xs y

  -- What stands in a list stays under its number.
  pub nth-append :
      (n : ℕ) (xs : List A) (x y : A) → nth n xs ≡ some x → nth n (xs ++ y ∷ []) ≡ some x
  unfolding nth
  nth-append n [] x y h = absurd (cc h)
  nth-append zero (z ∷ xs) x y h = h
  nth-append (suc n) (z ∷ xs) x y h = nth-append n xs x y h

  nth-set_length :
      (n : ℕ) (xs : List A) (x y z : A)
      → nth n xs ≡ some x
      → nth n (set_nth (length xs) z (xs ++ y ∷ [])) ≡ some x
  unfolding nth set_nth
  nth-set_length n [] x y z h = absurd (cc h)
  nth-set_length zero (w ∷ xs) x y z h = h
  nth-set_length (suc n) (w ∷ xs) x y z h = nth-set_length n xs x y z h

module _ {ℓ} {V : Type ℓ} where
  length-insert_le : (k : String) (v : V) (d : Dict V) → length (insert k v d) ≤ suc (length d)
  unfolding insert
  length-insert_le k v [] = omega arith
  length-insert_le k v (e ∷ d) = ground (arith, length-insert_le k v d)

  length-remove_le : (k : String) (d : Dict V) → length (remove k d) ≤ length d
  unfolding remove
  length-remove_le k [] = omega arith
  length-remove_le k (e ∷ d) = ground (arith, length-remove_le k d)

-- The workers that the first pool has are in the second, under their keys, as the same objects in the same state.
pub record Kept (p q : Pool) : Type 0 where
  pub entries : (k : String) (n : ℕ) → lookup k p.live ≡ some n → lookup k q.live ≡ some n
  pub objects : (n : ℕ) (w : Worker) → nth n p.heap ≡ some w → nth n q.heap ≡ some w

Kept-refl : (p : Pool) → Kept p p
Kept-refl p = record { entries = λ k n h. h; objects = λ n w h. h }

Kept-trans : (p q r : Pool) → Kept p q → Kept q r → Kept p r
Kept-trans p q r a b = record {
  entries = λ k n h. b.entries k n (a.entries k n h);
  objects = λ n w h. b.objects n w (a.objects n w h);
}

has-Kept : (p q : Pool) (k : String) → Kept p q → has k p.live ≡ true → has k q.live ≡ true
has-Kept p q k kept there = elim (Option-cases (lookup k p.live)) [
  | inl e ↦ absurd (cc (rw e at there))
  | inr (n, e) ↦ rw (kept.entries k n e)
]

module _ (h : Host) (template : LaunchAgent) where
  abbrev begun : DispatchItem → Pool → Worker
  begun i p = worker_start (worker_env h (length p.heap)) (worker_for h template i)

  spawn_worker_lem :
      (i : DispatchItem) (p : Pool)
      → spawn_worker h template i p ≡ record {
        heap = set_nth (length p.heap) (begun i p) (entered h template i p).heap;
        live = done (worker_for h template i) (begun i p) (entered h template i p).live;
      }
  unfolding spawn_worker act
  spawn_worker_lem i p = rw (nth-length p.heap (worker_for h template i), act)

  spawn_worker-length :
      (i : DispatchItem) (p : Pool)
      → length (spawn_worker h template i p).live ≤ suc (length p.live)
  spawn_worker-length i p = rw (spawn_worker_lem i p) (
      ground (
        arith,
        length-insert_le i.key (length p.heap) p.live,
        length-remove_le i.key (insert i.key (length p.heap) p.live),
      ))

  -- The new key is not one of those that are there.
  done-entry :
      (i : DispatchItem) (p : Pool) (k : String) (n : ℕ)
      → has i.key p.live ≡ false
      → lookup k p.live ≡ some n
      → lookup k (done (worker_for h template i) (begun i p) (entered h template i p).live) ≡ some n
  done-entry i p k n fresh found = ground (
    arith,
    ==_iff i.key k,
    lookup-insert i.key k (length p.heap) p.live,
    lookup-remove i.key k (insert i.key (length p.heap) p.live),
  )

  spawn_worker-Kept :
      (i : DispatchItem) (p : Pool)
      → has i.key p.live ≡ false
      → Kept p (spawn_worker h template i p)
  spawn_worker-Kept i p fresh = rw (spawn_worker_lem i p) (record {
    entries = λ k n found. done-entry i p k n fresh found;
    objects = λ n w found. nth-set_length n p.heap w (worker_for h template i) (begun i p) found;
  })

  spawn_items-Kept :
      (cap : ℕ) (is : List DispatchItem) (p : Pool) → Kept p (spawn_items h template cap is p)
  unfolding spawn_items
  spawn_items-Kept cap [] p = Kept-refl p
  spawn_items-Kept cap (i ∷ is) p =
      if-intro (Kept p) (leb cap (length p.live)) (λ _. Kept-refl p)
        (λ _.
          if-intro (Kept p) (has i.key p.live) (λ _. spawn_items-Kept cap is p)
            (λ fresh.
              Kept-trans p (spawn_worker h template i p) _ (spawn_worker-Kept i p fresh)
                (spawn_items-Kept cap is (spawn_worker h template i p))))

  spawn_items-length :
      (cap : ℕ) (is : List DispatchItem) (p : Pool)
      → length (spawn_items h template cap is p).live ≤ max (length p.live) cap
  unfolding spawn_items
  spawn_items-length cap [] p = omega arith
  spawn_items-length cap (i ∷ is) p = ground (
    arith,
    spawn_items-length cap is p,
    spawn_items-length cap is (spawn_worker h template i p),
    spawn_worker-length i p,
  )

  -- A plan adds workers up to its cap and never beyond, and leaves every worker that is in the pool there, under its key
  -- and untouched.
  pub spawn_items-caps :
      (cap : ℕ) (is : List DispatchItem) (p : Pool)
      → (length (spawn_items h template cap is p).live ≤ max (length p.live) cap)
        × Kept p (spawn_items h template cap is p)
  spawn_items-caps cap is p = (spawn_items-length cap is p, spawn_items-Kept cap is p)

  -- The item's worker is in the pool, or the pool is full.
  abbrev pub Served : ℕ → Pool → DispatchItem → Type 0
  Served cap p i = (has i.key p.live ≡ true) ⊎ (cap ≤ length p.live)

  module _ (starts : (n : ℕ) → h.spawn n ≡ started) where
    started_entry :
        (i : DispatchItem) (p : Pool)
        → lookup i.key (spawn_worker h template i p).live ≡ some (length p.heap)
    unfolding worker_start
    started_entry i p =
        rw (spawn_worker_lem i p, starts (length p.heap), worker_start)
          (lookup-insert_self i.key (length p.heap) p.live)

    -- With a spawner whose processes run on, every item of a plan has its worker in the pool afterwards, unless the pool is
    -- as full as the plan allows.
    pub spawn_items-Served :
        (cap : ℕ) (is : List DispatchItem) (p : Pool)
        → All (Served cap (spawn_items h template cap is p)) is
    unfolding spawn_items
    spawn_items-Served cap [] p = tt
    spawn_items-Served cap (i ∷ is) p =
        if-intro (λ q. All (Served cap q) (i ∷ is)) (leb cap (length p.live))
          (λ full. All-intro (Served cap p) (λ j. inr (ground arith)) (i ∷ is))
          (λ _.
            if-intro (λ q. All (Served cap q) (i ∷ is)) (has i.key p.live)
              (λ there. (
                inl (has-Kept p _ i.key (spawn_items-Kept cap is p) there),
                spawn_items-Served cap is p,
              ))
              (λ _. (
                inl (
                    rw (
                      (spawn_items-Kept cap is (spawn_worker h template i p)).entries i.key _
                        (started_entry i p))),
                spawn_items-Served cap is (spawn_worker h template i p),
              )))
