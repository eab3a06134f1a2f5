-- ===== src/Forge/Http/Pool/Laws.antt =====
-- The pool keeps its limit and its order: src/forge/http.ts.
use status_pipe.Base.{
  ℕ, suc, ◌≡◌, ◌≤◌, ◌<◌, refl, true, List, [], ◌∷◌, ◌++◌, eqb, any, length, arith, if-intro, ◌∙◌,
  ltb,
}
use mathlib.Core.List.{append-nil, append_assoc}
use status_pipe.Forge.Http.Pool.{
  RequestPool, PoolEvent, runs, ends, new_pool, acquire, release, pool_step, pool_run, drop_task,
  is_running,
}

abbrev pub arrivals : List PoolEvent → List ℕ
arrivals [] = []
arrivals (runs task ∷ es) = task ∷ arrivals es
arrivals (ends task ∷ es) = arrivals es

-- The requests under way are counted and within the limit; none waits while there is room; and the requests start in the
-- order in which they came.
pub record PoolInv (p : RequestPool) (came : List ℕ) : Type 0 where
  pub counted : p.active ≡ length p.running
  pub within : p.active ≤ p.limit
  pub busy : (p.active < p.limit) → p.queue ≡ []
  pub fifo : p.started ++ p.queue ≡ came

length-drop_task :
    (task : ℕ) (ts : List ℕ)
    → any (λ t. eqb t task) ts ≡ true
    → length ts ≡ suc (length (drop_task task ts))
length-drop_task task [] h = absurd (cc)
length-drop_task task (t ∷ ts) h = ground (arith, length-drop_task task ts)

acquire-PoolInv :
    (task : ℕ) (p : RequestPool) (came : List ℕ)
    → PoolInv p came
    → PoolInv (acquire task p) (came ++ task ∷ [])
unfolding acquire
acquire-PoolInv task p came v =
    if-intro (λ q. PoolInv q (came ++ task ∷ [])) (ltb p.active p.limit)
      (λ room.
        let empty : p.queue ≡ [] = v.busy (ground arith) in
        let order : p.started ++ [] ≡ came = rw (← empty) v.fifo in
        record {
          counted = omega (arith, v.counted);
          within = ground arith;
          busy = λ _. empty;
          fifo = rw empty (simp (append-nil, ← order));
        })
      (λ full. record {
        counted = v.counted;
        within = v.within;
        busy = λ less. absurd (ground arith);
        fifo = simp (← append_assoc, v.fifo);
      })

released :
    (task : ℕ) (p : RequestPool)
    → is_running task p ≡ true
    → p.active ≡ length p.running
    → p.active ≡ suc (length (drop_task task p.running))
released task p r counted = cc (counted, length-drop_task task p.running r)

release-PoolInv :
    (task : ℕ) (p : RequestPool) (came : List ℕ)
    → is_running task p ≡ true
    → PoolInv p came
    → PoolInv (release task p) came
unfolding release
release-PoolInv task p came r v = resumed p.queue refl
  where
    left : p.active ≡ suc (length (drop_task task p.running))
    left = released task p r v.counted

    resumed : (q : List ℕ) → p.queue ≡ q → PoolInv (release task p) came
    resumed [] e =
        rw (e, release)
          (record {
            counted = omega (arith, left);
            within = omega (arith, v.within);
            busy = λ _. refl;
            fifo = rw e at (v.fifo);
          })
    resumed (next ∷ rest) e =
        rw (e, release)
          (record {
            counted = omega (arith, left);
            within = omega (arith, v.within, left);
            busy = λ less. absurd (cc (v.busy (omega (arith, left, less)), e));
            fifo = append_assoc p.started (next ∷ []) rest ∙ rw e at (v.fifo);
          })

pool_step-PoolInv :
    (e : PoolEvent) (p : RequestPool) (came : List ℕ)
    → PoolInv p came
    → PoolInv (pool_step e p) (came ++ arrivals (e ∷ []))
unfolding pool_step
pool_step-PoolInv (runs task) p came v = acquire-PoolInv task p came v
pool_step-PoolInv (ends task) p came v =
    if-intro (λ q. PoolInv q (came ++ [])) (is_running task p)
      (λ r. rw append-nil (release-PoolInv task p came r v)) (λ _. rw append-nil v)

pool_run-PoolInv_from :
    (es : List PoolEvent) (p : RequestPool) (came : List ℕ)
    → PoolInv p came
    → PoolInv (pool_run es p) (came ++ arrivals es)
unfolding pool_run
pool_run-PoolInv_from [] p came v = rw append-nil v
pool_run-PoolInv_from (runs task ∷ es) p came v =
    let rest =
      pool_run-PoolInv_from es (pool_step (runs task) p) (came ++ task ∷ [])
        (pool_step-PoolInv (runs task) p came v) in
    rw append_assoc at rest
pool_run-PoolInv_from (ends task ∷ es) p came v =
    pool_run-PoolInv_from es (pool_step (ends task) p) came
      (rw append-nil at (pool_step-PoolInv (ends task) p came v))

-- However requests come and end: no more of them are under way than the limit, none waits while there is room for it,
-- and they start in the order in which they came.
pub pool_run-PoolInv :
    (limit : ℕ) (es : List PoolEvent) → PoolInv (pool_run es (new_pool limit)) (arrivals es)
pool_run-PoolInv limit es =
    pool_run-PoolInv_from es (new_pool limit) []
      (record { counted = refl; within = omega arith; busy = λ _. refl; fifo = refl })
