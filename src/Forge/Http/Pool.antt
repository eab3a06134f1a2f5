-- ===== src/Forge/Http/Pool.antt =====
-- The concurrency limit of requests: RequestPool of src/forge/http.ts. A task is a number. `running` and `started` are what
-- the pool has let through: the tasks that have not ended yet, and all of them in the order of their start.
pub mod Laws
use status_pipe.Base.{
  ℕ, ◌+◌, ◌-◌, Bool, true, false, ◌||◌, List, [], ◌∷◌, ◌++◌, eqb, ltb, if◌then◌else◌, any,
}

pub record RequestPool : Type 0 where
  pub limit : ℕ
  pub active : ℕ
  pub queue : List ℕ
  pub running : List ℕ
  pub started : List ℕ

abbrev pub new_pool : ℕ → RequestPool
new_pool limit = record { limit = limit; active = 0; queue = []; running = []; started = [] }

abbrev begin : ℕ → RequestPool → RequestPool
begin task p = record p {
  active = p.active + 1;
  running = task ∷ p.running;
  started = p.started ++ task ∷ [];
}

unfoldable pub acquire : ℕ → RequestPool → RequestPool
acquire task p =
    if ltb p.active p.limit then begin task p else record p { queue = p.queue ++ task ∷ [] }

abbrev resume : List ℕ → RequestPool → RequestPool
resume [] p = p
resume (next ∷ rest) p = begin next (record p { queue = rest })

abbrev pub drop_task : ℕ → List ℕ → List ℕ
drop_task task [] = []
drop_task task (t ∷ ts) = if eqb t task then ts else t ∷ drop_task task ts

abbrev pub is_running : ℕ → RequestPool → Bool
is_running task p = any (λ t. eqb t task) p.running

-- A task that runs ends, by a value or a failure: `release` in the `finally`.
unfoldable pub release : ℕ → RequestPool → RequestPool
release task p =
    resume p.queue (record p { active = p.active - 1; running = drop_task task p.running })

pub data PoolEvent : Type 0 where
  runs ends : (task : ℕ) → PoolEvent

unfoldable pub pool_step : PoolEvent → RequestPool → RequestPool
unfolding acquire release
pool_step (runs task) p = acquire task p
pool_step (ends task) p = if is_running task p then release task p else p

unfoldable pub pool_run : List PoolEvent → RequestPool → RequestPool
unfolding pool_step
pool_run [] p = p
pool_run (e ∷ es) p = pool_run es (pool_step e p)
