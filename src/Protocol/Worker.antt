-- ===== src/Protocol/Worker.antt =====
-- Worker liveness: src/protocol/worker.ts.
use status_pipe.Base.{ℕ, ◌*◌, ◌-◌, String, Bool, true, false, Option, none, some, ltb}
use status_pipe.Base.Platform.{Platform}
use status_pipe.Protocol.{WorkerState, WorkerStatus}

abbrev pub is_running : WorkerStatus → Bool
is_running WorkerStatus.idle = false
is_running WorkerStatus.running = true
is_running WorkerStatus.error = false

-- `a ?? b` on nullable texts.
abbrev pub or_else_text : Option String → Option String → Option String
or_else_text none o = o
or_else_text (some s) o = some s

-- `!beat`: null, or the empty text.
abbrev pub nonempty : Option String → Option String
nonempty none = none
nonempty (some String.[]) = none
nonempty (some (String.◌∷◌ c s)) = some (String.◌∷◌ c s)

-- `-` on ℕ stops at 0, which is the `Math.max(0, now - beatMs)` of the source.
unfoldable pub beat_is_old : Platform → Option String → ℕ → ℕ → Bool
beat_is_old os beat stale_minutes now = elim (nonempty beat) [
  | none ↦ true
  | some text ↦ elim (os.date_parse text) [
    | none ↦ true
    | some ms ↦ ltb (stale_minutes * 60000) (now - ms)
  ]
]

unfoldable pub is_worker_stale : Platform → Option WorkerState → ℕ → ℕ → Bool
unfolding beat_is_old
is_worker_stale os none stale_minutes now = false
is_worker_stale os (some w) stale_minutes now = elim (is_running w.status) [
  | false ↦ false
  | true ↦ beat_is_old os (or_else_text w.heartbeat_at w.started_at) stale_minutes now
]
