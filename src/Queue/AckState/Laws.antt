-- ===== src/Queue/AckState/Laws.antt =====
-- When an ack counts as honoured, and what becomes of a fresh one.
use status_pipe.Base.{
  ℕ, ◌*◌, ltb, leb, String, Bool, Option, find, ◌==◌, ◌≡◌, refl, true, false, none, some, List, [],
  ◌∷◌, arith, any,
}
use status_pipe.Base.Platform.{Platform}
use status_pipe.Protocol.{TicketFile, OrchestratorFile, LaunchAgent, planner_id}
use status_pipe.Protocol.AckId.{ack_matches_ticket}
use status_pipe.Queue.{KnownAck}
use status_pipe.Queue.AckState.{
  AckContext, chip_state_for, honors_current_request, has_acked_current_request, is_pending,
}

module _ (os : Platform) (t : TicketFile) (ctx : AckContext) where
  pub pending-matches :
      (k : KnownAck)
      → is_pending (chip_state_for os k t ctx) ≡ true
      → ack_matches_ticket k.ack t ≡ true
  unfolding chip_state_for
  pending-matches k h = ground arith

  honors-matches :
      (k : KnownAck) → honors_current_request os k t ctx ≡ true → ack_matches_ticket k.ack t ≡ true
  unfolding honors_current_request
  honors-matches k h = ground (arith, pending-matches k)

  -- Once the ticket asks something else than every known ack answers, no ack silences it: the request counts as
  -- not acked.
  moved_on-not_acked :
      (acks : List KnownAck)
      → any (λ (k : KnownAck). ack_matches_ticket k.ack t) acks ≡ false
      → has_acked_current_request os t acks ctx ≡ false
  unfolding has_acked_current_request
  moved_on-not_acked [] h = refl
  moved_on-not_acked (k ∷ ks) h = ground (arith, honors-matches k, moved_on-not_acked ks)

-- An instant of the files; none, and one that cannot be read, count as the oldest.
abbrev pub instant_of : Platform → String → ℕ
instant_of os String.[] = 0
instant_of os (String.◌∷◌ c s) = elim (os.date_parse (String.◌∷◌ c s)) [ none ↦ 0 | some ms ↦ ms ]

abbrev pub is_older : Platform → ℕ → KnownAck → Bool
is_older os created j = ltb (instant_of os j.ack.created_at) created

module _ (os : Platform) (k : KnownAck) where
  abbrev IsNewest : KnownAck → Type 0
  IsNewest j = is_older os (instant_of os k.ack.created_at) j ≡ true

-- No pass has begun after this instant.
abbrev pub no_pass_since : Platform → ℕ → Option OrchestratorFile → Bool
no_pass_since os created none = true
no_pass_since os created (some o) = elim o.last_pass_started_at [
  | none ↦ true
  | some text ↦ leb (instant_of os text) created
]

-- Twice the interval of the planner's ticks, in milliseconds.
abbrev pub grace_ms : AckContext → ℕ
grace_ms ctx = elim ctx.launch [
  | none ↦ 120000 * ctx.stale_worker_minutes
  | some launch ↦ elim (find (λ (a : LaunchAgent). a.id == planner_id) launch.agents) [
    | none ↦ 120000 * ctx.stale_worker_minutes
    | some planner ↦ 120000 * planner.interval_minutes
  ]
]
