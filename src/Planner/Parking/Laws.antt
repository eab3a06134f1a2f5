-- ===== src/Planner/Parking/Laws.antt =====
-- The parking of src/planner/schedule.ts.
use status_pipe.Base.{
  ℕ, ◌≡◌, refl, ◌↔◌, String, Bool, true, not, ◌||◌, is_some, List, [], ◌∷◌, keep, every, lookup,
  Dict, arith, ◌∙◌,
}
use status_pipe.Base.Platform.{Platform}
use status_pipe.Protocol.{TicketFile}
use status_pipe.Planner.{Candidate, PassState}
use status_pipe.Planner.Schedule.Tickets.{is_terminal}
use status_pipe.Planner.Parking.{
  compute_parked, operator_waiting, active_candidates, tracked_reason, active_reason,
}

every-keep :
    (p q : Candidate → Bool) (cs : List Candidate)
    → every p (keep (λ c. not (q c)) cs) ≡ every (λ c. q c || p c) cs
every-keep p q [] = refl
every-keep p q (c ∷ cs) = ground (arith, every-keep p q cs)

-- The ticket is over, or it needs the operator.
abbrev pub rests : Dict TicketFile → Candidate → Bool
rests tickets c = is_terminal (lookup c.key tickets) || operator_waiting (lookup c.key tickets)

active_reason-is_some :
    (os : Platform) (tickets : Dict TicketFile) (cs : List Candidate)
    → is_some (active_reason os tickets cs)
      ≡ every (λ (d : Candidate). operator_waiting (lookup d.key tickets)) cs
active_reason-is_some os tickets [] = refl
active_reason-is_some os tickets (c ∷ cs) = ground arith

tracked_reason-is_some :
    (os : Platform) (tickets : Dict TicketFile) (cs : List Candidate)
    → is_some (tracked_reason os tickets cs) ≡ every (rests tickets) cs
tracked_reason-is_some os tickets [] = refl
tracked_reason-is_some os tickets (c ∷ cs) =
    active_reason-is_some os tickets (active_candidates tickets (c ∷ cs))
    ∙ every-keep (λ (d : Candidate). operator_waiting (lookup d.key tickets))
        (λ (d : Candidate). is_terminal (lookup d.key tickets)) (c ∷ cs)

-- A pass parks exactly when no worker is live, nothing was dispatched or deferred, no ack was consumed, and every
-- candidate is over or needs the operator.
pub compute_parked-exactly :
    (os : Platform) (live : List String) (now : ℕ) (iso : String) (s : PassState)
    (cs : List Candidate)
    → (is_some (compute_parked os live now iso s cs) ≡ true) ↔ (
        (live ≡ [])
        × (s.report.dispatched ≡ [])
        × (s.report.deferred ≡ [])
        × (s.report.consumed_acks ≡ [])
        × (every (rests s.tickets) cs ≡ true))
unfolding compute_parked
compute_parked-exactly os live now iso s cs = ground (arith, tracked_reason-is_some os s.tickets cs)
