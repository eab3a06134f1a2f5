-- ===== src/Planner/Schedule/Dispatch/Staleness.antt =====
-- The staleness reconcile and live workers.
use status_pipe.Base.{
  ℕ, ◌≡◌, refl, ◌==◌, String, true, List, [], ◌∷◌, has_text, lookup, lookup-insert, arith, ==_iff,
  Bool-cases, inl, inr,
}
use status_pipe.Base.Platform.{Platform}
use status_pipe.Protocol.{TicketFile}
use status_pipe.Planner.{PassState, PlannerInput}
use status_pipe.Planner.Effects.{Ports, World}
use status_pipe.Planner.Effects.Outcomes.{Ends, Leaves-bind}
use status_pipe.Planner.Schedule.Tickets.{as_reconciled}
use status_pipe.Planner.Schedule.Dispatch.{mark_if, is_crashed, reconcile_each, reconcile_staleness}

module _ (os : Platform) (p : Ports) (input : PlannerInput) where
  abbrev Kept : String → World → World → Type 0
  Kept key w v = lookup key v.tickets ≡ lookup key w.tickets

  mark_if-Kept :
      (now : ℕ) (iso k key : String) (t : TicketFile) (s : PassState) (w v : World)
      → has_text key input.live_worker_keys ≡ true
      → Kept key w v
      → Ends (Kept key w) (mark_if os p input (is_crashed os p input now k t) iso k t s v)
  mark_if-Kept now iso k key t s w v l h = elim (Bool-cases (k == key)) [
    | inl e ↦ ground (arith, l, h, ==_iff k key)
    | inr e ↦ ground (
      arith,
      e,
      h,
      lookup-insert k key (as_reconciled os t iso input.config.stale_worker_minutes) v.tickets,
    )
  ]

  reconcile_each-Kept :
      (now : ℕ) (iso key : String) (es : List (String × TicketFile)) (s : PassState) (w v : World)
      → has_text key input.live_worker_keys ≡ true
      → Kept key w v
      → Ends (Kept key w) (reconcile_each os p input now iso es s v)
  unfolding reconcile_each
  reconcile_each-Kept now iso key [] s w v l h = h
  reconcile_each-Kept now iso key ((k, t) ∷ es) s w v l h =
      Leaves-bind (λ _. Kept key w) _ _
        (mark_if os p input (is_crashed os p input now k t) iso k t s) _ v
        (mark_if-Kept now iso k key t s w v l h)
        (λ next u j. reconcile_each-Kept now iso key es next w u l j)

-- The staleness reconcile never writes the ticket of a worker that the supervisor reports live, however old its heartbeat and
-- whatever throws.
pub reconcile_staleness-live :
    (os : Platform) (p : Ports) (input : PlannerInput) (s : PassState) (key : String) (w : World)
    → has_text key input.live_worker_keys ≡ true
    → Ends (λ v. lookup key v.tickets ≡ lookup key w.tickets) (reconcile_staleness os p input s w)
unfolding reconcile_staleness
reconcile_staleness-live os p input s key w l =
    reconcile_each-Kept os p input (p.now w) (p.iso w) key s.tickets s w w l refl
