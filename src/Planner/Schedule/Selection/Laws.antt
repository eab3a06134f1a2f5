-- ===== src/Planner/Schedule/Selection/Laws.antt =====
-- The fairness of the schedule.
use status_pipe.Base.{
  ℕ, ◌≡◌, ◌≤◌, refl, String, Bool, true, false, not, ◌&&◌, ◌||◌, Option, none, some, List, [], ◌∷◌,
  has, has_text, lookup, arith, All, is_gt,
}
use status_pipe.Protocol.{TicketFile, Phase, Health}
use status_pipe.Planner.Schedule.Tickets.{is_terminal_phase}
use status_pipe.Base.Order.{
  IsOrder, IsOrdered, IsSorted-IsOrdered, sort-IsSorted, All-sort, lexical-IsOrder, by_key-IsOrder,
  compare-IsOrder,
}
use status_pipe.Base.Platform.{Platform}
use status_pipe.Planner.{Candidate, PassState}
use status_pipe.Planner.Schedule.Selection.{
  Selectable, eligible, idles, selectable, ordered, compare_selectable, ack_rank, updated_at_ms,
}

compare_selectable-IsOrder : (os : Platform) → IsOrder (compare_selectable os)
compare_selectable-IsOrder os =
    lexical-IsOrder (by_key-IsOrder ack_rank compare-IsOrder)
      (by_key-IsOrder (λ (s : Selectable). updated_at_ms os s.ticket) compare-IsOrder)

-- The time of the last touch; a missing file or an unreadable time counts as the oldest.
abbrev touched : Platform → Option TicketFile → ℕ
touched os none = 0
touched os (some t) = elim (os.date_parse t.updated_at) [ none ↦ 0 | some ms ↦ ms ]

-- One goes before another: as the only consumer of an ack of the two, or else as the one that is untouched for no less time.
abbrev GoesFirst : Bool → Bool → Type 0 → Type 0
GoesFirst true false longer = Unit {0}
GoesFirst false true longer = ⊥
GoesFirst true true longer = longer
GoesFirst false false longer = longer

abbrev pub Precedes : Platform → Selectable → Selectable → Type 0
Precedes os a b =
    GoesFirst a.ack_consumed b.ack_consumed (touched os a.ticket ≤ touched os b.ticket)

touched_lem : (os : Platform) (t : Option TicketFile) → updated_at_ms os t ≡ touched os t
touched_lem os none = refl
touched_lem os (some t) = ground arith

by_ack :
    (os : Platform) (c d : Candidate) (s t : Option TicketFile) (a b : Bool)
    → is_gt (
        compare_selectable os
          (record { candidate = c; ticket = s; ack_consumed = a })
          (record { candidate = d; ticket = t; ack_consumed = b }))
      ≡ false
    → GoesFirst a b (touched os s ≤ touched os t)
by_ack os c d s t true false h = tt
by_ack os c d s t false true h = absurd (cc)
by_ack os c d s t true true h = ground (arith, h, touched_lem os s, touched_lem os t)
by_ack os c d s t false false h = ground (arith, h, touched_lem os s, touched_lem os t)

-- Whether a ticket of this phase and health may be worked on, where an ack of it was consumed or not.
abbrev may_run : Phase → Health → Bool → Bool
may_run Phase.merged health acked = false
may_run Phase.abandoned health acked = false
may_run phase Health.waiting acked = acked
may_run phase Health.blocked acked = acked
may_run phase health acked = true

abbrev file_may_run : Option TicketFile → Bool → Bool
file_may_run none acked = true
file_may_run (some t) acked = may_run t.phase t.health acked

-- The candidate may be dispatched: the supervisor does not run it, the ticket and the ack are those of its key, and the
-- ticket may be worked on.
abbrev pub MayDispatch : List String → PassState → Selectable → Type 0
MayDispatch live state s =
    (has_text s.candidate.key live ≡ false)
    × (s.ticket ≡ lookup s.candidate.key state.tickets)
    × (s.ack_consumed ≡ has s.candidate.key state.consumed)
    × (file_may_run s.ticket s.ack_consumed ≡ true)

may_run_lem :
    (phase : Phase) (health : Health) (acked : Bool)
    → (not (is_terminal_phase phase) && (not (idles health) || acked)) ≡ may_run phase health acked
may_run_lem phase health acked = ground arith

file_may_run_lem : (t : Option TicketFile) (acked : Bool) → eligible t acked ≡ file_may_run t acked
file_may_run_lem none acked = refl
file_may_run_lem (some t) acked = may_run_lem t.phase t.health acked

-- The candidates that the supervisor does not run, and then those of them that are eligible.
selectable-MayDispatch :
    (live : List String) (state : PassState) (cs : List Candidate)
    → All (MayDispatch live state) (selectable live state cs)
selectable-MayDispatch live state [] = tt
selectable-MayDispatch live state (c ∷ cs) = ground (
  arith,
  selectable-MayDispatch live state cs,
  file_may_run_lem (lookup c.key state.tickets) (has c.key state.consumed),
)

-- The queue stands in the order of the schedule, consumers of an ack first and then the longest untouched, and every
-- entry may be dispatched: the supervisor does not run it, and its ticket is neither over nor idle without an ack.
pub ordered-IsFair :
    (os : Platform) (live : List String) (state : PassState) (cs : List Candidate)
    → IsOrdered (Precedes os) (ordered os (selectable live state cs))
      × All (MayDispatch live state) (ordered os (selectable live state cs))
ordered-IsFair os live state cs = (
  IsSorted-IsOrdered (Precedes os) (compare_selectable os)
      (λ a b. by_ack os a.candidate b.candidate a.ticket b.ticket a.ack_consumed b.ack_consumed) _
      (sort-IsSorted (compare_selectable-IsOrder os) (selectable live state cs)),
  All-sort _ _ _ (selectable-MayDispatch live state cs),
)
