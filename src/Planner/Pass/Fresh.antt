-- ===== src/Planner/Pass/Fresh.antt =====
-- The report of a pass in front of its dispatch: the steps of src/planner/plan.ts before selectAndDispatch.
use status_pipe.Base.{◌≡◌, String, Bool, List, [], ◌∷◌, arith, ℕ, Dict}
use status_pipe.Base.Platform.{Platform}
use status_pipe.Protocol.{TicketFile, TrustMode}
use status_pipe.Planner.{Candidate, PassState, PlannerInput, PlanReport}
use status_pipe.Planner.Effects.{
  Ports, World, StoredAck, M, ask, list_acks, list_epics, TicketState,
}
use status_pipe.Planner.Effects.Outcomes.{IfDone, IfDone-any, IfDone-bind}
use status_pipe.Planner.Inventory.{discover_epics, discover_tickets, resolve_epics}
use status_pipe.Planner.Acks.{ConsumedAcks, consume_one, consume_each, consume_acks}
use status_pipe.Planner.Schedule.Dispatch.{reconcile_each, reconcile_staleness, mark_if, is_crashed}
use status_pipe.Planner.Lifecycle.{
  in_turn, reconcile_keys, reopen_one, close_one, reconcile_reopened, reconcile_closed,
  terminal_keys, drift_keys, safe_get_states,
}
use status_pipe.Planner.Pass.{build_candidates, reconcile_all}

abbrev pub Fresh : PlanReport → Type 0
Fresh r = (r.dispatched ≡ []) × (r.deferred ≡ [])

abbrev pub FreshState : PassState → Type 0
FreshState s = Fresh s.report

pub build_candidates-Fresh :
    (input : PlannerInput) (p : Ports) (mode : TrustMode) (operators : List String) (r : PlanReport)
    (w : World)
    → Fresh r
    → IfDone
        (λ (f : List Candidate × PlanReport). Fresh f.1)
        (build_candidates input p mode operators r w)
unfolding build_candidates discover_epics
build_candidates-Fresh input p mode operators r w h =
    IfDone-bind (λ (f : List Candidate × PlanReport). Fresh f.1) _
      (discover_epics p input.config.epics_dir input.config.inventory_label r) _ w
      (IfDone-bind _ _
        (ask p (list_epics input.config.epics_dir) (λ u. p.epics u input.config.epics_dir)) _ w
        (IfDone-any _)
        (λ specs u _.
          IfDone-bind _ _ (resolve_epics p specs input.config.inventory_label []) _ u (IfDone-any _)
            (λ found x _. h)))
      (λ f v k.
        IfDone-bind _ _ (discover_tickets p _ mode operators _) _ v (IfDone-any _) (λ ts u _. k))

consume_one-Fresh :
    (p : Ports) (s : StoredAck) (acc : ConsumedAcks × PlanReport) (w : World)
    → Fresh acc.1
    → IfDone (λ (r : ConsumedAcks × PlanReport). Fresh r.1) (consume_one p s acc w)
unfolding consume_one
consume_one-Fresh p s acc w h = ground (arith, h)

consume_each-Fresh :
    (p : Ports) (ss : List StoredAck) (acc : ConsumedAcks × PlanReport) (w : World)
    → Fresh acc.1
    → IfDone (λ (r : ConsumedAcks × PlanReport). Fresh r.1) (consume_each p ss acc w)
unfolding consume_each
consume_each-Fresh p [] acc w h = h
consume_each-Fresh p (s ∷ ss) acc w h =
    IfDone-bind (λ (r : ConsumedAcks × PlanReport). Fresh r.1) _ (consume_one p s acc) _ w
      (consume_one-Fresh p s acc w h) (λ next v k. consume_each-Fresh p ss next v k)

pub consume_acks-Fresh :
    (p : Ports) (r : PlanReport) (w : World)
    → Fresh r
    → IfDone (λ (f : ConsumedAcks × PlanReport). Fresh f.1) (consume_acks p r w)
unfolding consume_acks
consume_acks-Fresh p r w h =
    IfDone-bind _ _ (ask p list_acks (λ u. u.inbox)) _ w (IfDone-any _)
      (λ ss v _. consume_each-Fresh p ss ([], r) v h)

mark_or_keep-Fresh :
    (os : Platform) (p : Ports) (input : PlannerInput) (b : Bool) (iso key : String)
    (t : TicketFile) (s : PassState) (w : World)
    → FreshState s
    → IfDone FreshState (mark_if os p input b iso key t s w)
mark_or_keep-Fresh os p input b iso key t s w h = ground (arith, h)

reconcile_each-Fresh :
    (os : Platform) (p : Ports) (input : PlannerInput) (now : ℕ) (iso : String)
    (es : List (String × TicketFile)) (s : PassState) (w : World)
    → FreshState s
    → IfDone FreshState (reconcile_each os p input now iso es s w)
unfolding reconcile_each
reconcile_each-Fresh os p input now iso [] s w h = h
reconcile_each-Fresh os p input now iso ((key, t) ∷ es) s w h =
    IfDone-bind FreshState _ (mark_if os p input (is_crashed os p input now key t) iso key t s) _ w
      (mark_or_keep-Fresh os p input (is_crashed os p input now key t) iso key t s w h)
      (λ next v k. reconcile_each-Fresh os p input now iso es next v k)

in_turn-Fresh :
    (step : String → PassState → M PassState)
    → ((key : String) (s : PassState) (w : World) → FreshState s → IfDone FreshState (step key s w))
    → (ks : List String) (s : PassState) (w : World) → FreshState s
    → IfDone FreshState (in_turn step ks s w)
unfolding in_turn
in_turn-Fresh step each [] s w h = h
in_turn-Fresh step each (k ∷ ks) s w h =
    IfDone-bind FreshState _ (step k s) _ w (each k s w h)
      (λ next v j. in_turn-Fresh step each ks next v j)

reconcile_keys-Fresh :
    (p : Ports) (step : String → Dict TicketState → String → PassState → M PassState)
    → ((iso : String) (states : Dict TicketState) (key : String) (s : PassState) (w : World)
        → FreshState s
        → IfDone FreshState (step iso states key s w))
    → (ks : List String) (s : PassState) (w : World) → FreshState s
    → IfDone FreshState (reconcile_keys p step ks s w)
unfolding in_turn
reconcile_keys-Fresh p step each [] s w h = h
reconcile_keys-Fresh p step each (k ∷ ks) s w h =
    IfDone-bind _ _ (safe_get_states p (k ∷ ks)) _ w (IfDone-any _)
      (λ states v _. in_turn-Fresh (step (p.iso v) states) (each (p.iso v) states) (k ∷ ks) s v h)

pub reconciled-Fresh :
    (os : Platform) (p : Ports) (input : PlannerInput) (cs : List Candidate) (s : PassState)
    (w : World)
    → FreshState s
    → IfDone FreshState (reconcile_all os input p cs s w)
unfolding reconcile_all reconcile_staleness reconcile_reopened reconcile_closed in_turn
reconciled-Fresh os p input cs s w h =
    IfDone-bind FreshState _ (reconcile_staleness os p input s) _ w
      (reconcile_each-Fresh os p input (p.now w) (p.iso w) s.tickets s w h)
      (λ s1 v k.
        IfDone-bind FreshState _ (reconcile_reopened p s1 cs) _ v
          (reconcile_keys-Fresh p (reopen_one p) (λ iso states key s w j. ground (arith, j))
            (terminal_keys s1 cs) s1 v k)
          (λ s2 u j.
            reconcile_keys-Fresh p (close_one p) (λ iso states key s w i. ground (arith, i))
              (drift_keys s2 cs) s2 u j))
