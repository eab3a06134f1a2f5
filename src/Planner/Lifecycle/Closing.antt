-- ===== src/Planner/Lifecycle/Closing.antt =====
-- Which tickets the close of drifted files may touch.
use status_pipe.Base.{
  ◌≡◌, refl, ◌∙◌, ◌||◌, ◌&&◌, ◌==◌, String, true, false, not, List, [], ◌∷◌, has_text, lookup,
  lookup-insert, arith, ==_iff, All, All-impl, All-keep_test, keep, Dict, keys, Option-cases, inl,
  inr, none,
}
use status_pipe.Planner.{Candidate, PassState}
use status_pipe.Planner.Inventory.{keys_of}
use status_pipe.Planner.Effects.{Ports, World, TicketState, get_states, Outcome}
use status_pipe.Planner.Effects.Outcomes.{Ends, Returns, Leaves-bind, Leaves-impl}
use status_pipe.Planner.Schedule.Tickets.{is_terminal}
use status_pipe.Planner.Lifecycle.{
  reconcile_closed, reconcile_keys, drift_keys, in_turn, close_one, safe_get_states, closed_verdict,
  as_closed,
}

-- The ticket of this key is as before.
abbrev Untouched : String → World → World → Type 0
Untouched key w v = lookup key v.tickets ≡ lookup key w.tickets

close_one-Untouched :
    (p : Ports) (iso : String) (states : Dict TicketState) (k key : String) (s : PassState)
    (w v : World)
    → (k == key) ≡ false
    → Untouched key w v
    → Ends (Untouched key w) (close_one p iso states k s v)
close_one-Untouched p iso states k key s w v e h = elim (Option-cases (lookup k s.tickets)) [
  | inl a ↦ ground (arith, h, a)
  | inr (t, a) ↦ elim (Option-cases (closed_verdict (lookup k states))) [
    | inl b ↦ ground (arith, h, a, b)
    | inr (x, b) ↦ ground (arith, h, e, a, b, lookup-insert k key (as_closed t x iso) v.tickets)
  ]
]

in_turn-Untouched :
    (p : Ports) (iso : String) (states : Dict TicketState) (key : String) (ks : List String)
    (s : PassState) (w v : World)
    → All (λ k. (k == key) ≡ false) ks
    → Untouched key w v
    → Ends (Untouched key w) (in_turn (close_one p iso states) ks s v)
unfolding in_turn
in_turn-Untouched p iso states key [] s w v a h = h
in_turn-Untouched p iso states key (k ∷ ks) s w v a h =
    Leaves-bind (λ _. Untouched key w) _ _ (close_one p iso states k s) _ v
      (close_one-Untouched p iso states k key s w v a.0 h)
      (λ next u j. in_turn-Untouched p iso states key ks next w u a.1 j)

keys-Untouched :
    (p : Ports) (key : String) (ks : List String) (s : PassState) (w : World)
    → All (λ k. (k == key) ≡ false) ks
    → Ends (Untouched key w) (reconcile_keys p (close_one p) ks s w)
unfolding in_turn
keys-Untouched p key [] s w a = refl
keys-Untouched p key (k ∷ ks) s w a =
    Leaves-bind (λ _ v. v.tickets ≡ w.tickets) _ _ (safe_get_states p (k ∷ ks)) _ w (ground arith)
      (λ states v e. in_turn-Untouched p (p.iso v) states key (k ∷ ks) s w v a (rw e refl))

drift_keys-other :
    (key : String) (s : PassState) (cs : List Candidate) (ks : List String)
    → (has_text key (keys_of cs) || is_terminal (lookup key s.tickets)) ≡ true
    → All
        (λ k. (k == key) ≡ false)
        (keep (λ k. not (has_text k (keys_of cs)) && not (is_terminal (lookup k s.tickets))) ks)
drift_keys-other key s cs ks h =
    All-impl _ _ (λ k e. ground (arith, h, e, ==_iff k key)) _ (All-keep_test _ ks)

-- The close writes only files that have drifted: the ticket of a key that is a candidate, or whose loaded file is over
-- already, is as before, whatever the forge says and whatever throws.
pub reconcile_closed-drift :
    (p : Ports) (s : PassState) (cs : List Candidate) (key : String) (w : World)
    → (has_text key (keys_of cs) || is_terminal (lookup key s.tickets)) ≡ true
    → Ends (λ v. lookup key v.tickets ≡ lookup key w.tickets) (reconcile_closed p s cs w)
unfolding reconcile_closed
reconcile_closed-drift p s cs key w h =
    keys-Untouched p key (drift_keys s cs) s w (drift_keys-other key s cs (keys s.tickets) h)

in_turn-offline :
    (p : Ports) (iso : String) (states : Dict TicketState) (ks : List String) (s : PassState)
    (w : World)
    → ((k : String) → lookup k states ≡ none)
    → Returns (λ t v. (t ≡ s) × (v.tickets ≡ w.tickets)) (in_turn (close_one p iso states) ks s w)
unfolding in_turn
in_turn-offline p iso states [] s w n = (refl, refl)
in_turn-offline p iso states (k ∷ ks) s w n =
    Leaves-bind (λ t v. (t ≡ s) × (v ≡ w)) _ _ (close_one p iso states k s) _ w
      (ground (arith, n k))
      (λ next v e. rw (e.0) (rw (e.1) (in_turn-offline p iso states ks s w n)))

none_known : (states : Dict TicketState) (k : String) → states ≡ [] → lookup k states ≡ none
unfolding lookup
none_known states k e = rw e refl

keys-offline :
    (p : Ports) (ks : List String) (s : PassState) (w : World)
    → p.throws w (get_states ks) ≡ true
    → Returns (λ t v. (t ≡ s) × (v.tickets ≡ w.tickets)) (reconcile_keys p (close_one p) ks s w)
unfolding in_turn
keys-offline p [] s w e = (refl, refl)
keys-offline p (k ∷ ks) s w e =
    Leaves-bind (λ states v. (states ≡ []) × (v.tickets ≡ w.tickets)) _ _
      (safe_get_states p (k ∷ ks)) _ w (ground (arith, e))
      (λ states v h.
        kept v _ h.1
          (in_turn-offline p (p.iso v) states (k ∷ ks) s v (λ j. none_known states j h.0)))
  where
    kept :
        (v : World) (o : Outcome PassState)
        → v.tickets ≡ w.tickets
        → Returns (λ t u. (t ≡ s) × (u.tickets ≡ v.tickets)) o
        → Returns (λ t u. (t ≡ s) × (u.tickets ≡ w.tickets)) o
    kept v o e h = Leaves-impl _ _ _ _ o (λ t u j. (j.0, j.1 ∙ e)) (λ u j. j) h

-- A forge that does not answer closes nothing: the loaded tickets, the report and the files are as before.
reconcile_closed-offline :
    (p : Ports) (s : PassState) (cs : List Candidate) (w : World)
    → p.throws w (get_states (drift_keys s cs)) ≡ true
    → Returns (λ t v. (t ≡ s) × (v.tickets ≡ w.tickets)) (reconcile_closed p s cs w)
unfolding reconcile_closed
reconcile_closed-offline p s cs w e = keys-offline p (drift_keys s cs) s w e
