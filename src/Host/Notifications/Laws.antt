-- ===== src/Host/Notifications/Laws.antt =====
-- When the operator is told nothing: src/host/notifications.ts.
use status_pipe.Base.{
  ◌≡◌, refl, false, String, none, some, List, [], ◌∷◌, flat_map, map, arith, has_text, Distinct,
  All, ==_iff, ==_refl,
}
use status_pipe.Queue.{CardDisplay}
use status_pipe.Queue.Model.{DisplayState}
use status_pipe.Host.Notifications.{ToastSettings, card_toasts, card_before, compute_toasts}

abbrev pub ids : List CardDisplay → List String
ids cs = map (λ (c : CardDisplay). c.id) cs

card_before-missing :
    (id : String) (cs : List CardDisplay) → has_text id (ids cs) ≡ false → card_before id cs ≡ none
unfolding card_before
card_before-missing id [] h = refl
card_before-missing id (c ∷ cs) h =
    ground (arith, card_before-missing id cs, ==_iff id c.id, ==_iff c.id id)

first_before :
    (c : CardDisplay) (cs : List CardDisplay)
    → has_text c.id (ids cs) ≡ false
    → card_before c.id (c ∷ cs) ≡ some c
unfolding card_before
first_before c cs h = rw (card_before-missing c.id cs h, ==_refl c.id) refl

All-before :
    (c : CardDisplay) (cs ds : List CardDisplay)
    → All (λ (d : CardDisplay). card_before d.id cs ≡ some d) ds
    → All (λ (d : CardDisplay). card_before d.id (c ∷ cs) ≡ some d) ds
unfolding card_before
All-before c cs [] h = tt
All-before c cs (d ∷ ds) h = (rw (h.0) refl, All-before c cs ds h.1)

each_before :
    (cs : List CardDisplay)
    → Distinct (ids cs)
    → All (λ (d : CardDisplay). card_before d.id cs ≡ some d) cs
each_before [] h = tt
each_before (c ∷ cs) h = (first_before c cs h.0, All-before c cs cs (each_before cs h.1))

unchanged_silent : (c : CardDisplay) (s : ToastSettings) → card_toasts c (some c) s ≡ []
unfolding card_toasts
unchanged_silent c s = ground arith

flat_map-silent :
    (prev cs : List CardDisplay) (s : ToastSettings)
    → All (λ (d : CardDisplay). card_before d.id prev ≡ some d) cs
    → flat_map (λ (c : CardDisplay). card_toasts c (card_before c.id prev) s) cs ≡ []
flat_map-silent prev [] s h = refl
flat_map-silent prev (c ∷ cs) s h =
    rw (h.0, unchanged_silent c s, flat_map-silent prev cs s h.1) refl

-- Where no two cards have one id: a refresh that shows the cards that were shown before tells nothing, however many of them
-- need the operator or are done.
pub compute_toasts-once :
    (prev next : DisplayState) (s : ToastSettings)
    → next.cards ≡ prev.cards
    → Distinct (ids prev.cards)
    → compute_toasts (some prev) next s ≡ []
unfolding compute_toasts
compute_toasts-once prev next s same distinct =
    rw (same, flat_map-silent prev.cards prev.cards s (each_before prev.cards distinct))
      (ground arith)
