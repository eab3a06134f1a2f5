-- ===== src/Queue/Model/Laws.antt =====
-- What the display state guarantees about the cards and the launcher rows.
use mathlib.Core.List.{
  Mem, Perm, mem-append_left, mem-map_of_mem, mem-cons, mem-append_right, not-mem-nil,
}
use mathlib.Core.List.Perm
use mathlib.Core.Logic.Or
use status_pipe.Base.{
  ◌⊎◌, ℕ, zero, suc, String, ◌<◌, inl, inr, ap, sym, subst, ◌∙◌, if◌then◌else◌, ◌+◌, ◌≤◌, Option,
  none, some, is_gt, compare, Ordering, false, List, [], ◌∷◌, ◌≡◌, refl, ◌&&◌, not, arith, keep,
  flat_map, sort-perm, length, All, All-append, All-map, All-intro,
}
use status_pipe.Base.Platform.{Platform}
use status_pipe.Base.Order.{
  IsOrdered, IsSorted-IsOrdered, IsOrder, sort-IsSorted, lexical, by_key, compare_ℤ, negate, ℤ, pos,
  by_codepoint, All-sort, lexical-IsOrder, by_key-IsOrder, compare-IsOrder, compare_ℤ-IsOrder,
  by_codepoint-IsOrder,
}
use status_pipe.Queue.{
  WaitingDisplay, Lane, needs_you, waiting, quiet, RepoState, TicketEntry, QueueModelInput,
  AgentProcessState, CardDisplay,
}
use status_pipe.Queue.Cards.{
  entry_card, repo_cards, launcher_card, ticket_card_for, degraded_card, is_quiet_lane,
  derive_ticket,
}
use status_pipe.Queue.Model.{
  build_display_state, sort_cards, card_order, all_cards, count_lanes, lane_order, age_key,
  ticket_text, since_of, max_safe_integer,
}

card_order-IsOrder : (os : Platform) → IsOrder (card_order os)
card_order-IsOrder os = lexical-IsOrder (by_key-IsOrder (λ c. lane_order c.lane) compare-IsOrder) (
    lexical-IsOrder (by_key-IsOrder (λ c. c.priority_rank) compare-IsOrder) (
      lexical-IsOrder (by_key-IsOrder (age_key os) compare_ℤ-IsOrder) (
        lexical-IsOrder (by_key-IsOrder (λ c. c.repo_name) by_codepoint-IsOrder)
          (by_key-IsOrder ticket_text by_codepoint-IsOrder))))

-- Of two readable times, the earlier one first; in QUIET the later one.
abbrev AgeFits : Lane → Option ℕ → Option ℕ → Type 0
AgeFits quiet (some s) (some t) = t ≤ s
AgeFits needs_you (some s) (some t) = s ≤ t
AgeFits waiting (some s) (some t) = s ≤ t
AgeFits lane _ _ = Unit {0}

-- NEEDS YOU before WAITING before QUIET; within a lane what is said of the two.
abbrev LaneFits : Lane → Lane → Type 0 → Type 0
LaneFits needs_you needs_you within = within
LaneFits needs_you _ within = Unit {0}
LaneFits waiting needs_you within = ⊥
LaneFits waiting waiting within = within
LaneFits waiting quiet within = Unit {0}
LaneFits quiet quiet within = within
LaneFits quiet _ within = ⊥

-- The time that the age of a card is counted from: that of its wait, or else of its last update.
abbrev counted_from : Platform → CardDisplay → Option ℕ
counted_from os c = elim c.waiting [
  | none ↦ os.date_parse c.updated_at
  | some w ↦ os.date_parse w.since
]

-- One card may stand above another: by the lane, then by the rank, then by the age.
abbrev pub StandsAbove : Platform → CardDisplay → CardDisplay → Type 0
StandsAbove os a b = LaneFits a.lane b.lane (
    (a.priority_rank < b.priority_rank)
    ⊎ ((a.priority_rank ≡ b.priority_rank)
        × AgeFits a.lane (counted_from os a) (counted_from os b)))

lexical-gt :
    {A : Type 0} (c d : A → A → Ordering) (x y : A)
    → is_gt (lexical c d x y) ≡ false
    → (is_gt (c x y) ≡ false) × (c x y ≡ Ordering.eq → is_gt (d x y) ≡ false)
lexical-gt c d x y h = ground (arith, h)

ranks_lem :
    (m n : ℕ) → is_gt (compare m n) ≡ false → (m < n) ⊎ ((m ≡ n) × (compare m n ≡ Ordering.eq))
ranks_lem m n h = ground (arith, h)

-- The key of the age, of a lane and a time.
abbrev keyed : Lane → Option ℕ → ℤ
keyed lane none = pos max_safe_integer
keyed quiet (some ms) = negate ms
keyed needs_you (some ms) = pos ms
keyed waiting (some ms) = pos ms

time_key :
    (lane : Lane) (time : Option ℕ)
    → (elim time [
      | none ↦ pos max_safe_integer
      | some ms ↦ if is_quiet_lane lane then negate ms else pos ms
    ])
      ≡ keyed lane time
time_key lane none = refl
time_key quiet (some ms) = refl
time_key needs_you (some ms) = refl
time_key waiting (some ms) = refl

since_lem :
    (os : Platform) (w : Option WaitingDisplay) (updated_at : String)
    → os.date_parse (since_of w updated_at)
      ≡ (elim w [ none ↦ os.date_parse updated_at | some d ↦ os.date_parse d.since ])
since_lem os none updated_at = refl
since_lem os (some w) updated_at = refl

age_key-keyed : (os : Platform) (c : CardDisplay) → age_key os c ≡ keyed c.lane (counted_from os c)
unfolding age_key
age_key-keyed os c = time_key c.lane _ ∙ ap (keyed c.lane) (since_lem os c.waiting c.updated_at)

fits_lem :
    (lane : Lane) (s t : Option ℕ)
    → is_gt (compare_ℤ (keyed lane s) (keyed lane t)) ≡ false
    → AgeFits lane s t
unfolding compare_ℤ
fits_lem quiet (some zero) (some zero) h = ground arith
fits_lem quiet (some (suc s)) (some zero) h = ground arith
fits_lem quiet (some zero) (some (suc t)) h = absurd (cc)
fits_lem quiet (some (suc s)) (some (suc t)) h = ground (arith, h)
fits_lem quiet none t h = tt
fits_lem quiet (some s) none h = tt
fits_lem needs_you (some s) (some t) h = ground (arith, h)
fits_lem needs_you none t h = tt
fits_lem needs_you (some s) none h = tt
fits_lem waiting (some s) (some t) h = ground (arith, h)
fits_lem waiting none t h = tt
fits_lem waiting (some s) none h = tt

within_lem :
    (os : Platform) (a b : CardDisplay) (rest : CardDisplay → CardDisplay → Ordering)
    → a.lane ≡ b.lane
    → is_gt (
        lexical
          (by_key compare (λ c. c.priority_rank))
          (lexical (by_key compare_ℤ (age_key os)) rest)
          a
          b)
      ≡ false
    → (a.priority_rank < b.priority_rank)
      ⊎ ((a.priority_rank ≡ b.priority_rank)
          × AgeFits a.lane (counted_from os a) (counted_from os b))
within_lem os a b rest same h =
    let ranked =
      lexical-gt (by_key compare (λ (c : CardDisplay). c.priority_rank))
        (lexical (by_key compare_ℤ (age_key os)) rest) a b h in
    let age = lexical-gt (by_key compare_ℤ (age_key os)) rest a b in
    elim (ranks_lem a.priority_rank b.priority_rank ranked.0) [
      | inl below ↦ inl below
      | inr (e, tie) ↦ inr (
        e,
        fits_lem a.lane (counted_from os a) (counted_from os b) (
            subst (λ k. is_gt (compare_ℤ (keyed a.lane (counted_from os a)) k) ≡ false)
              (age_key-keyed os b ∙ ap (λ l. keyed l (counted_from os b)) (sym same))
              (subst (λ k. is_gt (compare_ℤ k (age_key os b)) ≡ false) (age_key-keyed os a)
                (age (ranked.1 tie)).0)),
      )
    ]

lanes_lem :
    (l m : Lane) (within : Type 0)
    → is_gt (compare (lane_order l) (lane_order m)) ≡ false
    → (compare (lane_order l) (lane_order m) ≡ Ordering.eq → l ≡ m → within)
    → LaneFits l m within
lanes_lem needs_you needs_you within h k = k refl refl
lanes_lem needs_you waiting within h k = tt
lanes_lem needs_you quiet within h k = tt
lanes_lem waiting needs_you within h k = absurd (cc)
lanes_lem waiting waiting within h k = k refl refl
lanes_lem waiting quiet within h k = tt
lanes_lem quiet needs_you within h k = absurd (cc)
lanes_lem quiet waiting within h k = absurd (cc)
lanes_lem quiet quiet within h k = k refl refl

card_order-StandsAbove :
    (os : Platform) (a b : CardDisplay) → is_gt (card_order os a b) ≡ false → StandsAbove os a b
card_order-StandsAbove os a b h =
    let rest =
      lexical (by_key by_codepoint (λ (c : CardDisplay). c.repo_name))
        (by_key by_codepoint ticket_text) in
    let split =
      lexical-gt (by_key compare (λ (c : CardDisplay). lane_order c.lane))
        (lexical (by_key compare (λ (c : CardDisplay). c.priority_rank))
          (lexical (by_key compare_ℤ (age_key os)) rest))
        a b h in
    lanes_lem a.lane b.lane _ split.0 (λ tie same. within_lem os a b rest same (split.1 tie))

-- The cards stand in the order of lane, rank and age, the oldest first and in QUIET the latest, and are, each as often, those of
-- the ticket files and of the failed launchers: none is dropped and none is made up.
pub cards-IsOrdered-perm :
    (os : Platform) (input : QueueModelInput)
    → IsOrdered (StandsAbove os) (build_display_state os input).cards
      × Perm (build_display_state os input).cards (all_cards os input)
unfolding build_display_state sort_cards
cards-IsOrdered-perm os input = (
  IsSorted-IsOrdered (StandsAbove os) (card_order os) (card_order-StandsAbove os) _
      (sort-IsSorted (card_order-IsOrder os) _),
  sort-perm (card_order os) _,
)

-- Only a card of the lane QUIET is hidden by default.
abbrev pub HidesQuiet : CardDisplay → Type 0
HidesQuiet c = (c.hidden_by_default && not (is_quiet_lane c.lane)) ≡ false

entry_card-HidesQuiet :
    (os : Platform) (repo : RepoState) (input : QueueModelInput) (e : TicketEntry)
    → HidesQuiet (entry_card os repo input e)
unfolding entry_card ticket_card_for degraded_card derive_ticket
entry_card-HidesQuiet os repo input e = ground arith

launcher_card-HidesQuiet :
    (os : Platform) (a : AgentProcessState) (input : QueueModelInput)
    → HidesQuiet (launcher_card os a input)
unfolding launcher_card
launcher_card-HidesQuiet os a input = refl

module _ (os : Platform) (input : QueueModelInput) where
  repos-HidesQuiet :
      (repos : List RepoState) → All HidesQuiet (flat_map (λ repo. repo_cards os repo input) repos)
  unfolding repo_cards
  repos-HidesQuiet [] = tt
  repos-HidesQuiet (r ∷ rs) =
      All-append HidesQuiet _ _
        (All-map HidesQuiet (entry_card os r input) r.tickets
          (All-intro _ (entry_card-HidesQuiet os r input) _))
        (repos-HidesQuiet rs)

  all_cards-HidesQuiet : All HidesQuiet (all_cards os input)
  all_cards-HidesQuiet = All-append HidesQuiet _ _ (repos-HidesQuiet input.repos) (
      All-map HidesQuiet (λ a. launcher_card os a input) _
        (All-intro _ (λ a. launcher_card-HidesQuiet os a input) _))

abbrev pub hidden_cards : List CardDisplay → ℕ
hidden_cards cards = length (keep (λ (c : CardDisplay). c.hidden_by_default) cards)

counts_add_up :
    (cards : List CardDisplay)
    → All HidesQuiet cards
    → let n = count_lanes cards in
      n.needs_you + n.waiting + n.quiet + hidden_cards cards ≡ length cards
unfolding count_lanes
counts_add_up [] h = omega arith
counts_add_up (c ∷ cards) h = ground (arith, counts_add_up cards h.1, h.0)

-- The three counts and the cards hidden by default add up to all cards, and no card outside QUIET is hidden.
pub counts-total :
    (os : Platform) (input : QueueModelInput)
    → let s = build_display_state os input in
      (s.counts.needs_you + s.counts.waiting + s.counts.quiet + hidden_cards s.cards
        ≡ length s.cards)
      × All HidesQuiet s.cards
unfolding build_display_state sort_cards
counts-total os input =
    let h =
      All-sort HidesQuiet (card_order os) (all_cards os input) (all_cards-HidesQuiet os input) in
    (counts_add_up _ h, h)

mem-flat_map {ℓ κ} :
    {A : Type ℓ} {B : Type κ} (a : A) (b : B) (f : A → List B) (xs : List A)
    → Mem a xs
    → Mem b (f a)
    → Mem b (flat_map f xs)
mem-flat_map a b f [] m h = absurd (not-mem-nil m)
mem-flat_map {B} a b f (x ∷ xs) m h =
    Or.elim squash₁ (mem-cons.0 m) (λ e. mem-append_left _ (subst (λ y. Mem b (f y)) e h))
      (λ later. mem-append_right (f x) (mem-flat_map a b f xs later h))

-- The card of every ticket file of every repository is among the cards shown, whether the file parses or not.
pub entry_card-shown :
    (os : Platform) (input : QueueModelInput) (repo : RepoState) (e : TicketEntry)
    → Mem repo input.repos
    → Mem e repo.tickets
    → Mem (entry_card os repo input e) (build_display_state os input).cards
unfolding build_display_state sort_cards repo_cards
entry_card-shown os input repo e r m =
    (Perm.mem_iff (sort-perm (card_order os) (all_cards os input))).1 (
      mem-append_left _
        (mem-flat_map repo (entry_card os repo input e) _ input.repos r (mem-map_of_mem _ m)))
