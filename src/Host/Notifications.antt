-- ===== src/Host/Notifications.antt =====
-- The toasts: src/host/notifications.ts, a comparison of two display states that follow one another.
pub mod Laws
use status_pipe.Base.{
  ℕ, String, Bool, true, false, not, ◌&&◌, ◌||◌, Option, none, some, List, [], ◌∷◌, ◌++◌, flat_map,
  if◌then◌else◌, eqb, ◌==◌, ◌^^◌, is_empty,
}
use status_pipe.Protocol.Worker.{nonempty}
use status_pipe.Queue.{
  CardDisplay, Lane, needs_you, waiting, quiet, NeedsYouReason, launcher_failed, worker_crashed,
  stale_ack, blocked, owner, review, merge, orphaned_ci, degraded,
}
use status_pipe.Queue.Model.{DisplayState}

pub record ToastSettings : Type 0 where
  pub blocker : Bool
  pub crash_or_stale : Bool
  pub completed : Bool
  pub orphaned_ci : Bool
  pub do_not_disturb : Bool

pub data ToastKind : Type 0 where
  info warning : ToastKind

pub record Toast : Type 0 where
  pub kind : ToastKind
  pub message : String

abbrev label : CardDisplay → String
label card = elim (nonempty card.ticket) [
  | none ↦ card.title
  | some ticket ↦ card.repo_name ^^ " #" ^^ ticket
]

abbrev headline_or : String → CardDisplay → String
headline_or fallback card = if is_empty card.headline then fallback else card.headline

-- `REASON_RULES`: the text of a reason that the settings let through.
abbrev rule_text : ToastSettings → CardDisplay → NeedsYouReason → Option String
rule_text s c blocked = if s.blocker then some (headline_or "needs you" c) else none
rule_text s c owner = if s.blocker then some (headline_or "needs you" c) else none
rule_text s c worker_crashed =
    if s.crash_or_stale then some (headline_or "agent failure" c) else none
rule_text s c stale_ack = if s.crash_or_stale then some (headline_or "agent failure" c) else none
rule_text s c launcher_failed =
    if s.crash_or_stale then some (headline_or "agent failure" c) else none
rule_text s c NeedsYouReason.orphaned_ci =
    if s.orphaned_ci then some "CI failing with no worker on it" else none
rule_text s c review = none
rule_text s c merge = none
rule_text s c degraded = none

abbrev rule_of : ToastSettings → CardDisplay → Option NeedsYouReason → Option String
rule_of s c none = none
rule_of s c (some reason) = rule_text s c reason

unfoldable pub toast_for : CardDisplay → ToastSettings → List Toast
toast_for card s = elim (rule_of s card card.reason) [
  | none ↦ []
  | some line ↦ record { kind = warning; message = label card ^^ ": " ^^ line } ∷ []
]

abbrev pub is_needs_you : Lane → Bool
is_needs_you needs_you = true
is_needs_you waiting = false
is_needs_you quiet = false

abbrev pub is_quiet : Lane → Bool
is_quiet quiet = true
is_quiet needs_you = false
is_quiet waiting = false

abbrev pub reason_number : Option NeedsYouReason → ℕ
reason_number none = 0
reason_number (some launcher_failed) = 1
reason_number (some worker_crashed) = 2
reason_number (some stale_ack) = 3
reason_number (some blocked) = 4
reason_number (some owner) = 5
reason_number (some review) = 6
reason_number (some merge) = 7
reason_number (some NeedsYouReason.orphaned_ci) = 8
reason_number (some degraded) = 9

-- `before?.reason === card.reason`
abbrev pub same_reason : Option CardDisplay → CardDisplay → Bool
same_reason none card = false
same_reason (some before) card = eqb (reason_number before.reason) (reason_number card.reason)

abbrev pub was_busy : Option CardDisplay → Bool
was_busy none = false
was_busy (some before) = not (is_quiet before.lane)

unfoldable pub card_toasts : CardDisplay → Option CardDisplay → ToastSettings → List Toast
unfolding toast_for
card_toasts card before s =
    (if is_needs_you card.lane && not (same_reason before card) then toast_for card s else [])
    ++ (if s.completed && is_quiet card.lane && was_busy before
        then record { kind = info; message = label card ^^ " completed" } ∷ []
        else [])

-- `new Map(cards by id).get(id)`: the last card of this id.
unfoldable pub card_before : String → List CardDisplay → Option CardDisplay
card_before id [] = none
card_before id (c ∷ cs) =
    let later = card_before id cs in
    elim later [ none ↦ if c.id == id then some c else none | some found ↦ some found ]

abbrev pub cards_of : Option DisplayState → List CardDisplay
cards_of none = []
cards_of (some state) = state.cards

unfoldable pub compute_toasts : Option DisplayState → DisplayState → ToastSettings → List Toast
unfolding card_toasts card_before
compute_toasts prev next s =
    if s.do_not_disturb
    then []
    else flat_map (λ (c : CardDisplay). card_toasts c (card_before c.id (cards_of prev)) s)
        next.cards
