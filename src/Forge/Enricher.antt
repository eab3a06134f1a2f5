-- ===== src/Forge/Enricher.antt =====
-- The refresh of what the forge knows: src/forge/enricher.ts. One repository's entry is a state machine: a refresh begins,
-- its pull requests arrive one by one, and it ends or fails; other events may come between, as the awaits of the source
-- let them. The answers of the forge are parts of the events.
pub mod Freezing
pub mod Repos
use status_pipe.Base.{
  ℕ, ◌+◌, ◌-◌, ◌*◌, String, Bool, true, false, not, ◌&&◌, ◌||◌, Option, none, some, List, [], ◌∷◌,
  ◌++◌, map, keep, any, eqb, leb, is_some, if◌then◌else◌, ◌^^◌, get_or, flat_map, min,
}
use status_pipe.Protocol.{PrState}
use status_pipe.Protocol.Worker.{or_else_text}
use status_pipe.Forge.{PullRequestInfo}
use status_pipe.Forge.Budget.{
  RateInfo, BackoffState, no_backoff, next_backoff, backoff_active, stretch_factor,
}
use status_pipe.Queue.{PrEnrichment, RepoEnrichment}

abbrev pub change_coalesce_ms : ℕ
change_coalesce_ms = 5000

-- `Map<number, V>`
abbrev pub NumberMap {ℓ} : Type ℓ → Type ℓ
NumberMap V = List (ℕ × V)

module _ {ℓ} {V : Type ℓ} where
  unfoldable pub find_number : ℕ → NumberMap V → Option V
  find_number n [] = none
  find_number n ((m, v) ∷ d) = if eqb m n then some v else find_number n d

  unfoldable pub put_number : ℕ → V → NumberMap V → NumberMap V
  put_number n v [] = (n, v) ∷ []
  put_number n v ((m, w) ∷ d) = if eqb m n then (m, v) ∷ d else (m, w) ∷ put_number n v d

  -- `new Map(entries)`, into a map.
  abbrev pub from_entries : NumberMap V → NumberMap V → NumberMap V
  from_entries d [] = d
  from_entries d (e ∷ es) = from_entries (put_number e.0 e.1 d) es

-- `set.has(n)`
abbrev pub has_number : ℕ → List ℕ → Bool
has_number n ns = any (λ m. eqb m n) ns

-- `[...new Set(ns)]`, given what was seen before.
abbrev pub distinct_from : List ℕ → List ℕ → List ℕ
distinct_from seen [] = []
distinct_from seen (n ∷ ns) =
    let fresh = n ∷ distinct_from (n ∷ seen) ns in
    let skipped = distinct_from seen ns in if has_number n seen then skipped else fresh

pub data Scope : Type 0 where
  all changed : Scope

-- The refresh in flight: `fetching` is true.
pub record Fetch : Type 0 where
  pub scope : Scope
  pub numbers : List ℕ

-- `coalesce` is the due time of the armed callback.
pub record RepoEntry : Type 0 where
  pub has_repository : Bool
  pub tracked : NumberMap PrState
  pub prs : NumberMap PrEnrichment
  pub viewer_login : Option String
  pub pending_changed : List ℕ
  pub coalesce : Option ℕ
  pub backoff : BackoffState
  pub rate : Option RateInfo
  pub last_refresh_at : ℕ
  pub fetching : Option Fetch
  pub last_error : Option String

abbrev pub new_entry : RepoEntry
new_entry = record {
  has_repository = false;
  tracked = [];
  prs = [];
  viewer_login = none;
  pending_changed = [];
  coalesce = none;
  backoff = no_backoff;
  rate = none;
  last_refresh_at = 0;
  fetching = none;
  last_error = none;
}

abbrev pub is_over : PrState → Bool
is_over PrState.open_pr = false
is_over _ = true

abbrev pub cached_over : Option PrEnrichment → Bool
cached_over none = false
cached_over (some p) = elim p.info [ none ↦ false | some info ↦ is_over info.state ]

abbrev worker_over : Option PrState → Bool
worker_over none = false
worker_over (some s) = is_over s

-- Merged or closed as the cache has it, or as the worker has it and cached at all.
unfoldable pub frozen : RepoEntry → ℕ → Bool
unfolding find_number
frozen e n =
    cached_over (find_number n e.prs)
    || (worker_over (find_number n e.tracked) && is_some (find_number n e.prs))

abbrev pub unfrozen : RepoEntry → List ℕ → List ℕ
unfrozen e ns = keep (λ n. not (frozen e n)) ns

unfoldable pub numbers_to_fetch : RepoEntry → Scope → List ℕ → List ℕ
unfolding frozen
numbers_to_fetch e all changed_numbers = unfrozen e (map (λ t. t.0) e.tracked)
numbers_to_fetch e changed changed_numbers =
    let missing =
      keep (λ n. not (is_some (find_number n e.prs))) (unfrozen e (map (λ t. t.0) e.tracked)) in
    distinct_from [] (unfrozen e changed_numbers ++ missing)

abbrev pub begun : Scope → List ℕ → RepoEntry → RepoEntry
begun scope [] e = e
begun scope (n ∷ ns) e = record e { fetching = some (record { scope = scope; numbers = n ∷ ns }) }

-- `refreshRepo` up to its first await.
unfoldable pub refresh_repo : ℕ → Scope → List ℕ → RepoEntry → RepoEntry
unfolding numbers_to_fetch
refresh_repo now scope changed_numbers e =
    if not e.has_repository || is_some e.fetching || backoff_active e.backoff now
    then e
    else begun scope (numbers_to_fetch e scope changed_numbers) e

-- `new Set([...pending, ...changed])`
abbrev added : List ℕ → List ℕ → List ℕ
added pending ns = pending ++ distinct_from pending ns

abbrev pub note_tickets_changed : ℕ → List ℕ → RepoEntry → RepoEntry
note_tickets_changed now ns e = record e {
  pending_changed = added e.pending_changed ns;
  coalesce = elim e.coalesce [ none ↦ some (now + change_coalesce_ms) | some due ↦ some due ];
}

abbrev pub coalesce_fires : ℕ → RepoEntry → RepoEntry
coalesce_fires now e =
    refresh_repo now changed e.pending_changed (record e { coalesce = none; pending_changed = [] })

-- One repository of `pollTick`.
abbrev pub poll_tick : ℕ → ℕ → RepoEntry → RepoEntry
poll_tick now interval_seconds e =
    if leb (interval_seconds * 1000 * stretch_factor e.rate now) (now - e.last_refresh_at)
    then refresh_repo now all [] e
    else e

-- One repository of `onFocusRegained`.
abbrev pub focus_regained : ℕ → ℕ → RepoEntry → RepoEntry
focus_regained now interval_seconds e =
    if leb (interval_seconds * 1000) (now - e.last_refresh_at) then refresh_repo now all [] e else e

-- The numbers that the refresh in flight asks for.
abbrev pub in_flight : RepoEntry → List ℕ
in_flight e = elim e.fetching [ none ↦ [] | some f ↦ f.numbers ]

-- `entry.prs.set(n, …)` of the refresh in flight.
abbrev pub pr_arrives : ℕ → PrEnrichment → RepoEntry → RepoEntry
pr_arrives n p e = if has_number n (in_flight e) then record e { prs = put_number n p e.prs } else e

abbrev refreshed_at : Scope → ℕ → ℕ → ℕ
refreshed_at all now old = now
refreshed_at changed now old = old

abbrev pub refresh_ends : ℕ → Option String → RepoEntry → RepoEntry
refresh_ends now viewer e = elim e.fetching [
  | none ↦ e
  | some f ↦ record e {
    viewer_login = or_else_text viewer e.viewer_login;
    backoff = no_backoff;
    last_error = none;
    last_refresh_at = refreshed_at f.scope now e.last_refresh_at;
    fetching = none;
  }
]

pub record ForgeFailure : Type 0 where
  pub kind : String
  pub message : String
  pub retry_after : Option ℕ

abbrev pub record_failure : ℕ → ForgeFailure → RepoEntry → RepoEntry
record_failure now err e = record e {
  backoff = next_backoff e.backoff err.retry_after now;
  last_error = some (err.kind ^^ ": " ^^ err.message);
}

abbrev pub refresh_fails : ℕ → ForgeFailure → RepoEntry → RepoEntry
refresh_fails now err e = elim e.fetching [
  | none ↦ e
  | some f ↦ record (record_failure now err e) { fetching = none }
]

-- What can happen to one repository's entry. `load` is for the start.
pub data EnricherEvent : Type 0 where
  repository_set : Bool → EnricherEvent
  rate_noted : RateInfo → EnricherEvent
  tracked_set : NumberMap PrState → EnricherEvent
  tickets_changed : List ℕ → EnricherEvent
  coalesced force focused polled : EnricherEvent
  arrives : (n : ℕ) (p : PrEnrichment) → EnricherEvent
  ends : (viewer : Option String) → EnricherEvent
  fails : ForgeFailure → EnricherEvent

unfoldable pub enricher_step : ℕ → ℕ → EnricherEvent → RepoEntry → RepoEntry
unfolding refresh_repo
enricher_step interval now (repository_set b) e = record e { has_repository = b }
enricher_step interval now (rate_noted rate) e = record e { rate = some rate }
enricher_step interval now (tracked_set prs) e = record e { tracked = from_entries [] prs }
enricher_step interval now (tickets_changed ns) e = note_tickets_changed now ns e
enricher_step interval now coalesced e =
    let fired = coalesce_fires now e in if is_some e.coalesce then fired else e
enricher_step interval now force e = refresh_repo now all [] e
enricher_step interval now focused e = focus_regained now interval e
enricher_step interval now polled e = poll_tick now interval e
enricher_step interval now (arrives n p) e = pr_arrives n p e
enricher_step interval now (ends viewer) e = refresh_ends now viewer e
enricher_step interval now (fails err) e = refresh_fails now err e

unfoldable pub enricher_run : ℕ → List (ℕ × EnricherEvent) → RepoEntry → RepoEntry
unfolding enricher_step
enricher_run interval [] e = e
enricher_run interval ((now, ev) ∷ es) e =
    enricher_run interval es (enricher_step interval now ev e)

-- `getEnrichment` of an entry.
abbrev pub enrichment_of : RepoEntry → Option RepoEnrichment
enrichment_of e = elim e.prs [
  | [] ↦ none
  | p ∷ ps ↦ some (record { prs = λ n. find_number n (p ∷ ps); viewer_login = e.viewer_login })
]
