-- ===== src/Forge/Enricher/Freezing.antt =====
-- A merged or closed pull request is not asked for again: src/forge/enricher.ts.
use status_pipe.Base.{
  ℕ, String, ◌≡◌, refl, ap, ◌∙◌, Bool, true, false, not, ◌||◌, Option, none, some, List, [], ◌∷◌,
  ◌++◌, map, keep, eqb, leb, is_some, if-intro, arith, Option-cases, Bool-cases, inl, inr, ◌*◌, ◌-◌,
}
use status_pipe.Queue.{PrEnrichment}
use status_pipe.Forge.Budget.{backoff_active, stretch_factor}
use status_pipe.Forge.Enricher.{
  RepoEntry, Scope, all, changed, EnricherEvent, repository_set, rate_noted, tracked_set,
  tickets_changed, coalesced, force, focused, polled, arrives, ends, fails, enricher_step,
  enricher_run, find_number, put_number, has_number, distinct_from, frozen, unfrozen, cached_over,
  numbers_to_fetch, begun, refresh_repo, pr_arrives, refresh_ends, refresh_fails, in_flight,
  ForgeFailure,
}

-- The entry caches this for the number, and is not asking for it.
pub record Holds (n : ℕ) (p : PrEnrichment) (e : RepoEntry) : Type 0 where
  pub cached : find_number n e.prs ≡ some p
  pub idle : has_number n (in_flight e) ≡ false

has-keep : (f : ℕ → Bool) (n : ℕ) (ns : List ℕ) → f n ≡ false → has_number n (keep f ns) ≡ false
has-keep f n [] h = refl
has-keep f n (m ∷ ns) h = elim (Bool-cases (eqb m n)) [
  | inl same ↦ let mn : m ≡ n = ground arith in rw (ap f mn ∙ h) (has-keep f n ns h)
  | inr other ↦ ground (arith, has-keep f n ns h)
]

-- Also of a list that was filtered.
has-keep_sub :
    (f : ℕ → Bool) (n : ℕ) (ns : List ℕ)
    → has_number n ns ≡ false
    → has_number n (keep f ns) ≡ false
has-keep_sub f n [] h = refl
has-keep_sub f n (m ∷ ns) h = ground (arith, has-keep_sub f n ns)

has-distinct_from :
    (n : ℕ) (seen ns : List ℕ)
    → has_number n ns ≡ false
    → has_number n (distinct_from seen ns) ≡ false
has-distinct_from n seen [] h = refl
has-distinct_from n seen (m ∷ ns) h =
    ground (arith, has-distinct_from n seen ns, has-distinct_from n (m ∷ seen) ns)

has-append :
    (n : ℕ) (xs ys : List ℕ)
    → has_number n xs ≡ false
    → has_number n ys ≡ false
    → has_number n (xs ++ ys) ≡ false
has-append n [] ys h k = k
has-append n (x ∷ xs) ys h k = ground (arith, has-append n xs ys)

find-put_other :
    (n m : ℕ) (p : PrEnrichment) (d : List (ℕ × PrEnrichment))
    → eqb m n ≡ false
    → find_number n (put_number m p d) ≡ find_number n d
unfolding find_number put_number
find-put_other n m p [] h = ground arith
find-put_other n m p (e ∷ d) h = ground (arith, find-put_other n m p d h)

has-apart :
    (n m : ℕ) (ns : List ℕ) → has_number n ns ≡ false → has_number m ns ≡ true → eqb m n ≡ false
has-apart n m [] h k = absurd (cc k)
has-apart n m (x ∷ ns) h k = ground (arith, has-apart n m ns)

module _ (n : ℕ) (p : PrEnrichment) (over : cached_over (some p) ≡ true) where
  frozen-cached : (e : RepoEntry) → find_number n e.prs ≡ some p → frozen e n ≡ true
  unfolding frozen
  frozen-cached e h = rw (h, frozen, over)

  numbers-without :
      (e : RepoEntry) (scope : Scope) (ns : List ℕ)
      → find_number n e.prs ≡ some p
      → has_number n (numbers_to_fetch e scope ns) ≡ false
  unfolding numbers_to_fetch
  numbers-without e all ns h =
      has-keep (λ m. not (frozen e m)) n (map (λ t. t.0) e.tracked) (ap not (frozen-cached e h))
  numbers-without e changed ns h =
      let cold = ap not (frozen-cached e h) in
      has-distinct_from n [] _ (
        has-append n (unfrozen e ns) _ (has-keep (λ m. not (frozen e m)) n ns cold) (
          has-keep_sub (λ m. not (is_some (find_number m e.prs))) n
            (unfrozen e (map (λ t. t.0) e.tracked))
            (has-keep (λ m. not (frozen e m)) n (map (λ t. t.0) e.tracked) cold)))

  begun-Holds :
      (scope : Scope) (ns : List ℕ) (e : RepoEntry)
      → Holds n p e
      → has_number n ns ≡ false
      → Holds n p (begun scope ns e)
  begun-Holds scope [] e h k = h
  begun-Holds scope (m ∷ ns) e h k = record { cached = h.cached; idle = k }

  refresh-Holds :
      (now : ℕ) (scope : Scope) (ns : List ℕ) (e : RepoEntry)
      → Holds n p e
      → Holds n p (refresh_repo now scope ns e)
  unfolding refresh_repo
  refresh-Holds now scope ns e h =
      if-intro (Holds n p)
        (not e.has_repository || is_some e.fetching || backoff_active e.backoff now) (λ _. h)
        (λ _.
          begun-Holds scope (numbers_to_fetch e scope ns) e h (numbers-without e scope ns h.cached))

  arrives-Holds :
      (m : ℕ) (q : PrEnrichment) (e : RepoEntry) → Holds n p e → Holds n p (pr_arrives m q e)
  arrives-Holds m q e h =
      if-intro (Holds n p) (has_number m (in_flight e))
        (λ asked. record {
          cached = find-put_other n m q e.prs (has-apart n m (in_flight e) h.idle asked) ∙ h.cached;
          idle = h.idle;
        })
        (λ _. h)

  ends-Holds :
      (now : ℕ) (viewer : Option String) (e : RepoEntry)
      → Holds n p e
      → Holds n p (refresh_ends now viewer e)
  ends-Holds now viewer e h = elim (Option-cases e.fetching) [
    | inl none_there ↦ rw (none_there, refresh_ends) h
    | inr (f, there) ↦ rw (there, refresh_ends) (record { cached = h.cached; idle = refl })
  ]

  fails-Holds :
      (now : ℕ) (err : ForgeFailure) (e : RepoEntry)
      → Holds n p e
      → Holds n p (refresh_fails now err e)
  fails-Holds now err e h = elim (Option-cases e.fetching) [
    | inl none_there ↦ rw (none_there, refresh_fails) h
    | inr (f, there) ↦ rw (there, refresh_fails) (record { cached = h.cached; idle = refl })
  ]

  step-Holds :
      (interval now : ℕ) (ev : EnricherEvent) (e : RepoEntry)
      → Holds n p e
      → Holds n p (enricher_step interval now ev e)
  unfolding enricher_step
  step-Holds interval now (repository_set b) e h = record { cached = h.cached; idle = h.idle }
  step-Holds interval now (rate_noted rate) e h = record { cached = h.cached; idle = h.idle }
  step-Holds interval now (tracked_set prs) e h = record { cached = h.cached; idle = h.idle }
  step-Holds interval now (tickets_changed ns) e h = record { cached = h.cached; idle = h.idle }
  step-Holds interval now coalesced e h =
      if-intro (Holds n p) (is_some e.coalesce)
        (λ _.
          refresh-Holds now changed e.pending_changed
            (record e { coalesce = none; pending_changed = [] })
            (record { cached = h.cached; idle = h.idle }))
        (λ _. h)
  step-Holds interval now force e h = refresh-Holds now all [] e h
  step-Holds interval now focused e h =
      if-intro (Holds n p) (leb (interval * 1000) (now - e.last_refresh_at))
        (λ _. refresh-Holds now all [] e h) (λ _. h)
  step-Holds interval now polled e h =
      if-intro (Holds n p)
        (leb (interval * 1000 * stretch_factor e.rate now) (now - e.last_refresh_at))
        (λ _. refresh-Holds now all [] e h) (λ _. h)
  step-Holds interval now (arrives m q) e h = arrives-Holds m q e h
  step-Holds interval now (ends viewer) e h = ends-Holds now viewer e h
  step-Holds interval now (fails err) e h = fails-Holds now err e h

-- Once a merged or closed pull request is cached and no refresh asks for it, then whatever happens its cached data stays
-- as it is and no refresh asks for it again.
pub enricher_run-freezes :
    (n : ℕ) (p : PrEnrichment)
    → cached_over (some p) ≡ true
    → (interval : ℕ) (es : List (ℕ × EnricherEvent)) (e : RepoEntry) → Holds n p e
    → Holds n p (enricher_run interval es e)
unfolding enricher_run
enricher_run-freezes n p over interval [] e h = h
enricher_run-freezes n p over interval ((now, ev) ∷ es) e h =
    enricher_run-freezes n p over interval es (enricher_step interval now ev e)
      (step-Holds n p over interval now ev e h)
