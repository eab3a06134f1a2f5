-- ===== src/Planner/Inventory/Laws.antt =====
-- The keys of the candidates of src/planner/inventory.ts.
use status_pipe.Base.{
  Option, none, some, is_some, false, if◌then◌else◌, ◌==◌, ◌≡◌, refl, String, true, not, ◌||◌, ◌&&◌,
  List, [], ◌∷◌, ◌++◌, keep, has_text, Distinct, arith, ==_iff, ==_refl,
}
use status_pipe.Planner.{Candidate}
use status_pipe.Planner.Inventory.{dedupe_from, dedupe_by_key, dedupe_candidates, keys_of}

dedupe_from-unseen :
    (seen : List String) (k : String) (cs : List Candidate)
    → has_text k (keys_of (dedupe_from seen cs))
      ≡ (not (has_text k seen) && has_text k (keys_of cs))
unfolding dedupe_from
dedupe_from-unseen seen k [] = ground arith
dedupe_from-unseen seen k (c ∷ cs) =
    ground
      (arith, dedupe_from-unseen seen k cs, dedupe_from-unseen (c.key ∷ seen) k cs, ==_iff k c.key)

dedupe_from-Distinct :
    (seen : List String) (cs : List Candidate) → Distinct (keys_of (dedupe_from seen cs))
unfolding dedupe_from
dedupe_from-Distinct seen [] = tt
dedupe_from-Distinct seen (c ∷ cs) = ground (
  arith,
  dedupe_from-Distinct seen cs,
  dedupe_from-Distinct (c.key ∷ seen) cs,
  dedupe_from-unseen (c.key ∷ seen) c.key cs,
  ==_refl c.key,
)

keep-unseen :
    (k : String) (seen : List String) (ts : List Candidate)
    → has_text k (keys_of (keep (λ (t : Candidate). not (has_text t.key seen)) ts))
      ≡ (not (has_text k seen) && has_text k (keys_of ts))
keep-unseen k seen [] = ground arith
keep-unseen k seen (t ∷ ts) = ground (arith, keep-unseen k seen ts, ==_iff k t.key)

keep-Distinct :
    (seen : List String) (ts : List Candidate)
    → Distinct (keys_of ts)
    → Distinct (keys_of (keep (λ (t : Candidate). not (has_text t.key seen)) ts))
keep-Distinct seen [] d = tt
keep-Distinct seen (t ∷ ts) d = ground (arith, keep-Distinct seen ts d.1, keep-unseen t.key seen ts)

keys_of-append :
    (k : String) (xs ys : List Candidate)
    → has_text k (keys_of (xs ++ ys)) ≡ (has_text k (keys_of xs) || has_text k (keys_of ys))
keys_of-append k [] ys = refl
keys_of-append k (x ∷ xs) ys = ground (arith, keys_of-append k xs ys)

merge-Distinct :
    (seen : List String) (es ts : List Candidate)
    → Distinct (keys_of es)
    → Distinct (keys_of ts)
    → ((k : String) → has_text k (keys_of es) ≡ true → has_text k seen ≡ true)
    → Distinct (keys_of (es ++ keep (λ (t : Candidate). not (has_text t.key seen)) ts))
merge-Distinct seen [] ts d f h = keep-Distinct seen ts f
merge-Distinct seen (e ∷ es) ts d f h = (
  ground (
    arith,
    d.0,
    h e.key,
    ==_refl e.key,
    keep-unseen e.key seen ts,
    keys_of-append e.key es (keep (λ (t : Candidate). not (has_text t.key seen)) ts),
  ),
  merge-Distinct seen es ts d.1 f (λ k m. h k (ground (arith, m))),
)

-- The candidate that stands first under this key.
abbrev pub candidate_of : String → List Candidate → Option Candidate
candidate_of k [] = none
candidate_of k (c ∷ cs) = let rest = candidate_of k cs in if c.key == k then some c else rest

abbrev pub first_or : Option Candidate → Option Candidate → Option Candidate
first_or none d = d
first_or (some c) d = some c

candidate_of-missing :
    (k : String) (cs : List Candidate) → has_text k (keys_of cs) ≡ is_some (candidate_of k cs)
candidate_of-missing k [] = refl
candidate_of-missing k (c ∷ cs) =
    ground (arith, candidate_of-missing k cs, ==_iff k c.key, ==_iff c.key k)

candidate_of-dedupe_from :
    (seen : List String) (k : String) (cs : List Candidate)
    → has_text k seen ≡ false
    → candidate_of k (dedupe_from seen cs) ≡ candidate_of k cs
unfolding dedupe_from
candidate_of-dedupe_from seen k [] h = refl
candidate_of-dedupe_from seen k (c ∷ cs) h = ground (
  arith,
  candidate_of-dedupe_from seen k cs h,
  candidate_of-dedupe_from (c.key ∷ seen) k cs,
  ==_iff k c.key,
  ==_iff c.key k,
)

candidate_of-append :
    (k : String) (xs ys : List Candidate)
    → candidate_of k (xs ++ ys) ≡ first_or (candidate_of k xs) (candidate_of k ys)
candidate_of-append k [] ys = refl
candidate_of-append k (x ∷ xs) ys = ground (arith, candidate_of-append k xs ys)

candidate_of-keep :
    (k : String) (seen : List String) (ts : List Candidate)
    → has_text k seen ≡ false
    → candidate_of k (keep (λ (t : Candidate). not (has_text t.key seen)) ts) ≡ candidate_of k ts
candidate_of-keep k seen [] h = refl
candidate_of-keep k seen (t ∷ ts) h =
    ground (arith, candidate_of-keep k seen ts h, ==_iff k t.key, ==_iff t.key k)

-- The candidate under a key is that of the epics, and only where there is none that of the tickets.
epics_shadow :
    (epics tickets : List Candidate) (k : String)
    → candidate_of k (dedupe_candidates (dedupe_by_key epics) tickets)
      ≡ first_or (candidate_of k epics) (candidate_of k tickets)
unfolding dedupe_candidates
epics_shadow epics tickets k =
    let es = dedupe_by_key epics in
    ground (
      arith,
      candidate_of-append k es
          (keep (λ (t : Candidate). not (has_text t.key (keys_of es))) tickets),
      candidate_of-dedupe_from [] k epics refl,
      candidate_of-missing k es,
      candidate_of-keep k (keys_of es) tickets,
    )

-- The candidates of a pass, for tickets that the forge lists once each: no key stands twice, so a tracking ticket that
-- carries the label stands there once; it stands there as its epic, since the candidate under a key is that of the epics
-- where there is one and else that of the tickets; and the keys are those of the epics and of the tickets.
pub candidates-Distinct :
    (epics tickets : List Candidate) (k : String)
    → Distinct (keys_of tickets)
    → Distinct (keys_of (dedupe_candidates (dedupe_by_key epics) tickets))
      × (has_text k (keys_of (dedupe_candidates (dedupe_by_key epics) tickets))
          ≡ (has_text k (keys_of epics) || has_text k (keys_of tickets)))
      × (candidate_of k (dedupe_candidates (dedupe_by_key epics) tickets)
          ≡ first_or (candidate_of k epics) (candidate_of k tickets))
unfolding dedupe_candidates
candidates-Distinct epics tickets k d = (
  merge-Distinct (keys_of (dedupe_by_key epics)) (dedupe_by_key epics) tickets
      (dedupe_from-Distinct [] epics) d (λ k h. h),
  ground (
    arith,
    dedupe_from-unseen [] k epics,
    keep-unseen k (keys_of (dedupe_by_key epics)) tickets,
    keys_of-append k (dedupe_by_key epics)
        (keep (λ (t : Candidate). not (has_text t.key (keys_of (dedupe_by_key epics)))) tickets),
  ),
  epics_shadow epics tickets k,
)
