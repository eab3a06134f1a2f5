-- ===== src/Forge/Enricher/Repos.antt =====
-- All repositories, the poll and the display of the refresh: the class ForgeEnricher of src/forge/enricher.ts.
use status_pipe.Base.{
  ℕ, ◌+◌, ◌-◌, ◌*◌, min, String, Bool, true, false, Option, none, some, List, [], ◌∷◌, Dict, lookup,
  insert, map, any, flat_map, is_some, ◌||◌, if◌then◌else◌, ◌^^◌, get_or, find,
}
use status_pipe.Base.Platform.{Platform}
use status_pipe.Queue.{PrEnrichment, RepoEnrichment}
use status_pipe.Forge.Budget.{backoff_active}
use status_pipe.Forge.Enricher.{
  EnricherEvent, NumberMap, RepoEntry, all, enricher_step, enrichment_of, focus_regained, new_entry,
  poll_tick, refresh_repo,
}

-- `poll` is the due time of the armed poll.
pub record ForgeEnricher : Type 0 where
  pub repos : Dict RepoEntry
  pub visible : Bool
  pub poll : Option ℕ
  pub refresh_interval_seconds : ℕ

abbrev pub entry_of : String → ForgeEnricher → RepoEntry
entry_of root s = get_or (lookup root s.repos) new_entry

-- An event of one repository, whose entry is made if it is not there.
abbrev pub at_repo : String → ℕ → EnricherEvent → ForgeEnricher → ForgeEnricher
at_repo root now ev s = record s {
  repos = insert root (enricher_step s.refresh_interval_seconds now ev (entry_of root s)) s.repos;
}

abbrev each_entry : (RepoEntry → RepoEntry) → ForgeEnricher → ForgeEnricher
each_entry f s = record s { repos = map (λ e. (e.0, f e.1)) s.repos }

abbrev pub get_enrichment : String → ForgeEnricher → Option RepoEnrichment
get_enrichment root s = elim (lookup root s.repos) [ none ↦ none | some e ↦ enrichment_of e ]

abbrev schedule_poll : ℕ → ForgeEnricher → ForgeEnricher
schedule_poll now s = record s { poll = some (now + s.refresh_interval_seconds * 1000) }

abbrev pub set_visible : ℕ → Bool → ForgeEnricher → ForgeEnricher
set_visible now false s = record s { visible = false; poll = none }
set_visible now true s =
    let seen = record s { visible = true } in
    if is_some s.poll then seen else schedule_poll now seen

-- The poll fires, where armed.
abbrev pub poll_fires : ℕ → ForgeEnricher → ForgeEnricher
poll_fires now s =
    let fired = record s { poll = none } in
    if is_some s.poll
    then if s.visible
      then schedule_poll now (each_entry (poll_tick now s.refresh_interval_seconds) fired)
      else fired
    else s

abbrev pub on_focus_regained : ℕ → ForgeEnricher → ForgeEnricher
on_focus_regained now s = each_entry (focus_regained now s.refresh_interval_seconds) s

-- `repoRoot` may be left out or empty.
abbrev pub force_refresh : ℕ → Option String → ForgeEnricher → ForgeEnricher
force_refresh now none s = each_entry (refresh_repo now all []) s
force_refresh now (some String.[]) s = each_entry (refresh_repo now all []) s
force_refresh now (some (String.◌∷◌ c root)) s = record s {
  repos =
      insert (String.◌∷◌ c root) (refresh_repo now all [] (entry_of (String.◌∷◌ c root) s)) s.repos;
}

pub data ActivityState : Type 0 where
  idle refreshing degraded : ActivityState

pub record ActivityDisplay : Type 0 where
  pub state : ActivityState
  pub detail : Option String
  pub oldest_data_age_ms : Option ℕ

abbrev is_degraded : ℕ → RepoEntry → Bool
is_degraded now e = is_some e.last_error || backoff_active e.backoff now

abbrev retry_text : Platform → Option ℕ → String
retry_text os none = ""
retry_text os (some until) = " — retrying after " ^^ os.to_iso until

abbrev pub degraded_detail : Platform → RepoEntry → String
degraded_detail os e =
    get_or e.last_error "throttled to protect rate budget" ^^ retry_text os e.backoff.until

abbrev least : ℕ → List ℕ → ℕ
least m [] = m
least m (n ∷ ns) = least (min m n) ns

abbrev age_of : ℕ → List ℕ → Option ℕ
age_of now [] = none
age_of now (n ∷ ns) = some (now - least n ns)

abbrev pub oldest_data_age_ms : ℕ → ForgeEnricher → Option ℕ
oldest_data_age_ms now s = age_of now (flat_map (λ e. map (λ p. p.1.fetched_at) e.1.prs) s.repos)

unfoldable pub activity : Platform → ℕ → ForgeEnricher → ActivityDisplay
activity os now s =
    let age = oldest_data_age_ms now s in
    let entries = map (λ e. e.1) s.repos in
    if any (λ e. is_some e.fetching) entries
    then record { state = refreshing; detail = none; oldest_data_age_ms = age }
    else elim (find (is_degraded now) entries) [
      | none ↦ record { state = idle; detail = none; oldest_data_age_ms = age }
      | some e ↦ record {
        state = degraded;
        detail = some (degraded_detail os e);
        oldest_data_age_ms = age;
      }
    ]

pub record PersistedEnrichment : Type 0 where
  pub prs : NumberMap PrEnrichment
  pub viewer_login : Option String

abbrev pub serialize : ForgeEnricher → Dict PersistedEnrichment
serialize s = map (λ e. (e.0, record { prs = e.1.prs; viewer_login = e.1.viewer_login })) s.repos

unfoldable pub load : Dict PersistedEnrichment → ForgeEnricher → ForgeEnricher
load [] s = s
load (d ∷ ds) s = load ds (record s {
  repos =
      insert d.0 (record (entry_of d.0 s) { prs = d.1.prs; viewer_login = d.1.viewer_login })
        s.repos;
})
