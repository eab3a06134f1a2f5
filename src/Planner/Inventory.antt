-- ===== src/Planner/Inventory.antt =====
-- The discovery of candidates: src/planner/inventory.ts.
pub mod Laws
use status_pipe.Base.{
  String, Bool, true, false, not, Option, none, some, List, [], ◌∷◌, ◌++◌, map, ◌&&◌, keep,
  has_text, if◌then◌else◌, ◌^^◌, Dict, lookup, insert, is_some,
}
use status_pipe.Protocol.{TrustMode, DispatchKind}
use status_pipe.Protocol.Worker.{nonempty}
use status_pipe.Planner.{Candidate, PlanReport}
use status_pipe.Planner.Effects.{
  Ports, M, ◌>>=◌, ◌>>◌, pure, ask, perform, InventoryTicket, EpicSpec, find_tracking,
  create_tracking, write_header, list_epics, list_labeled,
}
use status_pipe.Planner.Trust.{passes_trust, passes_assignee_scope}

abbrev pub epic_title : String → String
epic_title name = "Epic: " ^^ name ^^ " — implementation tracking"

pub record ResolvedEpic : Type 0 where
  pub spec : EpicSpec
  pub key : String
  pub created : Bool
  pub url : Option String

pub record ResolvedTicket : Type 0 where
  pub key : String
  pub url : Option String
  pub minted : Bool

abbrev found_or_minted : Ports → String → String → Option InventoryTicket → M ResolvedTicket
found_or_minted p title label (some t) = pure (record { key = t.key; url = t.url; minted = false })
found_or_minted p title label none = do
  t ← ask p (create_tracking title label) (λ w. p.mint w title label)
  pure (record { key = t.key; url = t.url; minted = true })

unfoldable pub find_or_create_ticket : Ports → String → String → M ResolvedTicket
find_or_create_ticket p title label = do
  existing ← ask p (find_tracking title) (λ w. p.tracking w title)
  found_or_minted p title label existing

abbrev memo_or_create : Ports → String → String → Option ResolvedTicket → M ResolvedTicket
memo_or_create p title label (some t) = pure t
memo_or_create p title label none = find_or_create_ticket p title label

-- The tickets minted so far in this pass, by title.
abbrev pub Minted : Type 0
Minted = Dict ResolvedTicket

abbrev remember : String → Option ResolvedTicket → ResolvedTicket → Minted → Minted
remember title (some seen) t minted = minted
remember title none t minted = insert title t minted

abbrev minted_epic : Ports → EpicSpec → String → Minted → M (ResolvedEpic × Minted)
minted_epic p spec label minted = do
  let title = epic_title spec.title
  let seen = lookup title minted
  t ← memo_or_create p title label seen
  perform p (write_header spec.path t.key t.url) (λ _. tt) (λ w. w)
  pure (
    record { spec = spec; key = t.key; created = not (is_some seen) && t.minted; url = t.url },
    remember title seen t minted,
  )

unfoldable pub ensure_tracking_ticket :
    Ports → EpicSpec → String → Minted → M (ResolvedEpic × Minted)
ensure_tracking_ticket p spec label minted = elim (nonempty spec.tracking_ticket) [
  | some key ↦ pure (record { spec = spec; key = key; created = false; url = none }, minted)
  | none ↦ minted_epic p spec label minted
]

unfoldable pub resolve_epics : Ports → List EpicSpec → String → Minted → M (List ResolvedEpic)
resolve_epics p [] label minted = pure []
resolve_epics p (spec ∷ specs) label minted = do
  found ← ensure_tracking_ticket p spec label minted
  rest ← resolve_epics p specs label found.1
  pure (found.0 ∷ rest)

abbrev epic_candidate : ResolvedEpic → Candidate
epic_candidate r = record {
  key = r.key;
  kind = DispatchKind.epic;
  title = r.spec.title;
  url = r.url;
  epic_path = some r.spec.path;
  slug = r.spec.slug;
}

-- The candidates whose key is not among those seen, each key once.
unfoldable pub dedupe_from : List String → List Candidate → List Candidate
dedupe_from seen [] = []
dedupe_from seen (c ∷ cs) =
    let fresh = c ∷ dedupe_from (c.key ∷ seen) cs in
    let rest = dedupe_from seen cs in if has_text c.key seen then rest else fresh

abbrev pub dedupe_by_key : List Candidate → List Candidate
dedupe_by_key cs = dedupe_from [] cs

abbrev pub created_slugs : List ResolvedEpic → List String
created_slugs rs =
    map (λ (r : ResolvedEpic). r.spec.slug) (keep (λ (r : ResolvedEpic). r.created) rs)

unfoldable pub discover_epics :
    Ports → String → String → PlanReport → M (List Candidate × PlanReport)
discover_epics p dir label report = do
  specs ← ask p (list_epics dir) (λ w. p.epics w dir)
  found ← resolve_epics p specs label []
  pure (
    dedupe_by_key (map epic_candidate found),
    record report {
      created_tracking_tickets = report.created_tracking_tickets ++ created_slugs found;
    },
  )

abbrev ticket_candidate : InventoryTicket → Candidate
ticket_candidate t = record {
  key = t.key;
  kind = DispatchKind.ticket;
  title = t.title;
  url = t.url;
  epic_path = none;
  slug = "ticket-" ^^ t.key;
}

unfoldable pub discover_tickets :
    Ports → String → TrustMode → List String → List String → M (List Candidate)
discover_tickets p label mode operators scope = do
  tickets ← ask p (list_labeled label) (λ w. p.labeled w label)
  pure (
      map ticket_candidate (
        keep
          (λ (t : InventoryTicket). passes_trust t mode operators && passes_assignee_scope t scope)
          tickets))

abbrev pub keys_of : List Candidate → List String
keys_of cs = map (λ (c : Candidate). c.key) cs

unfoldable pub dedupe_candidates : List Candidate → List Candidate → List Candidate
dedupe_candidates epics tickets =
    epics ++ keep (λ (t : Candidate). not (has_text t.key (keys_of epics))) tickets
