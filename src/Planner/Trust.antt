-- ===== src/Planner/Trust.antt =====
-- The trust gate and the visibility of tickets: src/planner/trust.ts.
use status_pipe.Base.{
  String, Bool, true, false, Option, none, some, List, [], ◌∷◌, ◌||◌, any, has_text,
}
use status_pipe.Protocol.{TrustMode, single_maintainer, multi_maintainer, public}
use status_pipe.Protocol.Worker.{nonempty}
use status_pipe.Planner.{TrustResolution, trusted, refused}
use status_pipe.Planner.Effects.{InventoryTicket, Visibility, public_repo, private_repo}

pub record TrustFacts : Type 0 where
  pub visibility : Visibility
  pub viewer_login : Option String
  pub trust_mode : Option TrustMode
  pub trust_operators : List String

abbrev pub public_refusal : String
public_refusal =
    "public repo without a declared trust mode — declare trust.mode and trust.operators in .status-pipe/config.json"

abbrev pub private_refusal : String
private_refusal = "private repo without a declared trust mode and no resolvable operator identity"

abbrev default_trust : Visibility → Option String → TrustResolution
default_trust public_repo viewer = refused public_refusal
default_trust private_repo none = refused private_refusal
default_trust private_repo (some viewer) = trusted single_maintainer (viewer ∷ [])

unfoldable pub resolve_trust : TrustFacts → TrustResolution
resolve_trust f = elim f.trust_mode [
  | some mode ↦ trusted mode f.trust_operators
  | none ↦ default_trust f.visibility (nonempty f.viewer_login)
]

abbrev is_author : Option String → List String → Bool
is_author none ops = false
is_author (some a) ops = has_text a ops

abbrev pub assigned_to : InventoryTicket → List String → Bool
assigned_to t ops = any (λ a. has_text a ops) t.assignees

unfoldable pub passes_trust : InventoryTicket → TrustMode → List String → Bool
passes_trust t single_maintainer ops = true
passes_trust t multi_maintainer ops = assigned_to t ops
passes_trust t public ops = assigned_to t ops || is_author t.author ops

unfoldable pub passes_assignee_scope : InventoryTicket → List String → Bool
passes_assignee_scope t [] = true
passes_assignee_scope t (s ∷ scope) = assigned_to t (s ∷ scope)
