-- ===== src/Planner/Pass/Laws.antt =====
-- The trust gate of a pass: src/planner/plan.ts.
use status_pipe.Base.{◌≡◌, String, true, none, arith}
use mathlib.Core.Path.{subst}
use status_pipe.Base.Platform.{Platform}
use status_pipe.Planner.{PlannerInput, refused}
use status_pipe.Planner.Effects.{Ports, World, done, logged, get_visibility}
use status_pipe.Planner.Effects.Outcomes.{Returns, bind-done}
use status_pipe.Planner.Trust.{resolve_trust, public_refusal}
use status_pipe.Planner.Pass.{plan, refusal, resolve_trust_gate, pass_for}

-- Where the forge does not tell the visibility and no trust mode is declared, the pass is refused as on a public repository:
-- it makes that one call and no other, and changes nothing.
pub plan-fails_closed :
    (os : Platform) (input : PlannerInput) (p : Ports) (w : World)
    → p.throws w get_visibility ≡ true
    → input.config.trust_mode ≡ none
    → plan os input p w ≡ done (refusal os input p public_refusal) (logged get_visibility w)
unfolding plan resolve_trust_gate resolve_trust
plan-fails_closed os input p w e k = ground (arith, e, k)

-- The files and the worktrees of the two worlds are the same.
abbrev pub SameFiles : World → World → Type 0
SameFiles w v =
    (v.tickets ≡ w.tickets)
    × (v.inbox ≡ w.inbox)
    × (v.orchestrator ≡ w.orchestrator)
    × (v.worktrees ≡ w.worktrees)

-- The trust gate always answers, and changes nothing.
resolve_trust_gate-SameFiles :
    (input : PlannerInput) (p : Ports) (w : World)
    → Returns (λ _ v. SameFiles w v) (resolve_trust_gate input p w)
unfolding resolve_trust_gate
resolve_trust_gate-SameFiles input p w = ground arith

-- Where the trust gate refuses, the pass returns that refusal, and the tickets, the inbox, the orchestrator file and the
-- worktrees are as before.
plan-refusal :
    (os : Platform) (input : PlannerInput) (p : Ports) (w v : World) (reason : String)
    → resolve_trust_gate input p w ≡ done (refused reason) v
    → (plan os input p w ≡ done (refusal os input p reason) v) × SameFiles w v
unfolding plan
plan-refusal os input p w v reason e = (
  bind-done (resolve_trust_gate input p) (λ trust. pass_for os input p trust (p.iso w)) w v
      (refused reason) e,
  subst (λ o. Returns (λ _ u. SameFiles w u) o) e (resolve_trust_gate-SameFiles input p w),
)
