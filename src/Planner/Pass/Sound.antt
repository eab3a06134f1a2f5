-- ===== src/Planner/Pass/Sound.antt =====
-- What a whole pass of src/planner/plan.ts returns and records.
use status_pipe.Base.{
  ◌≡◌, refl, ap, ◌∙◌, ◌⊎◌, inl, inr, ◌-◌, ◌≤◌, ℕ, length, String, true, Option, none, some, is_some,
  List, [], ◌∷◌, arith, ◌++◌, take, sym,
}
use mathlib.Core.Path.{subst}
use status_pipe.Base.Platform.{Platform}
use status_pipe.Protocol.{DispatchPlan, DispatchItem}
use status_pipe.Planner.{
  Candidate, PassState, PlannerInput, PlanReport, PlanResult, TrustResolution, trusted, refused,
  empty_report,
}
use status_pipe.Planner.Effects.{Ports, World, ask, list_worktrees}
use status_pipe.Planner.Effects.Outcomes.{
  Leaves, IfDone, IfDone-any, IfDone-bind, Leaves-bind, Leaves-impl, Leaves-both,
}
use status_pipe.Planner.Acks.{ConsumedAcks, consume_acks}
use status_pipe.Planner.Schedule.Dispatch.{
  select_and_dispatch, dispatch_plan, dispatch_each, free_slots, ranked,
}
use status_pipe.Planner.Schedule.Dispatch.Laws.{select_and_dispatch-covers}
use status_pipe.Planner.Lifecycle.{garbage_collect_worktrees, sweep, sweep_one, active_slugs}
use status_pipe.Planner.Parking.{compute_parked}
use status_pipe.Planner.Pass.{
  plan, resolve_trust_gate, run_pass, wrap_pass, build_candidates, load_tickets, reconcile_all,
  pass_for,
}
use status_pipe.Planner.Pass.Fresh.{
  Fresh, FreshState, build_candidates-Fresh, consume_acks-Fresh, reconciled-Fresh,
}

empty-append_lem : {A : Type 0} (xs ys : List A) → xs ≡ [] → xs ++ ys ≡ ys
empty-append_lem xs ys e = rw e refl

-- The plan holds the dispatched items, as many as there are free slots.
abbrev pub Planned : PlannerInput → Option DispatchPlan → List DispatchItem → Type 0
Planned input d items =
    (length items ≤ input.max_concurrent - length input.live_worker_keys)
    × (d ≡ elim items [
      | [] ↦ none
      | i ∷ is ↦ some (record { max_concurrent = input.max_concurrent; items = i ∷ is })
    ])

select_and_dispatch-Planned :
    (os : Platform) (p : Ports) (input : PlannerInput) (s : PassState) (cs : List Candidate)
    (w : World)
    → FreshState s
    → IfDone
        (λ (r : Option DispatchPlan × PassState). Planned input r.0 r.1.report.dispatched)
        (select_and_dispatch os p input s cs w)
unfolding select_and_dispatch
select_and_dispatch-Planned os p input s cs w h =
    Leaves-impl _ _ _ _ (select_and_dispatch os p input s cs w) (λ r v k. (k.0.0, k.1)) (λ v k. tt)
      (Leaves-both _
        (λ (r : Option DispatchPlan × PassState) _.
          r.0 ≡ dispatch_plan os p input r.1.report.dispatched)
        _ (λ _. Unit {0}) _ (select_and_dispatch-covers os p input s cs w h.0 h.1)
        (IfDone-bind _ _
          (dispatch_each os p input s.consumed
            (take (free_slots os p input) (ranked os p input s cs)))
          _ w (IfDone-any _)
          (λ r v _.
            ap (dispatch_plan os p input) (sym (empty-append_lem s.report.dispatched r.0 h.0)))))

-- The sweep of worktrees leaves the dispatched items in the report.
abbrev Dispatched : List DispatchItem → PassState → Type 0
Dispatched items s = s.report.dispatched ≡ items

sweep-Dispatched :
    (p : Ports) (active slugs : List String) (items : List DispatchItem) (s : PassState) (w : World)
    → Dispatched items s
    → IfDone (Dispatched items) (sweep p active slugs s w)
unfolding sweep
sweep-Dispatched p active [] items s w h = h
sweep-Dispatched p active (slug ∷ slugs) items s w h =
    IfDone-bind (Dispatched items) _ (sweep_one p active slug s) _ w (ground (arith, h))
      (λ next v k. sweep-Dispatched p active slugs items next v k)

garbage_collect_worktrees-Dispatched :
    (p : Ports) (cs : List Candidate) (s : PassState) (w : World)
    → IfDone (Dispatched s.report.dispatched) (garbage_collect_worktrees p s cs w)
unfolding garbage_collect_worktrees
garbage_collect_worktrees-Dispatched p cs s w =
    IfDone-bind _ _ (ask p list_worktrees (λ u. u.worktrees)) _ w (IfDone-any _)
      (λ slugs v _. sweep-Dispatched p (active_slugs s cs) slugs s.report.dispatched s v refl)

-- The orchestrator file holds the plan and the parking.
abbrev pub Recorded : Option DispatchPlan → PlanReport → World → Type 0
Recorded d r v = elim v.orchestrator [
  | none ↦ ⊥
  | some f ↦ (f.dispatch ≡ d) × (f.parked ≡ r.parked)
]

parks_idle :
    (os : Platform) (live : List String) (now : ℕ) (iso : String) (s : PassState)
    (cs : List Candidate)
    → (compute_parked os live now iso s cs ≡ none) ⊎ (s.report.dispatched ≡ [])
unfolding compute_parked
parks_idle os live now iso s cs = ground arith

wrap_pass-Recorded :
    (os : Platform) (input : PlannerInput) (p : Ports) (s : PassState) (cs : List Candidate)
    (d : Option DispatchPlan) (at : String) (w : World)
    → Leaves
        (λ (t : PassState) (v : World).
          (t.report.dispatched ≡ s.report.dispatched)
          × ((t.report.parked ≡ none) ⊎ (s.report.dispatched ≡ []))
          × Recorded d t.report v)
        (λ _. Unit {0})
        (wrap_pass os input p s cs d at w)
unfolding wrap_pass
wrap_pass-Recorded os input p s cs d at w =
    ground (arith, parks_idle os input.live_worker_keys (p.now w) (p.iso w) s cs)

-- What a pass returns: within its slots, idle if it parks, and recorded unless it was refused.
abbrev pub Sound : PlannerInput → PlanResult → World → Type 0
Sound input r v =
    Planned input r.dispatch r.report.dispatched
    × ((r.report.parked ≡ none) ⊎ (r.report.dispatched ≡ []))
    × ((is_some r.report.refused_reason ≡ true) ⊎ Recorded r.dispatch r.report v)

wrapped-Sound :
    (input : PlannerInput) (d : Option DispatchPlan × PassState) (s t : PlanReport) (v : World)
    → Planned input d.0 d.1.report.dispatched
    → s.dispatched ≡ d.1.report.dispatched
    → (t.dispatched ≡ s.dispatched) × ((t.parked ≡ none) ⊎ (s.dispatched ≡ [])) × Recorded d.0 t v
    → Sound input (record { dispatch = d.0; report = t }) v
wrapped-Sound input d s t v k e h = (
  subst (Planned input d.0) (sym (h.0 ∙ e)) k,
  elim h.1 [ inl none_parked ↦ inl none_parked | inr idle ↦ inr (h.0 ∙ idle) ],
  inr h.2,
)

run_pass-Sound :
    (os : Platform) (input : PlannerInput) (p : Ports) (cs : List Candidate)
    (acks : ConsumedAcks × PlanReport) (at : String) (w : World)
    → Fresh acks.1
    → Leaves (Sound input) (λ _. Unit {0}) (run_pass os input p cs acks at w)
unfolding run_pass
run_pass-Sound os input p cs acks at w h =
    Leaves-bind _ _ _ (load_tickets p) _ w (IfDone-any _) (λ tickets w1 _.
      Leaves-bind (λ s _. FreshState s) _ _ (reconcile_all os input p cs _) _ w1
        (reconciled-Fresh os p input cs _ w1 h)
        (λ s1 w2 k1.
          Leaves-bind _ _ _ (select_and_dispatch os p input s1 cs) _ w2
            (select_and_dispatch-Planned os p input s1 cs w2 k1)
            (λ d w3 k2.
              Leaves-bind _ _ _ (garbage_collect_worktrees p d.1 cs) _ w3
                (garbage_collect_worktrees-Dispatched p cs d.1 w3)
                (λ s2 w4 k3.
                  Leaves-bind _ _ _ (wrap_pass os input p s2 cs d.0 at) _ w4
                    (wrap_pass-Recorded os input p s2 cs d.0 at w4)
                    (λ s3 w5 k4. wrapped-Sound input d s2.report s3.report w5 k2 k3 k4)))))

pass_for-Sound :
    (os : Platform) (input : PlannerInput) (p : Ports) (t : TrustResolution) (at : String)
    (w : World)
    → Leaves (Sound input) (λ _. Unit {0}) (pass_for os input p t at w)
pass_for-Sound os input p (refused reason) at w = ((omega arith, refl), inl refl, inl refl)
pass_for-Sound os input p (trusted mode operators) at w =
    Leaves-bind (λ f _. Fresh f.1) _ _ (build_candidates input p mode operators empty_report) _ w
      (build_candidates-Fresh input p mode operators empty_report w (refl, refl))
      (λ found v k.
        Leaves-bind (λ f _. Fresh f.1) _ _ (consume_acks p found.1) _ v
          (consume_acks-Fresh p found.1 v k)
          (λ acks u j. run_pass-Sound os input p found.0 acks at u j))

-- Of a pass that returns: its items are no more than the free slots; its plan is there exactly when something was dispatched, and holds
-- the dispatched items; it parks only when nothing was dispatched; and unless it was refused, the orchestrator file that it
-- leaves holds this plan and this parking.
pub plan-Sound :
    (os : Platform) (input : PlannerInput) (p : Ports) (w : World)
    → Leaves (Sound input) (λ _. Unit {0}) (plan os input p w)
unfolding plan
plan-Sound os input p w =
    Leaves-bind _ _ _ (resolve_trust_gate input p) _ w (IfDone-any _)
      (λ t v _. pass_for-Sound os input p t (p.iso w) v)
