-- ===== src/Planner/Schedule/Dispatch/Laws.antt =====
-- Safety of the dispatch.
use status_pipe.Base.{
  ℕ, ◌-◌, ◌≤◌, ◌≡◌, refl, sym, ap, ◌∙◌, take-append-drop, sort-perm, String, true, Option, none,
  some, List, [], ◌∷◌, ◌++◌, map, length, take, drop, lookup, arith, lookup-insert_self, has_text,
  has_text-append, ==_refl, length-take, if◌then◌else◌,
}
use mathlib.Core.List.{Perm, perm_middle, append_assoc, map-append}
use mathlib.Core.List.Perm
use mathlib.Core.List.Permᴰ
use mathlib.Core.Path.{subst}
use status_pipe.Base.Platform.{Platform}
use status_pipe.Protocol.{DispatchItem, DispatchPlan}
use status_pipe.Planner.{Candidate, PassState, PlannerInput}
use status_pipe.Planner.Acks.{ConsumedAcks}
use status_pipe.Planner.Effects.{Ports, World, attempt}
use status_pipe.Planner.Effects.Outcomes.{Leaves, Returns, Leaves-bind, Leaves-attempt}
use status_pipe.Planner.Schedule.Tickets.{stamped}
use status_pipe.Planner.Schedule.Selection.{Selectable, selectable}
use status_pipe.Planner.Schedule.Dispatch.{
  dispatch_one, dispatch_each, select_and_dispatch, after_item, free_slots, ranked, key_of,
}

provisioned_lem :
    (slug : String) (slugs : List String)
    → has_text slug (if has_text slug slugs then slugs else slugs ++ slug ∷ []) ≡ true
provisioned_lem slug slugs = ground (arith, has_text-append slug slugs (slug ∷ []), ==_refl slug)

module _ (os : Platform) (p : Ports) (input : PlannerInput) (consumed : ConsumedAcks) where
  -- A failed dispatch leaves every ticket as it was; a successful one leaves the ticket stamped as running, with its
  -- worktree in place, and its item names that worktree and the candidate's key.
  pub dispatch_one-all_or_nothing :
      (s : Selectable) (w : World)
      → Leaves
          (λ (i : DispatchItem) (v : World).
            (lookup s.candidate.key v.tickets
              ≡ some (stamped s.ticket s.candidate input.repo (p.iso w)))
            × (has_text s.candidate.slug v.worktrees ≡ true)
            × (i.worktree ≡ p.worktree_path w s.candidate.slug)
            × (i.key ≡ s.candidate.key))
          (λ v. v.tickets ≡ w.tickets)
          (dispatch_one os p input consumed s w)
  unfolding dispatch_one
  dispatch_one-all_or_nothing s w = ground (
    arith,
    lookup-insert_self s.candidate.key (stamped s.ticket s.candidate input.repo (p.iso w))
        w.tickets,
    provisioned_lem s.candidate.slug w.worktrees,
  )

  abbrev Named : Selectable → Option DispatchItem → Type 0
  Named s none = Unit {0}
  Named s (some i) = i.key ≡ s.candidate.key

  dispatch_one-Named :
      (s : Selectable) (w : World)
      → Returns (λ i _. Named s i) (attempt (dispatch_one os p input consumed s) w)
  dispatch_one-Named s w =
      Leaves-attempt _ (λ i _. Named s i) _ _ (dispatch_one os p input consumed s) w
        (dispatch_one-all_or_nothing s w) (λ i v h. h.3) (λ v h. tt)

  -- The keys of the items and those that failed.
  abbrev pub handled : List DispatchItem × List String → List String
  handled (items, failed) = map (λ (i : DispatchItem). i.key) items ++ failed

  -- Each candidate is dispatched or has failed, once.
  abbrev Handled : List Selectable → List DispatchItem × List String → World → Type 0
  Handled ss r w = Perm (handled r) (map key_of ss) × (length r.0 ≤ length ss)

  after_item-Handled :
      (s : Selectable) (ss : List Selectable) (i : Option DispatchItem)
      (r : List DispatchItem × List String) (w : World)
      → Named s i
      → Handled ss r w
      → Handled (s ∷ ss) (after_item s i r) w
  after_item-Handled s ss none (items, failed) w e h =
      (Perm.trans (perm_middle _ failed) (Perm.cons s.candidate.key h.0), omega (arith, h.1))
  after_item-Handled s ss (some i) (items, failed) w e h = (Perm.cons' e h.0, omega (arith, h.1))

  dispatch_each-Handled :
      (ss : List Selectable) (w : World)
      → Returns (Handled ss) (dispatch_each os p input consumed ss w)
  unfolding dispatch_each
  dispatch_each-Handled [] w = (Perm.refl [], omega arith)
  dispatch_each-Handled (s ∷ ss) w =
      Leaves-bind (λ i _. Named s i) _ _ (attempt (dispatch_one os p input consumed s)) _ w
        (dispatch_one-Named s w)
        (λ i v e.
          Leaves-bind (Handled ss) _ _ (dispatch_each os p input consumed ss) _ v
            (dispatch_each-Handled ss v) (λ r u h. after_item-Handled s ss i r u e h))

regroup-perm : (xs ys zs : List String) → Perm (xs ++ (ys ++ zs)) ((xs ++ zs) ++ ys)
regroup-perm xs ys zs =
    subst (λ l. Perm (xs ++ (ys ++ zs)) l) (sym (append_assoc xs zs ys))
      (Perm.append_left xs ∣ Permᴰ.append_comm ys zs ∣₁)

-- The keys in front of the cut and those after it, for two lists that hold the same.
split-perm :
    (n : ℕ) (xs ys : List Selectable)
    → Perm xs ys
    → Perm (map key_of (take n xs) ++ map key_of (drop n xs)) (map key_of ys)
split-perm n xs ys h =
    subst (λ l. Perm l (map key_of ys))
      (ap (map key_of) (sym (take-append-drop n xs)) ∙ map-append key_of (take n xs) (drop n xs))
      (Perm.map key_of h)

empty-append : {A : Type 0} (xs ys : List A) → xs ≡ [] → xs ++ ys ≡ ys
empty-append xs ys e = rw e refl

-- For a report without a dispatched or deferred key, the dispatch never throws; its items are no more than the free slots; and the dispatched keys, the deferred
-- and the failed ones together are those of all selectable candidates, each as often: nothing is dropped or doubled.
pub select_and_dispatch-covers :
    (os : Platform) (p : Ports) (input : PlannerInput) (s : PassState) (cs : List Candidate)
    (w : World)
    → s.report.dispatched ≡ []
    → s.report.deferred ≡ []
    → Returns
        (λ (r : Option DispatchPlan × PassState) (v : World).
          (length r.1.report.dispatched ≤ input.max_concurrent - length input.live_worker_keys)
          × Perm
              (map (λ (i : DispatchItem). i.key) r.1.report.dispatched ++ r.1.report.deferred)
              (map key_of (selectable input.live_worker_keys s cs)))
        (select_and_dispatch os p input s cs w)
unfolding select_and_dispatch
select_and_dispatch-covers os p input s cs w d e =
    Leaves-bind _ _ _
      (dispatch_each os p input s.consumed (take (free_slots os p input) (ranked os p input s cs)))
      _ w
      (dispatch_each-Handled os p input s.consumed
        (take (free_slots os p input) (ranked os p input s cs)) w)
      (λ r v h. rw (empty-append s.report.dispatched r.0 d) (
        rw
          (empty-append s.report.deferred
            (map key_of (drop (free_slots os p input) (ranked os p input s cs))) e)
          (
            omega (arith, h.1, length-take (free_slots os p input) (ranked os p input s cs)),
            Perm.trans (regroup-perm (map (λ (i : DispatchItem). i.key) r.0) _ r.1) (
                Perm.trans (Perm.append_right _ h.0) (
                  split-perm (free_slots os p input) _ _
                    (sort-perm _ (selectable input.live_worker_keys s cs)))),
          )))
