-- ===== src/Planner/Lifecycle/Laws.antt =====
-- The collection of worktrees of src/planner/reconcile.ts and the active work.
use mathlib.Core.List.{Mem, mem-cons, not-mem-nil}
use mathlib.Core.Logic.Or
use status_pipe.Protocol.{TicketFile, Phase}
use status_pipe.Base.{
  Bool, Option, none, some, ◌||◌, ◌++◌, ◌^^◌, map, lookup, get_or, subst, sym, ap, ◌∙◌, ==_refl,
  ◌≡◌, refl, String, true, false, not, ◌==◌, List, [], ◌∷◌, keep, has_text, arith, ==_iff,
  Bool-cases, inl, inr,
}
use status_pipe.Planner.{Candidate, PassState}
use status_pipe.Planner.Effects.{Ports, World, ask, list_worktrees}
use status_pipe.Planner.Effects.Outcomes.{Ends, Leaves-bind}
use status_pipe.Planner.Schedule.Tickets.{is_terminal}
use status_pipe.Planner.Lifecycle.{
  slug_of_file, sweep, active_slugs, garbage_collect_worktrees, remove_one, sweep_one,
}

has_text-keep_other :
    (slug other : String) (slugs : List String)
    → (slug == other) ≡ false
    → has_text slug (keep (λ s. not (s == other)) slugs) ≡ has_text slug slugs
has_text-keep_other slug other [] e = refl
has_text-keep_other slug other (s ∷ ss) e =
    ground
      (arith, has_text-keep_other slug other ss e, ==_iff slug s, ==_iff s other, ==_iff slug other)

-- The worktree is there still, and the tickets are those of the world before.
abbrev Kept : String → World → World → Type 0
Kept slug w v = (has_text slug v.worktrees ≡ true) × (v.tickets ≡ w.tickets)

remove_one-Kept :
    (p : Ports) (slug other : String) (s : PassState) (w v : World)
    → (slug == other) ≡ false
    → Kept slug w v
    → Ends (Kept slug w) (remove_one p other s v)
remove_one-Kept p slug other s w v e h =
    ground (arith, h.0, h.1, has_text-keep_other slug other v.worktrees e)

sweep_one-Kept :
    (p : Ports) (slug other : String) (active : List String) (s : PassState) (w v : World)
    → has_text slug active ≡ true
    → Kept slug w v
    → Ends (Kept slug w) (sweep_one p active other s v)
sweep_one-Kept p slug other active s w v a h = elim (Bool-cases (slug == other)) [
  | inl e ↦ ground (arith, a, h.0, h.1, ==_iff slug other)
  | inr e ↦ ground (arith, remove_one-Kept p slug other s w v e h, h.0, h.1)
]

sweep-Kept :
    (p : Ports) (slug : String) (active slugs : List String) (s : PassState) (w v : World)
    → has_text slug active ≡ true
    → Kept slug w v
    → Ends (Kept slug w) (sweep p active slugs s v)
unfolding sweep
sweep-Kept p slug active [] s w v a h = h
sweep-Kept p slug active (other ∷ slugs) s w v a h =
    Leaves-bind (λ _. Kept slug w) _ _ (sweep_one p active other s) _ v
      (sweep_one-Kept p slug other active s w v a h)
      (λ next u k. sweep-Kept p slug active slugs next w u a k)

abbrev is_over : Phase → Bool
is_over Phase.merged = true
is_over Phase.abandoned = true
is_over _ = false

abbrev file_is_over : Option TicketFile → Bool
file_is_over none = false
file_is_over (some t) = is_over t.phase

-- The slugs of active work: of a candidate whose ticket file, if there is one, is not over, and of a ticket file that is
-- not over, by its own slug or else by its key.
pub data IsActive (s : PassState) (cs : List Candidate) : String → Type 0 where
  by_candidate :
      (c : Candidate)
      → Mem c cs
      → file_is_over (lookup c.key s.tickets) ≡ false
      → IsActive s cs c.slug
  by_ticket :
      (key : String) (t : TicketFile)
      → Mem (key, t) s.tickets
      → is_over t.phase ≡ false
      → IsActive s cs (get_or t.slug ("ticket-" ^^ key))

has_text-kept {ℓ} :
    {A : Type ℓ} (f : A → String) (p : A → Bool) (x : A) (xs : List A)
    → Mem x xs
    → p x ≡ true
    → has_text (f x) (map f (keep p xs)) ≡ true
has_text-kept f p x [] m ok = absurd (not-mem-nil m)
has_text-kept f p x (y ∷ ys) m ok =
    Or.elim (hlevel) (mem-cons.0 m)
      (λ e.
        subst (λ z. has_text (f x) (map f (keep p (z ∷ ys))) ≡ true) e
          (rw (ok, ==_refl (f x)) refl))
      (λ later. ground (arith, has_text-kept f p x ys later ok))

has_text-append :
    (k : String) (xs ys : List String) → has_text k (xs ++ ys) ≡ (has_text k xs || has_text k ys)
has_text-append k [] ys = refl
has_text-append k (x ∷ xs) ys = ground (arith, has_text-append k xs ys)

has_text-left :
    (k : String) (xs ys : List String) → has_text k xs ≡ true → has_text k (xs ++ ys) ≡ true
has_text-left k xs ys h = ground (arith, has_text-append k xs ys, h)

has_text-right :
    (k : String) (xs ys : List String) → has_text k ys ≡ true → has_text k (xs ++ ys) ≡ true
has_text-right k xs ys h = ground (arith, has_text-append k xs ys, h)

over_is_terminal : (o : Option TicketFile) → file_is_over o ≡ is_terminal o
over_is_terminal none = refl
over_is_terminal (some t) = ground arith

IsActive-has :
    (s : PassState) (cs : List Candidate) (slug : String)
    → IsActive s cs slug
    → has_text slug (active_slugs s cs) ≡ true
IsActive-has s cs slug (by_candidate c m going) =
    let there =
      has_text-kept (λ (d : Candidate). d.slug)
        (λ (d : Candidate). not (is_terminal (lookup d.key s.tickets))) c cs m
        (ap not (sym (over_is_terminal (lookup c.key s.tickets)) ∙ going)) in
    has_text-left c.slug _ _ there
IsActive-has s cs slug (by_ticket key t m going) =
    let there =
      has_text-kept slug_of_file (λ (e : String × TicketFile). not (is_terminal (some e.1)))
        (key, t) s.tickets m (ap not (sym (over_is_terminal (some t)) ∙ going)) in
    has_text-right (slug_of_file (key, t)) _ _ there

-- The collection never takes the worktree of active work, a candidate's or a ticket file's that is not over, and it writes no
-- ticket, whatever throws.
pub garbage_collect_worktrees-keeps_active :
    (p : Ports) (s : PassState) (cs : List Candidate) (slug : String) (w : World)
    → IsActive s cs slug
    → has_text slug w.worktrees ≡ true
    → Ends
        (λ v. (has_text slug v.worktrees ≡ true) × (v.tickets ≡ w.tickets))
        (garbage_collect_worktrees p s cs w)
unfolding garbage_collect_worktrees
garbage_collect_worktrees-keeps_active p s cs slug w a h =
    Leaves-bind (λ slugs v. (slugs ≡ w.worktrees) × Kept slug w v) _ _
      (ask p list_worktrees (λ u. u.worktrees)) _ w (ground (arith, h))
      (λ slugs v k.
        sweep-Kept p slug (active_slugs s cs) slugs s w v (IsActive-has s cs slug a) k.1)
