-- ===== src/Planner/Effects/Outcomes.antt =====
-- Statements about the outcome of an effect: of its result and the world it leaves, or of the world at a throw.
use status_pipe.Base.{◌≡◌, ap, Option, none, some}
use status_pipe.Planner.Effects.{M, Outcome, done, thrown, World, ◌>>=◌, attempt}

abbrev pub Leaves : {A : Type 0} → (A → World → Type 0) → (World → Type 0) → Outcome A → Type 0
Leaves P E (done a w) = P a w
Leaves P E (thrown w) = E w

-- It does not throw.
abbrev pub Returns : {A : Type 0} → (A → World → Type 0) → Outcome A → Type 0
Returns P o = Leaves P (λ _. ⊥) o

-- The world alone, whatever the outcome.
abbrev pub Ends : {A : Type 0} → (World → Type 0) → Outcome A → Type 0
Ends P o = Leaves (λ _. P) P o

module _ {A B : Type 0} (P : A → World → Type 0) (Q : B → World → Type 0) (E : World → Type 0) where
  pub Leaves-bind :
      (m : M A) (f : A → M B) (w : World)
      → Leaves P E (m w)
      → ((a : A) (v : World) → P a v → Leaves Q E (f a v))
      → Leaves Q E ((m >>= f) w)
  Leaves-bind m f w h k = bound (m w) h
    where
      bound :
          (o : Outcome A)
          → Leaves P E o
          → Leaves Q E (elim o [ done a v ↦ f a v | thrown v ↦ thrown v ])
      bound (done a v) h = k a v h
      bound (thrown v) h = h

module _ {A : Type 0} (P : A → World → Type 0) (Q : Option A → World → Type 0)
    (E F : World → Type 0) where
  pub Leaves-attempt :
      (m : M A) (w : World)
      → Leaves P E (m w)
      → ((a : A) (v : World) → P a v → Q (some a) v)
      → ((v : World) → E v → Q none v)
      → Leaves Q F (attempt m w)
  Leaves-attempt m w h k j = attempted (m w) h
    where
      attempted :
          (o : Outcome A)
          → Leaves P E o
          → Leaves Q F (elim o [ done a v ↦ done (some a) v | thrown v ↦ done none v ])
      attempted (done a v) h = k a v h
      attempted (thrown v) h = j v h

-- Of a result, if there is one.
abbrev pub IfDone : {A : Type 0} → (A → Type 0) → Outcome A → Type 0
IfDone P o = Leaves (λ a _. P a) (λ _. Unit {0}) o

pub IfDone-any : {A : Type 0} (o : Outcome A) → IfDone (λ _. Unit {0}) o
IfDone-any (done a v) = tt
IfDone-any (thrown v) = tt

module _ {A B : Type 0} (P : A → Type 0) (Q : B → Type 0) where
  pub IfDone-bind :
      (m : M A) (f : A → M B) (w : World)
      → IfDone P (m w)
      → ((a : A) (v : World) → P a → IfDone Q (f a v))
      → IfDone Q ((m >>= f) w)
  IfDone-bind m f w h k = Leaves-bind (λ a _. P a) (λ b _. Q b) _ m f w h k

module _ {A : Type 0} (P Q : A → World → Type 0) (E F : World → Type 0) where
  pub Leaves-impl :
      (o : Outcome A)
      → ((a : A) (v : World) → P a v → Q a v)
      → ((v : World) → E v → F v)
      → Leaves P E o
      → Leaves Q F o
  Leaves-impl (done a v) k j h = k a v h
  Leaves-impl (thrown v) k j h = j v h

  pub Leaves-both :
      (o : Outcome A)
      → Leaves P E o
      → Leaves Q F o
      → Leaves (λ a v. P a v × Q a v) (λ v. E v × F v) o
  Leaves-both (done a v) h k = (h, k)
  Leaves-both (thrown v) h k = (h, k)

pub bind-done :
    {A B : Type 0} (m : M A) (f : A → M B) (w v : World) (a : A)
    → m w ≡ done a v
    → (m >>= f) w ≡ f a v
bind-done m f w v a e = ap (λ o. elim o [ done x u ↦ f x u | thrown u ↦ thrown u ]) e
