-- ===== src/Forge/Clients/Bitbucket/Paging.antt =====
-- The walk over the pages of a list: getPaged of src/forge/bitbucket.ts.
use mathlib.Core.List.{append_assoc}
use status_pipe.Base.{
  ℕ, zero, suc, ◌≡◌, ◌≤◌, refl, ◌∙◌, String, Option, none, some, List, [], ◌++◌, ◌^^◌, sym, subst,
  arith, if◌then◌else◌, includes,
}
use status_pipe.Protocol.Json.{Json, Object, obj, str, get}
use status_pipe.Protocol.Worker.{nonempty}
use status_pipe.Forge.Mapping.{as_arr, safe_parse}
use status_pipe.Forge.Http.{Web, HttpRequest, ok, Settled, Session, M, pure, and_then}
use status_pipe.Forge.Clients.Bitbucket.{
  BitbucketRepository, BitbucketConfig, Walk, walked, get_json, after_page, pages_from, get_paged,
}
use status_pipe.Forge.Clients.Bitbucket.Caching.{Origin, Honest, KeepsTags, get_json-Reads}

-- The values of a page, and the address of the one after it.
abbrev pub values_in : Object → List Json
values_in v = as_arr (get "values" v)

abbrev pub next_in : Object → Option String
next_in v = nonempty (str (get "next" v))

and_then-ok :
    {A B S : Type 0} (r : Settled A × Session S) (a : A) (f : A → M S B)
    → r.0 ≡ ok a
    → and_then r f ≡ f a r.1
and_then-ok r a f e = subst (λ x. and_then (x, r.1) f ≡ f a r.1) (sym e) refl

module _ (w : Web) (c : BitbucketConfig) (o : Origin) where
  -- At this address stands this object, whatever is asked before.
  abbrev pub Present : String → Object → Type 0
  Present url v =
      (log : List HttpRequest)
      → (nonempty (some (o.tag log url)) ≡ some (o.tag log url))
        × (obj (safe_parse w.js (o.content url (o.tag log url))) ≡ some v)

  -- What follows a page with the values `here`: nothing, or the pages from the next address on.
  abbrev Tail : (String → List Json → Type 0) → List Json → List Json → Option String → Type 0
  Tail P here vs none = vs ≡ here
  Tail P here vs (some next) = (rest : List Json) × P next rest × (vs ≡ here ++ rest)

  -- The list that starts at this address has so many pages, and these values.
  unfoldable pub Pages : ℕ → String → List Json → Type 0
  Pages zero url vs = ⊥
  Pages (suc n) url vs = (v : Object) × Present url v × Tail (Pages n) (values_in v) vs (next_in v)

  abbrev proceeds :
      (String → M BitbucketRepository Walk) → List Json → Option String → M BitbucketRepository Walk
  proceeds rest values none = pure (walked values)
  proceeds rest values (some url) = rest url

  abbrev one_page : ℕ → List Json → Option Object → M BitbucketRepository Walk
  one_page fuel values page = elim page [
    | none ↦ pure (walked values)
    | some v ↦
        after_page w c (pages_from w c fuel (values ++ values_in v)) (values ++ values_in v)
          (str (get "next" v))
  ]

  after_page-next :
      (rest : String → M BitbucketRepository Walk) (values : List Json) (next : Option String)
      → after_page w c rest values next ≡ proceeds rest values (nonempty next)
  after_page-next rest values none = refl
  after_page-next rest values (some String.[]) = refl
  after_page-next rest values (some (String.◌∷◌ ch next)) = refl

  page-step :
      (fuel : ℕ) (values : List Json) (url : String) (s : Session BitbucketRepository) (v : Object)
      → (get_json w c url s).0 ≡ ok (some v)
      → pages_from w c (suc fuel) values url s
        ≡ after_page w c
            (pages_from w c fuel (values ++ values_in v))
            (values ++ values_in v)
            (str (get "next" v))
            (get_json w c url s).1
  unfolding pages_from
  page-step fuel values url s v e =
      and_then-ok (get_json w c url s) (some v) (one_page fuel values) e

  -- All pages are walked through with fuel for each of them.
  abbrev Walks : ℕ → ℕ → Type 0
  Walks n fuel =
      (values : List Json) (url : String) (vs : List Json) (s : Session BitbucketRepository)
      → Pages n url vs
      → KeepsTags o s.own
      → (pages_from w c fuel values url s).0 ≡ ok (walked (values ++ vs))

  Tail-Walks :
      (n fuel : ℕ) (values here vs : List Json) (next : Option String)
      → (s : Session BitbucketRepository) → Walks n fuel
      → Tail (Pages n) here vs next
      → KeepsTags o s.own
      → (proceeds (pages_from w c fuel (values ++ here)) (values ++ here) next s).0
        ≡ ok (walked (values ++ vs))
  Tail-Walks n fuel values here vs none s walks tail kept = rw (tail) refl
  Tail-Walks n fuel values here vs (some next) s walks (rest, pages, e) kept =
      walks (values ++ here) next rest s pages kept ∙ rw (e, append_assoc values here rest) refl

  pages_from-Walks : Honest w o → (n fuel : ℕ) → n ≤ fuel → Walks n fuel
  unfolding Pages
  pages_from-Walks honest zero fuel enough values url vs s pages kept = absurd pages
  pages_from-Walks honest (suc n) zero enough values url vs s pages kept = absurd (omega arith)
  pages_from-Walks honest (suc n) (suc fuel) enough values url vs s (v, present, tail) kept =
      let (value, good) =
        get_json-Reads w c o honest url v s (present s.sent).0 (present s.sent).1 kept in
      rw
        (
          page-step fuel values url s v value,
          after_page-next (pages_from w c fuel (values ++ values_in v)) (values ++ values_in v)
              (str (get "next" v)),
        )
        (Tail-Walks n fuel values (values_in v) vs (next_in v) (get_json w c url s).1
          (pages_from-Walks honest n fuel (omega arith)) tail good)

  -- Against a server that keeps to its tags, a good cache, and a list of so many pages that stand still meanwhile, the walk
  -- ends with the values of all the pages in order, as soon as the fuel is that number.
  pub get_paged-all :
      Honest w o
      → (n fuel : ℕ) (url : String) (vs : List Json) (s : Session BitbucketRepository) → n ≤ fuel
      → Pages n (url ^^ (if includes url "?" then "&" else "?") ^^ "pagelen=100") vs
      → KeepsTags o s.own
      → (get_paged w c fuel url s).0 ≡ ok (walked vs)
  unfolding get_paged
  get_paged-all honest n fuel url vs s enough pages kept =
      pages_from-Walks honest n fuel enough []
        (url ^^ (if includes url "?" then "&" else "?") ^^ "pagelen=100") vs s pages kept
