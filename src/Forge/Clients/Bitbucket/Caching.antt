-- ===== src/Forge/Clients/Bitbucket/Caching.antt =====
-- A conditional read answers what an unconditional one would: src/forge/bitbucket.ts.
use status_pipe.Base.{
  ℕ, eqb, refl, ◌∙◌, ◌≡◌, String, Bool, true, false, Option, none, some, List, ◌∷◌, lookup, insert,
  ◌==◌, ==_iff, lookup-insert, inl, inr, Bool-cases, ap, arith,
}
use status_pipe.Protocol.Json.{Object, obj}
use status_pipe.Protocol.Worker.{nonempty}
use status_pipe.Forge.Mapping.{safe_parse}
use status_pipe.Forge.Http.{
  Method, Web, HttpRequest, HttpResponse, answered, ok, Session, Settled, status_to_forge_error,
}
use status_pipe.Forge.Clients.Bitbucket.{
  EtagEntry, BitbucketRepository, BitbucketConfig, get_json, body_of, build_request, auth_header,
  tag_header, store_etag, from_cache, cached_body, parsed_or_throw,
}

-- The other side: the tag that a resource has after some requests, and the text behind a tag.
pub record Origin : Type 0 where
  pub tag : List HttpRequest → String → String
  pub content : String → String → String

-- How a server keeps to its tags: 304 where the request names the present one, and else the text with the tag.
abbrev pub says_unchanged : Origin → List HttpRequest → HttpRequest → Bool
says_unchanged o log req = elim (lookup "if-none-match" req.headers) [
  | none ↦ false
  | some t ↦ t == o.tag log req.url
]

pub record Honest (w : Web) (o : Origin) : Type 0 where
  pub unchanged :
      (log : List HttpRequest) (req : HttpRequest)
      → says_unchanged o log req ≡ true
      → (r : HttpResponse) × (w.fetch log req ≡ answered r) × (r.status ≡ 304)
  pub changed :
      (log : List HttpRequest) (req : HttpRequest)
      → says_unchanged o log req ≡ false
      → (r : HttpResponse) × (w.fetch log req ≡ answered r)
        × (r.status ≡ 200)
        × (r.header "etag" ≡ some (o.tag log req.url))
        × (r.body ≡ o.content req.url (o.tag log req.url))

-- Every text that is kept is the one behind its tag.
abbrev pub KeepsTags : Origin → BitbucketRepository → Type 0
KeepsTags o s =
    (url : String) (e : EtagEntry) → lookup url s.etags ≡ some e → e.body ≡ o.content url e.etag

-- What a read ends with: the value, and a cache that is as good.
abbrev pub Reads : Origin → Object → Settled (Option Object) × Session BitbucketRepository → Type 0
Reads o v r = (r.0 ≡ ok (some v)) × KeepsTags o r.1.own

inserted-KeepsTags :
    (o : Origin) (url : String) (new : EtagEntry) (s : BitbucketRepository)
    → KeepsTags o s
    → new.body ≡ o.content url new.etag
    → KeepsTags o (record s { etags = insert url new s.etags })
inserted-KeepsTags o url new s kept text u e found =
    ground (arith, lookup-insert url u new s.etags, ==_iff url u, kept u e, found, text)

module _ (w : Web) (c : BitbucketConfig) (o : Origin) where
  stored-KeepsTags :
      (url tag : String) (r : HttpResponse) (s : BitbucketRepository)
      → KeepsTags o s
      → nonempty (r.header "etag") ≡ some tag
      → r.body ≡ o.content url tag
      → KeepsTags o (store_etag w c url r s)
  stored-KeepsTags url tag r s kept at text =
      rw (store_etag, at)
        (inserted-KeepsTags o url (record { etag = tag; body = r.body }) s kept text)

  good_status : (now : ℕ) (r : HttpResponse) → r.status ≡ 200 → status_to_forge_error w now r ≡ none
  unfolding status_to_forge_error
  good_status now r e = rw (e) refl

  fresh-Reads :
      (url tag : String) (r : HttpResponse) (v : Object) (s : Session BitbucketRepository)
      → r.status ≡ 200
      → nonempty (r.header "etag") ≡ some tag
      → r.body ≡ o.content url tag
      → obj (safe_parse w.js (o.content url tag)) ≡ some v
      → KeepsTags o s.own
      → Reads o v (body_of w c url r s)
  fresh-Reads url tag r v s status at text parses kept =
      let new : eqb r.status 304 ≡ false = ap (λ n. eqb n 304) status in
      let there : eqb r.status 404 ≡ false = ap (λ n. eqb n 404) status in
      let parsed : obj (safe_parse w.js r.body) ≡ some v =
        ap (λ t. obj (safe_parse w.js t)) text ∙ parses in
      rw (new, there, good_status (w.now s.sent) r status, parsed_or_throw, parsed)
        (refl, stored-KeepsTags url tag r s.own kept at text)

  cached-Reads :
      (url : String) (r : HttpResponse) (e : EtagEntry) (v : Object)
      (s : Session BitbucketRepository)
      → r.status ≡ 304
      → lookup url s.own.etags ≡ some e
      → obj (safe_parse w.js (o.content url e.etag)) ≡ some v
      → KeepsTags o s.own
      → Reads o v (body_of w c url r s)
  cached-Reads url r e v s status found parses kept =
      let old : eqb r.status 304 ≡ true = ap (λ n. eqb n 304) status in
      let parsed : obj (safe_parse w.js e.body) ≡ some v =
        ap (λ t. obj (safe_parse w.js t)) (kept url e found) ∙ parses in
      rw (old, from_cache, cached_body, found, parsed) (refl, kept)

  -- The entry behind a request that the server answers with 304.
  names-tag :
      (url : String) (log : List HttpRequest) (kept : Option EtagEntry)
      → says_unchanged o log (record {
        url = url;
        method = Method.get;
        headers =
            ("authorization", auth_header w c)
            ∷ ("accept", "application/json")
            ∷ ("user-agent", "status-pipe")
            ∷ tag_header w c kept;
        body = none;
      })
        ≡ true
      → (e : EtagEntry) × (kept ≡ some e) × (e.etag ≡ o.tag log url)
  unfolding lookup
  names-tag url log none same = absurd (cc)
  names-tag url log (some e) same = (e, refl, (==_iff _ _).0 same)

  -- Where the server keeps to its tags, the tag of the resource is not empty, its text is an object, and every kept text is
  -- the one behind its tag: a read answers the present resource, from the cache or not, and the cache stays so.
  pub get_json-Reads :
      Honest w o
      → (url : String) (v : Object) (s : Session BitbucketRepository)
      → nonempty (some (o.tag s.sent url)) ≡ some (o.tag s.sent url)
      → obj (safe_parse w.js (o.content url (o.tag s.sent url))) ≡ some v
      → KeepsTags o s.own
      → Reads o v (get_json w c url s)
  unfolding get_json
  get_json-Reads honest url v s named parses kept =
      let req = build_request w c url s.own in
      let sent : Session BitbucketRepository = record s { sent = req ∷ s.sent } in
      elim (Bool-cases (says_unchanged o s.sent req)) [
        | inl same ↦
            let (r, answer, status) = honest.unchanged s.sent req same in
            let (e, found, tag) = names-tag url s.sent (lookup url s.own.etags) same in
            rw (answer) (cached-Reads url r e v sent status found (rw (tag) parses) kept)
        | inr other ↦
            let (r, answer, status, at, text) = honest.changed s.sent req other in
            rw (answer) (
              fresh-Reads url (o.tag s.sent url) r v sent status (ap nonempty at ∙ named) text
                parses kept)
      ]
