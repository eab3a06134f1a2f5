-- ===== src/Tests/Clients.antt =====
-- The clients of the forges at small inputs.
use status_pipe.Base.{
  String, refl, none, some, List, [], ◌∷◌, ◌==◌, ◌≡◌, arith, includes, lookup, if◌then◌else◌,
}
use status_pipe.Protocol.Json.{Object, good, text, array, item, no_items}
use status_pipe.Protocol.Json.Writing.{written}
use status_pipe.Forge.Http.{Web, HttpResponse, answered, Session, ok}
use status_pipe.Forge.Clients.Bitbucket.{
  BitbucketRepository, BitbucketConfig, new_repository, get_json, walked, get_paged,
}
use status_pipe.Forge.Clients.Bitbucket.Caching.{
  Origin, says_unchanged, Honest, KeepsTags, Reads, get_json-Reads,
}
use status_pipe.Forge.Clients.Bitbucket.Paging.{Pages, get_paged-all}
use status_pipe.Forge.Http.Pool.{PoolEvent, runs, ends, new_pool, pool_run}
use status_pipe.Forge.Http.Pool.Laws.{PoolInv, arrivals, pool_run-PoolInv}

-- Three requests at a limit of two; the first ends.
abbrev requests : List PoolEvent
requests = runs 1 ∷ runs 2 ∷ runs 3 ∷ ends 1 ∷ []

pool_run-PoolInv_example : PoolInv (pool_run requests (new_pool 2)) (arrivals requests)
pool_run-PoolInv_example = pool_run-PoolInv 2 requests

abbrev origin : Origin
origin = record { tag = λ log url. "v1"; content = λ url tag. "body" }

abbrev unchanged_response : HttpResponse
unchanged_response = record { status = 304; header = λ name. none; body = "" }

abbrev full_response : HttpResponse
full_response = record { status = 200; header = λ name. some "v1"; body = "body" }

abbrev web : Web
web = record {
  fetch = λ log req.
      if says_unchanged origin log req then answered unchanged_response else answered full_response;
  now = λ log. 1000;
  to_number = λ s. 0;
  show_number = λ n. "n";
  js = record {
    json_parse = λ t. good (written (("title", text "A") ∷ []));
    stringify = λ v. "";
    to_text = λ v. "";
  };
  to_json = λ v. "";
  base64 = λ s. s;
}

web-Honest : Honest web origin
web-Honest = record {
  unchanged = λ log req same. (unchanged_response, rw (same) refl, refl);
  changed = λ log req other. (full_response, rw (other) refl, refl, refl, refl);
}

abbrev config : BitbucketConfig
config = record { api_url = "/api"; slug = "a/b"; username = none; token = "t" }

abbrev opened : Session BitbucketRepository
opened = record { own = new_repository; sent = []; rates = [] }

opened-KeepsTags : (o : Origin) → KeepsTags o opened.own
unfolding lookup
opened-KeepsTags o url e found = absurd (cc)

-- The second read of a pull request.
abbrev read_once : Session BitbucketRepository
read_once = (get_json web config "/pr/5" opened).1

read_once-KeepsTags : KeepsTags origin read_once.own
read_once-KeepsTags =
    (get_json-Reads web config origin web-Honest "/pr/5" (("title", text "A") ∷ []) opened refl refl
      (opened-KeepsTags origin)).1

get_json-Reads_example :
    Reads origin (("title", text "A") ∷ []) (get_json web config "/pr/5" read_once)
get_json-Reads_example =
    get_json-Reads web config origin web-Honest "/pr/5" (("title", text "A") ∷ []) read_once refl
      refl read_once-KeepsTags

-- A list of two pages.
abbrev first_page : Object
first_page = ("values", array (item (text "A") no_items)) ∷ ("next", text "/next") ∷ []

abbrev second_page : Object
second_page = ("values", array (item (text "B") no_items)) ∷ []

abbrev listing : Origin
listing = record {
  tag = λ log url. "v1";
  content = λ url tag. if url == "/next" then "second" else "first";
}

abbrev listing_response : String → HttpResponse
listing_response url = record {
  status = 200;
  header = λ name. some "v1";
  body = if url == "/next" then "second" else "first";
}

abbrev listing_web : Web
listing_web = record web {
  fetch = λ log req.
      if says_unchanged listing log req
      then answered unchanged_response
      else answered (listing_response req.url);
  js = record {
    json_parse =
        λ t. if t == "first" then good (written first_page) else good (written second_page);
    stringify = λ v. "";
    to_text = λ v. "";
  };
}

listing-Honest : Honest listing_web listing
listing-Honest = record {
  unchanged = λ log req same. (unchanged_response, rw (same) refl, refl);
  changed = λ log req other. (listing_response req.url, rw (other) refl, refl, refl, refl);
}

listing-Pages :
    Pages listing_web config listing 2 "/comments?pagelen=100" (text "A" ∷ text "B" ∷ [])
unfolding Pages lookup
listing-Pages = (
  first_page,
  (λ log. (refl, refl)),
  (text "B" ∷ [], (second_page, (λ log. (refl, refl)), refl), refl),
)

get_paged-all_example :
    (get_paged listing_web config 2 "/comments" opened).0 ≡ ok (walked (text "A" ∷ text "B" ∷ []))
unfolding includes
get_paged-all_example =
    get_paged-all listing_web config listing listing-Honest 2 2 "/comments"
      (text "A" ∷ text "B" ∷ []) opened (omega arith) listing-Pages (opened-KeepsTags listing)
