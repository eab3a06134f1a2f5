-- ===== src/Forge/Http.antt =====
-- The requests to a forge: src/forge/http.ts. The forge is a function of all requests so far. A client has a state of its
-- own, and a call ends with a value or throws a ForgeError. A rate header that is there is a number.
pub mod Pool
use status_pipe.Base.{
  ℕ, ◌*◌, ◌+◌, String, Bool, true, false, ◌||◌, Option, none, some, List, [], ◌∷◌, Dict, ltb, eqb,
  if◌then◌else◌, is_decimal, ◌^^◌,
}
use status_pipe.Protocol.Json.{Json, Engine}
use status_pipe.Forge.Budget.{RateInfo}
use status_pipe.Forge.Enricher.{ForgeFailure}

pub data Method : Type 0 where
  get post : Method

pub record HttpRequest : Type 0 where
  pub url : String
  pub method : Method
  pub headers : Dict String
  pub body : Option String

pub record HttpResponse : Type 0 where
  pub status : ℕ
  pub header : String → Option String
  pub body : String

-- What `fetch` does: it rejects, or gives a response.
pub data Fetched : Type 0 where
  rejected : (message : String) → Fetched
  answered : HttpResponse → Fetched

-- `fetch` after the requests so far (the latest first), the clock, `Number`, `String(n)`, `JSON.parse`,
-- `JSON.stringify(value)` and the base64 form of a text.
pub record Web : Type 0 where
  pub fetch : List HttpRequest → HttpRequest → Fetched
  pub now : List HttpRequest → ℕ
  pub to_number : String → ℕ
  pub show_number : ℕ → String
  pub js : Engine
  pub to_json : Json → String
  pub base64 : String → String

pub data Settled (A : Type 0) : Type 0 where
  ok : A → Settled A
  thrown : ForgeFailure → Settled A

pub record Session (S : Type 0) : Type 0 where
  pub own : S
  pub sent : List HttpRequest
  pub rates : List RateInfo

abbrev pub M : Type 0 → Type 0 → Type 0
M S A = Session S → Settled A × Session S

abbrev pub and_then : {A B S : Type 0} → Settled A × Session S → (A → M S B) → Settled B × Session S
and_then (ok a, s) f = f a s
and_then (thrown e, s) f = (thrown e, s)

infixl 5 ◌>>=◌ ◌>>◌
abbrev pub ◌>>=◌ : {A B S : Type 0} → M S A → (A → M S B) → M S B
◌>>=◌ m f s = and_then (m s) f

abbrev pub ◌>>◌ : {B S : Type 0} → M S (Unit {0}) → M S B → M S B
m >> k = m >>= λ _. k

abbrev pub pure : {A S : Type 0} → A → M S A
pure a s = (ok a, s)

abbrev pub throw : {A S : Type 0} → ForgeFailure → M S A
throw e s = (thrown e, s)

abbrev pub forge_error : String → String → ForgeFailure
forge_error kind message = record { kind = kind; message = message; retry_after = none }

abbrev pub settle : {A S : Type 0} → Settled A → M S A
settle r s = (r, s)

abbrev pub read_state : {S : Type 0} → M S S
read_state s = (ok s.own, s)

abbrev pub write_state : {S : Type 0} → S → M S (Unit {0})
write_state own s = (ok tt, record s { own = own })

abbrev number_of : Web → Option String → Option ℕ
number_of w none = none
number_of w (some text) = some (w.to_number text)

abbrev seconds_of : Option ℕ → Option ℕ
seconds_of none = none
seconds_of (some n) = some (n * 1000)

module _ (w : Web) where
  unfoldable pub read_rate_info : HttpResponse → RateInfo
  read_rate_info r = record {
    remaining = number_of w (r.header "x-ratelimit-remaining");
    limit = number_of w (r.header "x-ratelimit-limit");
    reset_at = seconds_of (number_of w (r.header "x-ratelimit-reset"));
  }

  abbrev pub retry_after_ms : ℕ → HttpResponse → Option ℕ
  retry_after_ms now r =
      let reset = (read_rate_info r).reset_at in
      elim (r.header "retry-after") [
        | none ↦ reset
        | some after ↦ if is_decimal after then some (now + w.to_number after * 1000) else reset
      ]

  abbrev rate_limit_error : ℕ → HttpResponse → ForgeFailure
  rate_limit_error now r = record {
    kind = "rate-limit";
    message = "rate limited (" ^^ w.show_number r.status ^^ ")";
    retry_after = retry_after_ms now r;
  }

  unfoldable pub status_to_forge_error : ℕ → HttpResponse → Option ForgeFailure
  unfolding read_rate_info
  status_to_forge_error now r =
      if ltb r.status 400
      then none
      else if eqb r.status 401
      then some (forge_error "auth" "authentication failed (401)")
      else if eqb r.status 404
      then some (forge_error "not-found" "not found (404)")
      else if eqb r.status 403 || eqb r.status 429
      then some (rate_limit_error now r)
      else some (forge_error "network" ("HTTP " ^^ w.show_number r.status))

  abbrev outcome : Fetched → Settled HttpResponse
  outcome (rejected message) = thrown (forge_error "network" message)
  outcome (answered r) = ok r

  -- `fetchHttpClient`
  abbrev pub http : {S : Type 0} → HttpRequest → M S HttpResponse
  http req s = (outcome (w.fetch s.sent req), record s { sent = req ∷ s.sent })

  abbrev pub note_rate : {S : Type 0} → HttpResponse → M S (Unit {0})
  note_rate r s = (ok tt, record s { rates = read_rate_info r ∷ s.rates })

  abbrev throw_if : {S : Type 0} → Option ForgeFailure → M S (Unit {0})
  throw_if none s = (ok tt, s)
  throw_if (some e) s = (thrown e, s)

  -- `if (error) throw error`, of the status.
  abbrev pub check_status : {S : Type 0} → HttpResponse → M S (Unit {0})
  check_status r s = throw_if (status_to_forge_error (w.now s.sent) r) s
