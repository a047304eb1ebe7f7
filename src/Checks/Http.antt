-- ===== src/Checks/Http.antt =====
-- internal/checks/http.go: the probes' HTTP client. net/http, encoding/json, fmt and the clock are
-- arguments; what the network answers is drawn from its state.
pub mod Sound
use Prim.Native.Char.{Char, code}
use Prim.Native.String
use Prim.Native.String.{String}
use chain_registry_sentinel.Base.{
  ℕ, Bool, true, false, Option, none, some, List, [], ◌∷◌, ◌||◌, ◌==◌, str_eq, if◌then◌else◌,
}
use chain_registry_sentinel.Base.Int.{ℤ, pos}
use chain_registry_sentinel.Base.Map.{Dict, lookup, insert, or_zero}
use chain_registry_sentinel.Base.Text.{◌+s◌}
use chain_registry_sentinel.Base.Time.{Duration}
use chain_registry_sentinel.Base.Trim.{is_control, trim_space}
use chain_registry_sentinel.Checks.Error.{GoError, errorf, wrap}
use chain_registry_sentinel.Github.Outcome.{Outcome, ok, err}
use chain_registry_sentinel.Github.Call.{Answer, not_built, not_answered, answered}

pub data Verb : Type 0 where
  get_verb post_verb : Verb

-- A request with its headers and its body, which the probes write as a text or as bytes.
pub record HttpRequest : Type 0 where
  pub verb : Verb
  pub url : String
  pub headers : Dict String
  pub text : String
  pub bytes : List ℕ

pub record Http : Type 1 where
  pub State : Type 0
  pub Body : Type 0
  -- The transport of `http.DefaultTransport`, from `NewRequestWithContext` on.
  pub round_trip : HttpRequest → State → Answer Body × State
  -- `time.Since`, from one state to a later one.
  pub since : State → State → Duration
  -- `io.ReadAll(io.LimitReader(body, n))`: the text that was read, and the error behind it.
  pub read_limited : ℕ → Body → String × Option GoError
  -- `%d` of a status.
  pub decimal : ℕ → String

-- `uaTransport.RoundTrip`: the header is set where the request has none.
unfoldable pub identify : String → HttpRequest → HttpRequest
identify ua req =
    if str_eq (or_zero "" (lookup "User-Agent" req.headers)) ""
    then record req { headers = insert "User-Agent" ua req.headers }
    else req

-- The `switch` of `strings.Map` at a character, before the rest of the text.
abbrev flatten_char : Char → String → String
flatten_char c rest =
    if code c == 10 || code c == 13 || code c == 9
    then String.◌∷◌ " " rest
    else if is_control (code c)
    then rest
    else String.◌∷◌ c rest

unfoldable pub flatten : String → String
flatten String.[] = ""
flatten (String.◌∷◌ c s) = flatten_char c (flatten s)

abbrev pub max_body_prefix : ℕ
max_body_prefix = 512

pub record HttpResult : Type 0 where
  -- 0 when no response arrived.
  pub status_code : ℕ
  pub body : String
  pub latency : Duration
  pub error : Option GoError
  pub net_err : Bool

abbrev pub no_result : HttpResult
no_result = record { status_code = 0; body = ""; latency = pos 0; error = none; net_err = false }

module _ (H : Http) where
  -- The transport of `NewHTTPClient`: the plain one, or the one that identifies itself.
  unfoldable pub client_send : String → HttpRequest → H.State → Answer H.Body × H.State
  client_send ua req s =
      if str_eq ua "" then H.round_trip req s else H.round_trip (identify ua req) s

  abbrev pub kept_prefix : String → Option GoError → String
  kept_prefix read (some e) = if str_eq read "" then "" else trim_space (flatten read)
  kept_prefix read none = trim_space (flatten read)

  unfoldable pub read_body_prefix : H.Body → String
  read_body_prefix body =
      let (read, error) = H.read_limited max_body_prefix body in kept_prefix read error

  -- What `httpGetJSON` makes of an answer, and `dest` when it was decoded.
  module _ {D : Type 0} (decode : H.Body → Outcome D) where
    abbrev pub of_decode : ℕ → Outcome D → HttpResult × Option D
    of_decode code (ok d) = (record no_result { status_code = code }, some d)
    of_decode code (err e) =
        (record no_result { status_code = code; error = some (wrap "decode: " e) }, none)

    unfoldable pub read_answer : Answer H.Body → HttpResult × Option D
    unfolding errorf
    read_answer (not_built e) = (record no_result { error = some e }, none)
    read_answer (not_answered e) = (record no_result { error = some e; net_err = true }, none)
    read_answer (answered code body) = if code == 200 then of_decode code (decode body) else (
      record no_result {
        status_code = code;
        body = read_body_prefix body;
        error = some (errorf ("HTTP " +s H.decimal code));
      },
      none,
    )

    unfoldable pub http_get_json : String → String → H.State → (HttpResult × Option D) × H.State
    http_get_json ua url s =
        let (answer, t) =
          client_send ua
            (record { verb = get_verb; url = url; headers = []; text = ""; bytes = [] }) s in
        let (res, dest) = read_answer answer in ((record res { latency = H.since s t }, dest), t)
