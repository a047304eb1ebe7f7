-- ===== src/Checks/Http/Sound.antt =====
-- What internal/checks/http.go makes of a response: its body's prefix, and its error and status.
use Prim.Native.String.{String}
use chain_registry_sentinel.Base.{
  ℕ, ◌≡◌, ◌≢◌, refl, Bool, true, false, not, Option, none, some, arith, str_eq, if◌then◌else◌,
}
use chain_registry_sentinel.Base.Trim.{
  is_control, is_space, trim_space, trim_left, every_char, every_char-nil, every_char-trim_left,
  every_char-trim_right,
}
use chain_registry_sentinel.Checks.Error.{GoError}
use chain_registry_sentinel.Checks.Http.{
  Http, HttpResult, flatten, read_body_prefix, read_answer, http_get_json, max_body_prefix,
  kept_prefix,
}
use chain_registry_sentinel.Github.Outcome.{Outcome}
use chain_registry_sentinel.Github.Call.{Answer, not_built, not_answered, answered}

abbrev pub printable : ℕ → Bool
printable c = not (is_control c)

flatten-every_char : (s : String) → every_char printable (flatten s) ≡ true
unfolding flatten is_control every_char
flatten-every_char String.[] = refl
flatten-every_char (String.◌∷◌ c s) = ground (arith, flatten-every_char s)

trim_space-every_char : (s : String) → every_char printable (trim_space (flatten s)) ≡ true
unfolding trim_space
trim_space-every_char s =
    every_char-trim_right printable is_space (trim_left is_space (flatten s))
      (every_char-trim_left printable is_space (flatten s) (flatten-every_char s))

module _ (H : Http) where
  -- The retained prefix of a body has no control character, so no line break either.
  pub read_body_prefix-every_char :
      (body : H.Body) → every_char printable (read_body_prefix H body) ≡ true
  unfolding read_body_prefix
  read_body_prefix-every_char body =
      kept (H.read_limited max_body_prefix body).0 (H.read_limited max_body_prefix body).1
    where
      kept :
          (read : String) (error : Option GoError)
          → every_char printable (kept_prefix H read error) ≡ true
      kept read (some e) = kept_if (str_eq read "")
        where
          kept_if :
              (b : Bool) → every_char printable (if b then "" else trim_space (flatten read)) ≡ true
          kept_if true = every_char-nil printable
          kept_if false = trim_space-every_char read
      kept read none = trim_space-every_char read

-- What `httpGetJSON` reports: the error of a failed transport has no status and no body, and without
-- an error the status was 200.
pub record IsRead (res : HttpResult) : Type 0 where
  pub no_connection :
      res.net_err ≡ true → (res.error ≢ none) × (res.status_code ≡ 0) × (res.body ≡ "")
  pub read : res.error ≡ none → (res.status_code ≡ 200) × (res.body ≡ "")
  pub one_line : every_char printable res.body ≡ true

module _ (H : Http) {D : Type 0} (decode : H.Body → Outcome D) where
  pub read_answer-IsRead : (a : Answer H.Body) → IsRead (read_answer H decode a).0
  unfolding read_answer
  read_answer-IsRead (not_built e) = ground (arith, every_char-nil printable)
  read_answer-IsRead (not_answered e) = ground (arith, every_char-nil printable)
  read_answer-IsRead (answered status body) =
      ground (arith, every_char-nil printable, read_body_prefix-every_char H body)

  pub read_answer-decoded :
      (a : Answer H.Body)
      → (read_answer H decode a).0.error ≡ none
      → (read_answer H decode a).1 ≢ none
  unfolding read_answer
  read_answer-decoded (not_built e) = ground arith
  read_answer-decoded (not_answered e) = ground arith
  read_answer-decoded (answered status body) = ground arith

  pub http_get_json-IsRead :
      (ua url : String) (s : H.State) → IsRead (http_get_json H decode ua url s).0.0
  unfolding http_get_json
  http_get_json-IsRead ua url s =
      let read = read_answer-IsRead _ in
      record { no_connection = read.no_connection; read = read.read; one_line = read.one_line }

  pub http_get_json-decoded :
      (ua url : String) (s : H.State)
      → (http_get_json H decode ua url s).0.0.error ≡ none
      → (http_get_json H decode ua url s).0.1 ≢ none
  unfolding http_get_json
  http_get_json-decoded ua url s = read_answer-decoded _
