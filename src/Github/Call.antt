-- ===== src/Github/Call.antt =====
-- internal/github/client.go: one call of the API (`do`), and actions that call it and may fail. What
-- the network answers is an argument; the requests that were sent are kept beside its state.
use chain_registry_sentinel.Base.{ℕ, String, Option, List, ◌∷◌, ltb, if◌then◌else◌}
use chain_registry_sentinel.Base.Int.{ℤ}
use chain_registry_sentinel.Base.Time.{Time}
use chain_registry_sentinel.Checks.Error.{GoError, wrap}
use chain_registry_sentinel.Github.Outcome.{Outcome, ok, err, wrap_outcome}

pub data Method : Type 0 where
  get post put : Method

-- The request bodies: none, a JSON object of texts, or the labels of `AddLabels`.
pub data Payload : Type 0 where
  no_body : Payload
  fields : List (String × String) → Payload
  label_list : List String → Payload

pub record Request : Type 0 where
  pub method : Method
  pub path : String
  pub body : Payload

-- What comes back: no request was built, none was answered, or a status with a body.
pub data Answer (Body : Type 0) : Type 0 where
  not_built not_answered : GoError → Answer Body
  answered : ℕ → Body → Answer Body

-- The network and GitHub behind it, and `json.Decode` into each struct that the client reads.
pub record Network : Type 1 where
  pub State : Type 0
  pub Body : Type 0
  pub send : State → Request → Answer Body × State
  pub read_default_branch : Body → Outcome String
  pub read_object_sha : Body → Outcome String
  pub read_refs : Body → Outcome (List String)
  pub read_total_count : Body → Outcome ℤ
  pub read_item_numbers : Body → Outcome (List ℤ)
  pub read_content : Body → Outcome (String × String)
  pub read_pull : Body → Outcome (ℤ × String)

-- What the client and the texts of the pull requests use of fmt, strconv, net/url, encoding/base64
-- and time: `%d`, `%q`, `Atoi`, `QueryEscape`, the two directions of base64, and two date formats.
pub record Formats : Type 0 where
  pub decimal : ℤ → String
  pub quote : String → String
  pub atoi : String → Option ℤ
  pub query_escape : String → String
  pub base64_encode : String → String
  pub base64_decode : String → Outcome String
  pub date : Time → String
  pub rfc3339 : Time → String

module _ (N : Network) where
  -- The state of the network, and the requests that were sent, the last one first.
  pub record Session : Type 0 where
    pub network : N.State
    pub sent : List Request

  abbrev pub Exec {ℓ} : Type ℓ → Type ℓ
  Exec A = Session → Outcome A × Session

  abbrev pub pure {ℓ} : {A : Type ℓ} → A → Exec A
  pure a s = (ok a, s)

  abbrev pub raise {ℓ} : {A : Type ℓ} → GoError → Exec A
  raise e s = (err e, s)

  abbrev pub continue {ℓ κ} : {A : Type ℓ} {B : Type κ} → Outcome A → (A → Exec B) → Exec B
  continue (ok a) f s = f a s
  continue (err e) f s = (err e, s)

  unfoldable pub wrapped {ℓ} : {A : Type ℓ} → String → Exec A → Exec A
  wrapped prefix m s = let (r, s') = m s in (wrap_outcome prefix r, s')

  -- The status, and the value that was decoded, where the status asks for it.
  abbrev pub decoded {ℓ} : {A : Type ℓ} → ℕ → A → Outcome A → Outcome (ℕ × A)
  decoded status zero_value (ok a) = ok (status, a)
  decoded status zero_value (err e) = err (wrap "github.do: decode: " e)

  abbrev pub answer_of {ℓ} :
      {A : Type ℓ}
      → (N.Body → Outcome A)
      → A
      → Request
      → List Request
      → Answer N.Body × N.State
      → Outcome (ℕ × A) × Session
  answer_of read zero_value r sent (not_built e, w) =
      (err (wrap "github.do: build request: " e), record { network = w; sent = sent })
  answer_of read zero_value r sent (not_answered e, w) =
      (err (wrap "github.do: " e), record { network = w; sent = r ∷ sent })
  answer_of read zero_value r sent (answered status body, w) = (
    if ltb status 300 then decoded status zero_value (read body) else ok (status, zero_value),
    record { network = w; sent = r ∷ sent },
  )

  -- `do`. A destination that is nil reads nothing and decodes nothing.
  unfoldable pub call {ℓ} : {A : Type ℓ} → (N.Body → Outcome A) → A → Request → Exec (ℕ × A)
  call read zero_value r s = answer_of read zero_value r s.sent (N.send s.network r)

  abbrev pub no_destination : N.Body → Outcome (Unit {0})
  no_destination body = ok tt

module _ {ℓ κ} {N : Network} {A : Type ℓ} {B : Type κ} where
  infixl 10 ◌>>=◌ ◌>>◌
  unfoldable pub ◌>>=◌ : Exec N A → (A → Exec N B) → Exec N B
  ◌>>=◌ m f s = let (r, s') = m s in continue N r f s'

  abbrev pub ◌>>◌ : Exec N A → Exec N B → Exec N B
  m >> n = m >>= λ _. n
