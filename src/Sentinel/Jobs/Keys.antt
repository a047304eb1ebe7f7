-- ===== src/Sentinel/Jobs/Keys.antt =====
-- The keys of `buildJobs` (cmd/sentinel/probe.go) tell jobs apart.
use chain_registry_sentinel.Base.{
  ◌≡◌, refl, sym, String, false, Option, some, none, ap, ◌∙◌, str_eq, if◌then◌else◌,
}
use mathlib.Core.Option.{some-injective}
use text.Mathlib.TextLemmas.{append_assoc, cons-append, nil-append}
use chain_registry_sentinel.Base.Text.{cut, has_char, cut-append}
use chain_registry_sentinel.Sentinel.Jobs.{
  EndpointType, type_rpc, type_rest, type_grpc_web, type_grpc, type_evm, type_wss, type_string,
  job_key,
}

-- The type that a text names.
abbrev type_of : String → Option EndpointType
type_of s =
    if str_eq s "rpc"
    then some type_rpc
    else if str_eq s "rest"
    then some type_rest
    else if str_eq s "grpc-web"
    then some type_grpc_web
    else if str_eq s "grpc"
    then some type_grpc
    else if str_eq s "evm"
    then some type_evm
    else if str_eq s "wss"
    then some type_wss
    else none

type_of-type_string : (t : EndpointType) → type_of (type_string t) ≡ some t
unfolding type_string
type_of-type_string type_rpc = refl
type_of-type_string type_rest = refl
type_of-type_string type_grpc_web = refl
type_of-type_string type_grpc = refl
type_of-type_string type_evm = refl
type_of-type_string type_wss = refl

no_bar : (t : EndpointType) → has_char (type_string t) b'|' ≡ false
unfolding type_string has_char
no_bar type_rpc = refl
no_bar type_rest = refl
no_bar type_grpc_web = refl
no_bar type_grpc = refl
no_bar type_evm = refl
no_bar type_wss = refl

cut-job_key :
    (t : EndpointType) (address : String)
    → cut (job_key t address) b'|' ≡ some (type_string t, address)
unfolding job_key
cut-job_key t address =
    rw (append_assoc (type_string t) "|" address, cons-append "|" "" address, nil-append address)
      (cut-append (type_string t) address "|" (no_bar t))

-- A key stands for one type and one address.
pub job_key-injective :
    (t u : EndpointType) (a b : String) → job_key t a ≡ job_key u b → (t ≡ u) × (a ≡ b)
job_key-injective t u a b e =
    let parts : (type_string t, a) ≡ (type_string u, b) =
      some-injective _ _ (sym (cut-job_key t a) ∙ ap (λ k. cut k b'|') e ∙ cut-job_key u b) in
    let types = some-injective _ _ (
      sym (type_of-type_string t)
      ∙ ap (λ (p : String × String). type_of p.0) parts
      ∙ type_of-type_string u) in
    (types, ap (λ (p : String × String). p.1) parts)
