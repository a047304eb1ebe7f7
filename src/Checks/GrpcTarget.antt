-- ===== src/Checks/GrpcTarget.antt =====
-- internal/checks/grpc.go: `ParseGRPCTarget`, the target and the modes that the probe dials. net and
-- net/url are arguments.
use chain_registry_sentinel.Base.{String, Bool, true, false, List, [], ◌∷◌, str_eq, if◌then◌else◌}
use chain_registry_sentinel.Base.Text.{◌+s◌, contains}
use chain_registry_sentinel.Checks.Error.{wrap}
use chain_registry_sentinel.Github.Outcome.{Outcome, ok, err}

-- A parsed address: its scheme, `Hostname()` and `Port()`.
pub record Url : Type 0 where
  pub scheme : String
  pub host : String
  pub port : String

pub record Addresses : Type 0 where
  -- `url.Parse`.
  pub parse : String → Outcome Url
  -- `net.SplitHostPort` and `net.JoinHostPort`.
  pub split_host_port : String → Outcome (String × String)
  pub join_host_port : String → String → String
  -- `fmt.Sprintf("%q", ...)`.
  pub quoted : String → String

-- The target, and whether each dial in turn uses TLS.
pub record Target : Type 0 where
  pub target : String
  pub modes : List Bool

abbrev pub tls_only : List Bool
tls_only = true ∷ []

abbrev pub plain_only : List Bool
plain_only = false ∷ []

abbrev pub tls_first : List Bool
tls_first = true ∷ false ∷ []

abbrev pub is_https : Url → Bool
is_https u = str_eq u.scheme "https"

-- The port of an address with a scheme.
unfoldable pub port_of : Url → String
port_of u = if str_eq u.port "" then (if is_https u then "443" else "9090") else u.port

module _ (A : Addresses) where
  unfoldable pub of_url : Outcome Url → String → Outcome Target
  unfolding port_of
  of_url (err e) address = err (wrap ("parse " +s A.quoted address +s ": ") e)
  of_url (ok u) address = ok (record {
    target = A.join_host_port u.host (port_of u);
    modes = if is_https u then tls_only else plain_only;
  })

  abbrev pub of_host_port : Outcome (String × String) → String → Outcome Target
  of_host_port (err e) address =
      ok (record { target = A.join_host_port address "443"; modes = tls_only })
  of_host_port (ok (host, port)) address =
      ok (record { target = address; modes = if str_eq port "443" then tls_only else tls_first })

  unfoldable pub parse_grpc_target : String → Outcome Target
  unfolding of_url
  parse_grpc_target address =
      if contains address "://"
      then of_url (A.parse address) address
      else of_host_port (A.split_host_port address) address
