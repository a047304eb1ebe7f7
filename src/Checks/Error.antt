-- ===== src/Checks/Error.antt =====
-- The Go error values that the probes produce, by what the program can observe of them: the text,
-- what `errors.As` and `errors.Is` find in the chain, and the gRPC status.
use chain_registry_sentinel.Base.{String, Bool, Option, false, none}
use chain_registry_sentinel.Base.Text.{◌+s◌}

-- The gRPC codes that the program tells apart.
pub data Code : Type 0 where
  unavailable deadline_exceeded canceled other_code : Code

pub record Status : Type 0 where
  pub code : Code
  pub message : String

pub record GoError : Type 0 where
  -- `Error()`.
  pub message : String
  -- A `*net.DNSError`, with its `IsNotFound`.
  pub dns_error : Option Bool
  pub econnrefused : Bool
  pub econnreset : Bool
  pub ehostunreach : Bool
  pub enetunreach : Bool
  -- An `x509.HostnameError`, an `x509.UnknownAuthorityError`.
  pub hostname_error : Bool
  pub unknown_authority : Bool
  -- An `x509.CertificateInvalidError`, with whether its reason is `Expired`.
  pub certificate_invalid : Option Bool
  -- A `*tls.CertificateVerificationError`.
  pub certificate_verification : Bool
  -- A `net.Error`, with its `Timeout()`.
  pub net_error : Option Bool
  -- `status.FromError`.
  pub grpc_status : Option Status

-- An error made by `fmt.Errorf` or `errors.New` with no error wrapped in it.
unfoldable pub errorf : String → GoError
errorf text = record {
  message = text;
  dns_error = none;
  econnrefused = false;
  econnreset = false;
  ehostunreach = false;
  enetunreach = false;
  hostname_error = false;
  unknown_authority = false;
  certificate_invalid = none;
  certificate_verification = false;
  net_error = none;
  grpc_status = none;
}

-- `fmt.Errorf("prefix%w", err)`: the text grows, and the chain keeps what it holds.
unfoldable pub wrap : String → GoError → GoError
wrap prefix err = record err { message = prefix +s err.message }
