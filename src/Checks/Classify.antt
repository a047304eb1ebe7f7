-- ===== src/Checks/Classify.antt =====
-- internal/checks/classify.go: `Classify` and the functions that it tries in turn.
use chain_registry_sentinel.Base.{
  ℕ, String, Bool, true, false, ◌&&◌, ◌||◌, Option, none, some, leb, ltb, ◌==◌, if◌then◌else◌,
  str_eq,
}
use chain_registry_sentinel.Base.Text.{◌+s◌, contains, has_prefix, has_suffix, contains_lower}
use chain_registry_sentinel.Checks.Error.{GoError}
use chain_registry_sentinel.Checks.FailureClass.{
  FailureClass, class_none, dns_nx_domain, conn_refused, net_unreachable, tls_expired, tls_hostname,
  tls_untrusted, tls_unrecognized, http_404, cf_origin_down, gateway_no_backend, bad_json,
  eof_no_response, malformed_address, not_served_by_provider, dns_failure, vantage_no_route,
  timeout, tls_handshake_slow, conn_reset, tls_other, http_401, http_403, http_429, http_451,
  http_5xx_server, http_3xx, http_other, grpc_unavailable, grpc_permission, grpc_unimplemented,
  grpc_exhausted, grpc_internal, grpc_unauth, grpc_other, bad_protocol, wss_handshake,
  chain_id_mismatch, other, ◌or_class◌,
}

unfoldable pub provider_message : String → String → FailureClass
provider_message body msg =
    if contains_lower (body +s " " +s msg) "unsupported platform"
    then not_served_by_provider
    else class_none

abbrev dns_class : Bool → FailureClass
dns_class true = dns_nx_domain
dns_class false = dns_failure

-- The text fallbacks of `classifyDNS`, for a resolver that has no structured error.
unfoldable pub dns_text : String → FailureClass
dns_text msg =
    if contains msg "produced zero addresses" || contains msg "no such host"
    then dns_nx_domain
    else if contains msg "server misbehaving" || contains msg "Temporary failure in name resolution"
    then dns_failure
    else class_none

unfoldable pub classify_dns : GoError → String → FailureClass
classify_dns err msg = elim err.dns_error [
  | some is_not_found ↦ dns_class is_not_found
  | none ↦ dns_text msg
]

-- The text fallbacks of `classifySyscall`.
unfoldable pub syscall_text : String → FailureClass
syscall_text msg =
    if contains msg "connection refused"
    then conn_refused
    else if contains msg "connection reset by peer"
    then conn_reset
    else if contains msg "no route to host"
    then net_unreachable
    else if contains msg "network is unreachable"
    then vantage_no_route
    else class_none

unfoldable pub classify_syscall : GoError → String → FailureClass
classify_syscall err msg =
    if err.econnrefused
    then conn_refused
    else if err.econnreset
    then conn_reset
    else if err.ehostunreach
    then net_unreachable
    else if err.enetunreach
    then vantage_no_route
    else syscall_text msg

abbrev certificate_class : Bool → FailureClass
certificate_class true = tls_expired
certificate_class false = tls_other

-- The alerts that arrive as text only.
unfoldable pub tls_text : String → FailureClass
tls_text msg =
    if contains msg "tls: unrecognized name"
    then tls_unrecognized
    else if contains msg "certificate has expired" || contains msg "certificate is not yet valid"
    then tls_expired
    else if contains msg "certificate is valid for" || contains msg "not valid for any names"
    then tls_hostname
    else if contains msg "signed by unknown authority"
    then tls_untrusted
    else if contains msg "tls: " || contains msg "x509:"
    then tls_other
    else class_none

unfoldable pub classify_tls : GoError → String → FailureClass
classify_tls err msg =
    if err.hostname_error
    then tls_hostname
    else if err.unknown_authority
    then tls_untrusted
    else elim err.certificate_invalid [
      | some expired ↦ certificate_class expired
      | none ↦ if err.certificate_verification then tls_other else tls_text msg
    ]

-- `errors.As(err, &netErr) && netErr.Timeout()`.
abbrev pub timed_out : GoError → Bool
timed_out err = elim err.net_error [ none ↦ false | some t ↦ t ]

-- The three timeout tests of `Classify`, in order.
unfoldable pub classify_timeout : GoError → String → FailureClass
classify_timeout err msg =
    if contains msg "TLS handshake timeout"
    then tls_handshake_slow
    else if timed_out err
    then timeout
    else if contains msg "context deadline exceeded" || contains msg "i/o timeout"
    then timeout
    else class_none

unfoldable pub classify_http_status : ℕ → FailureClass
classify_http_status code =
    if code == 0
    then class_none
    else if code == 401
    then http_401
    else if code == 403
    then http_403
    else if code == 404
    then http_404
    else if code == 429
    then http_429
    else if code == 451
    then http_451
    else if leb 521 code && leb code 526 || code == 530
    then cf_origin_down
    else if code == 502 || code == 503 || code == 504
    then gateway_no_backend
    else if leb 500 code
    then http_5xx_server
    else if leb 300 code && ltb code 400
    then http_3xx
    else http_other

unfoldable pub classify_payload : String → FailureClass
classify_payload msg =
    if has_prefix msg "decode:" || contains msg "decode response:"
    then bad_json
    else if has_prefix msg "got="
    then chain_id_mismatch
    else if contains msg "unsupported protocol scheme"
        || contains msg "in host name"
        || contains msg "no Host in request URL"
    then malformed_address
    else if has_suffix msg ": EOF" || str_eq msg "EOF"
    then eof_no_response
    else if contains msg "unexpected EOF" || contains msg "malformed HTTP"
    then bad_protocol
    else if contains msg "bad handshake" || contains msg "websocket:"
    then wss_handshake
    else class_none

unfoldable pub classify_grpc : String → FailureClass
classify_grpc msg =
    if contains msg "code = Unavailable"
    then grpc_unavailable
    else if contains msg "code = PermissionDenied"
    then grpc_permission
    else if contains msg "code = Unimplemented"
    then grpc_unimplemented
    else if contains msg "code = ResourceExhausted"
    then grpc_exhausted
    else if contains msg "code = Internal"
    then grpc_internal
    else if contains msg "code = Unauthenticated"
    then grpc_unauth
    else if contains msg "rpc error"
    then grpc_other
    else class_none

-- `Classify`; `none` is a nil error.
unfoldable pub classify : Option GoError → ℕ → String → FailureClass
classify none status_code body = class_none
classify (some err) status_code body =
    provider_message body err.message
    or_class classify_dns err err.message
    or_class classify_syscall err err.message
    or_class classify_tls err err.message
    or_class classify_timeout err err.message
    or_class classify_http_status status_code
    or_class classify_payload err.message
    or_class classify_grpc err.message
    or_class other
