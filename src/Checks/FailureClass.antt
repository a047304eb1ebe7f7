-- ===== src/Checks/FailureClass.antt =====
-- internal/checks/classify.go: the failure classes, their texts and the structural ones.
use chain_registry_sentinel.Base.{String, Bool, true, false}

pub data FailureClass : Type 0 where
  class_none dns_nx_domain conn_refused net_unreachable tls_expired : FailureClass
  tls_hostname tls_untrusted tls_unrecognized http_404 cf_origin_down : FailureClass
  gateway_no_backend bad_json eof_no_response malformed_address : FailureClass
  not_served_by_provider dns_failure vantage_no_route timeout tls_handshake_slow : FailureClass
  conn_reset tls_other http_401 http_403 http_429 http_451 http_5xx_server : FailureClass
  http_3xx http_other grpc_unavailable grpc_permission grpc_unimplemented : FailureClass
  grpc_exhausted grpc_internal grpc_unauth grpc_other bad_protocol : FailureClass
  wss_handshake chain_id_mismatch other : FailureClass

-- The text that stands in records and state files.
unfoldable pub class_text : FailureClass → String
class_text class_none = ""
class_text dns_nx_domain = "dns_nxdomain"
class_text conn_refused = "conn_refused"
class_text net_unreachable = "net_unreachable"
class_text tls_expired = "tls_expired"
class_text tls_hostname = "tls_hostname"
class_text tls_untrusted = "tls_untrusted"
class_text tls_unrecognized = "tls_unrecognized_name"
class_text http_404 = "http_404"
class_text cf_origin_down = "cf_origin_down"
class_text gateway_no_backend = "gateway_no_backend"
class_text bad_json = "bad_json"
class_text eof_no_response = "eof_no_response"
class_text malformed_address = "malformed_registry_address"
class_text not_served_by_provider = "not_served_by_provider"
class_text dns_failure = "dns_failure"
class_text vantage_no_route = "vantage_no_route"
class_text timeout = "timeout"
class_text tls_handshake_slow = "timeout_tls_handshake"
class_text conn_reset = "conn_reset"
class_text tls_other = "tls_other"
class_text http_401 = "http_401"
class_text http_403 = "http_403"
class_text http_429 = "http_429"
class_text http_451 = "http_451"
class_text http_5xx_server = "http_5xx_server"
class_text http_3xx = "http_3xx"
class_text http_other = "http_other"
class_text grpc_unavailable = "grpc_unavailable"
class_text grpc_permission = "grpc_permission_denied"
class_text grpc_unimplemented = "grpc_unimplemented"
class_text grpc_exhausted = "grpc_resource_exhausted"
class_text grpc_internal = "grpc_internal"
class_text grpc_unauth = "grpc_unauthenticated"
class_text grpc_other = "grpc_other"
class_text bad_protocol = "bad_protocol"
class_text wss_handshake = "wss_handshake"
class_text chain_id_mismatch = "chain_id_mismatch"
class_text other = "other"

-- The keys of `structuralClasses`.
unfoldable pub is_structural : FailureClass → Bool
is_structural dns_nx_domain = true
is_structural conn_refused = true
is_structural net_unreachable = true
is_structural tls_expired = true
is_structural tls_hostname = true
is_structural tls_untrusted = true
is_structural tls_unrecognized = true
is_structural http_404 = true
is_structural cf_origin_down = true
is_structural gateway_no_backend = true
is_structural bad_json = true
is_structural eof_no_response = true
is_structural malformed_address = true
is_structural not_served_by_provider = true
is_structural _ = false

-- `c == ClassNone`.
abbrev pub is_class_none : FailureClass → Bool
is_class_none class_none = true
is_class_none _ = false

-- `if c := …; c != ClassNone { return c }`, with the rest of the function behind it.
infixr 20 ◌or_class◌
abbrev pub ◌or_class◌ : FailureClass → FailureClass → FailureClass
class_none or_class d = d
c or_class _ = c
