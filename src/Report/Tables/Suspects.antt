-- ===== src/Report/Tables/Suspects.antt =====
-- The texts of the classes that speak against the machine that probes (internal/report/render.go).
use chain_registry_sentinel.Base.{
  ◌≡◌, refl, sym, subst, inl, inr, String, Bool, false, ◌&&◌, ◌||◌, str_eq, eq_iff, Bool-cases,
}
use chain_registry_sentinel.Checks.FailureClass.{
  FailureClass, class_none, dns_nx_domain, conn_refused, net_unreachable, tls_expired, tls_hostname,
  tls_untrusted, tls_unrecognized, http_404, cf_origin_down, gateway_no_backend, bad_json,
  eof_no_response, malformed_address, not_served_by_provider, dns_failure, vantage_no_route,
  timeout, tls_handshake_slow, conn_reset, tls_other, http_401, http_403, http_429, http_451,
  http_5xx_server, http_3xx, http_other, grpc_unavailable, grpc_permission, grpc_unimplemented,
  grpc_exhausted, grpc_internal, grpc_unauth, grpc_other, bad_protocol, wss_handshake,
  chain_id_mismatch, other, class_text,
}
use chain_registry_sentinel.Sentinel.ChainDeath.{is_suspect}

abbrev pub is_suspect_text : String → Bool
is_suspect_text t = str_eq t "dns_failure" || str_eq t "vantage_no_route"

-- The classes that `vantageSuspect` (cmd/sentinel/chaindeath.go) counts, by their texts.
pub suspect_text : (c : FailureClass) → is_suspect c ≡ is_suspect_text (class_text c)
unfolding class_text
suspect_text class_none = refl
suspect_text dns_nx_domain = refl
suspect_text conn_refused = refl
suspect_text net_unreachable = refl
suspect_text tls_expired = refl
suspect_text tls_hostname = refl
suspect_text tls_untrusted = refl
suspect_text tls_unrecognized = refl
suspect_text http_404 = refl
suspect_text cf_origin_down = refl
suspect_text gateway_no_backend = refl
suspect_text bad_json = refl
suspect_text eof_no_response = refl
suspect_text malformed_address = refl
suspect_text not_served_by_provider = refl
suspect_text dns_failure = refl
suspect_text vantage_no_route = refl
suspect_text timeout = refl
suspect_text tls_handshake_slow = refl
suspect_text conn_reset = refl
suspect_text tls_other = refl
suspect_text http_401 = refl
suspect_text http_403 = refl
suspect_text http_429 = refl
suspect_text http_451 = refl
suspect_text http_5xx_server = refl
suspect_text http_3xx = refl
suspect_text http_other = refl
suspect_text grpc_unavailable = refl
suspect_text grpc_permission = refl
suspect_text grpc_unimplemented = refl
suspect_text grpc_exhausted = refl
suspect_text grpc_internal = refl
suspect_text grpc_unauth = refl
suspect_text grpc_other = refl
suspect_text bad_protocol = refl
suspect_text wss_handshake = refl
suspect_text chain_id_mismatch = refl
suspect_text other = refl

-- No text is both.
pub one_suspect_text :
    (t : String) → (str_eq t "dns_failure" && str_eq t "vantage_no_route") ≡ false
one_suspect_text t = elim (Bool-cases (str_eq t "dns_failure")) [
  | inl dns ↦
      subst (λ k. (str_eq k "dns_failure" && str_eq k "vantage_no_route") ≡ false)
        (sym ((eq_iff t "dns_failure").0 dns)) refl
  | inr different ↦ rw different refl
]
