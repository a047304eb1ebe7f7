-- ===== src/Checks/Fetch/Upgraded.antt =====
-- The WebSocket probe of internal/checks/wss.go: what it may say together about its connection.
use chain_registry_sentinel.Base.{ℕ, ◌≡◌, refl, Option, none, some, List, arith, String}
use chain_registry_sentinel.Base.Trim.{every_char-nil}
use chain_registry_sentinel.Checks.Error.{GoError}
use chain_registry_sentinel.Checks.Wss
use chain_registry_sentinel.Checks.Wss.{WssProbe}
use chain_registry_sentinel.Checks.Http.{Http}
use chain_registry_sentinel.Checks.Http.Sound.{printable, read_body_prefix-every_char}
use chain_registry_sentinel.Checks.Fetch.Answered.{IsFetched}
use chain_registry_sentinel.Checks.Fetch.Socket.{
  Dialed, rejected, connected, Sockets, of_status, of_message, of_write, of_deadlines, read_dialed,
  probe_wss_endpoint, set_deadlines, parse_wss_status_network, upgrade_header, wss_status_request,
}
use chain_registry_sentinel.Github.Outcome.{Outcome, ok, err}
use chain_registry_sentinel.Registry.{Chain, Endpoint}

-- What websocket documents: a connection is established at the status 101 only.
abbrev pub Switches : (H : Http) → Sockets H → Type 0
Switches H S =
    (address : String) (header : List (String × String)) (s : H.State) (status : ℕ) (conn : S.Conn)
    → (S.dial address header s).0 ≡ connected status conn
    → status ≡ 101

module _ (H : Http) (S : Sockets H) (chain : Chain) (ep : Endpoint) where
  abbrev pub Upgraded : WssProbe × H.State → Type 0
  Upgraded (p, t) = (IsFetched 101 (Wss.outcome p)) × (p.chain ≡ chain) × (p.endpoint ≡ ep)

  of_status-Upgraded :
      (o : Outcome String) (t : H.State) → Upgraded (of_status H S chain ep 101 o, t)
  unfolding Wss.outcome
  of_status-Upgraded (ok network) t = ground (arith, every_char-nil printable)
  of_status-Upgraded (err e) t = ground (arith, every_char-nil printable)

  of_message-Upgraded : (r : Outcome S.Message × H.State) → Upgraded (of_message H S chain ep 101 r)
  unfolding Wss.outcome
  of_message-Upgraded (ok msg, t) = of_status-Upgraded (parse_wss_status_network H S msg) t
  of_message-Upgraded (err e, t) = ground (arith, every_char-nil printable)

  of_write-Upgraded :
      (conn : S.Conn) (r : Option GoError × H.State) → Upgraded (of_write H S chain ep 101 conn r)
  unfolding Wss.outcome
  of_write-Upgraded conn (none, t) = of_message-Upgraded (S.read_message conn t)
  of_write-Upgraded conn (some e, t) = ground (arith, every_char-nil printable)

  of_deadlines-Upgraded :
      (conn : S.Conn) (t : H.State) (o : Option GoError)
      → Upgraded (of_deadlines H S chain ep 101 conn t o)
  unfolding Wss.outcome
  of_deadlines-Upgraded conn t none =
      of_write-Upgraded conn (S.write_message conn wss_status_request t)
  of_deadlines-Upgraded conn t (some e) = ground (arith, every_char-nil printable)

  read_dialed-Upgraded :
      (r : Dialed H.Body S.Conn × H.State)
      → ((status : ℕ) (conn : S.Conn) → r.0 ≡ connected status conn → status ≡ 101)
      → Upgraded (read_dialed H S chain ep r)
  unfolding Wss.outcome read_dialed
  read_dialed-Upgraded (rejected e none, t) h = ground (arith, every_char-nil printable)
  read_dialed-Upgraded (rejected e (some (status, body)), t) h =
      ground (arith, read_body_prefix-every_char H body)
  read_dialed-Upgraded (connected status conn, t) h =
      rw (h status conn refl) (of_deadlines-Upgraded conn t (set_deadlines H S conn))

  pub probe_wss_endpoint-Upgraded :
      (ua : String) (s : H.State) → Switches H S → Upgraded (probe_wss_endpoint H S chain ep ua s)
  unfolding probe_wss_endpoint Wss.outcome
  probe_wss_endpoint-Upgraded ua s switches =
      let dialed = S.dial ep.address (upgrade_header ua) s in
      let read = read_dialed-Upgraded dialed (switches ep.address (upgrade_header ua) s) in
      (
        record {
          throttled_iff = read.0.throttled_iff;
          throttled_err = read.0.throttled_err;
          no_connection = read.0.no_connection;
          fetched = read.0.fetched;
          one_line = read.0.one_line;
        },
        read.1,
        read.2,
      )
