-- ===== src/Checks/Fetch/Socket.antt =====
-- internal/checks/wss.go: `ProbeWSSEndpoint`. The package websocket is an argument.
use chain_registry_sentinel.Base.{
  ℕ, Bool, true, false, Option, none, some, [], ◌∷◌, ◌==◌, String, str_eq, if◌then◌else◌,
}
use chain_registry_sentinel.Base.Int.{pos}
use chain_registry_sentinel.Base.Map.{Dict}
use chain_registry_sentinel.Checks.Error.{GoError, errorf, wrap}
use chain_registry_sentinel.Checks.Http.{Http, read_body_prefix}
use chain_registry_sentinel.Checks.Wss.{WssProbe}
use chain_registry_sentinel.Github.Outcome.{Outcome, ok, err}
use chain_registry_sentinel.Registry.{Chain, Endpoint}

-- What `DialContext` returns: an error with the response that rejected the upgrade, if one arrived, or
-- a connection with the status of its response.
pub data Dialed (Body Conn : Type 0) : Type 0 where
  rejected : GoError → Option (ℕ × Body) → Dialed Body Conn
  connected : ℕ → Conn → Dialed Body Conn

pub record Sockets (H : Http) : Type 1 where
  pub Conn : Type 0
  pub Message : Type 0
  pub dial : String → Dict String → H.State → Dialed H.Body Conn × H.State
  -- Whether the context has a deadline, and what setting it gives.
  pub has_deadline : Bool
  pub set_read_deadline : Conn → Option GoError
  pub set_write_deadline : Conn → Option GoError
  pub write_message : Conn → String → H.State → Option GoError × H.State
  pub read_message : Conn → H.State → Outcome Message × H.State
  -- `json.Unmarshal`, to `result.node_info.network`.
  pub unmarshal : Message → Outcome String

abbrev pub wss_status_request : String
wss_status_request = "{\"jsonrpc\":\"2.0\",\"method\":\"status\",\"params\":{},\"id\":1}"

-- The request's header, when the probe identifies itself.
unfoldable pub upgrade_header : String → Dict String
upgrade_header ua = if str_eq ua "" then [] else ("User-Agent", ua) ∷ []

module _ (H : Http) (S : Sockets H) where
  abbrev check_network : Outcome String → Outcome String
  check_network (err e) = err e
  check_network (ok network) =
      if str_eq network "" then err (errorf "network field empty or missing") else ok network

  unfoldable pub parse_wss_status_network : S.Message → Outcome String
  parse_wss_status_network msg = check_network (S.unmarshal msg)

  abbrev deadline_error : S.Conn → Option GoError → Option GoError
  deadline_error conn (some e) = some e
  deadline_error conn none = S.set_write_deadline conn

  unfoldable pub set_deadlines : S.Conn → Option GoError
  set_deadlines conn =
      if S.has_deadline then deadline_error conn (S.set_read_deadline conn) else none

  module _ (chain : Chain) (ep : Endpoint) where
    abbrev pub wss_probe : ℕ → WssProbe
    wss_probe status = record {
      chain = chain;
      endpoint = ep;
      network = "";
      fetch_err = none;
      net_err = false;
      rate_limited = false;
      status_code = status;
      body = "";
      latency = pos 0;
    }

    abbrev failed : ℕ → GoError → WssProbe
    failed status e = record (wss_probe status) { fetch_err = some e }

    abbrev pub of_status : ℕ → Outcome String → WssProbe
    of_status status (ok network) = record (wss_probe status) { network = network }
    of_status status (err e) = failed status (wrap "parse status: " e)

    abbrev pub of_message : ℕ → Outcome S.Message × H.State → WssProbe × H.State
    of_message status (err e, t) = (failed status (wrap "read: " e), t)
    of_message status (ok msg, t) = (of_status status (parse_wss_status_network msg), t)

    abbrev pub of_write : ℕ → S.Conn → Option GoError × H.State → WssProbe × H.State
    of_write status conn (some e, t) = (failed status (wrap "write: " e), t)
    of_write status conn (none, t) = of_message status (S.read_message conn t)

    abbrev pub of_deadlines : ℕ → S.Conn → H.State → Option GoError → WssProbe × H.State
    of_deadlines status conn t (some e) = (failed status (wrap "set deadline: " e), t)
    of_deadlines status conn t none =
        of_write status conn (S.write_message conn wss_status_request t)

    unfoldable pub read_dialed : Dialed H.Body S.Conn × H.State → WssProbe × H.State
    read_dialed (rejected e none, t) = (record (failed 0 e) { net_err = true }, t)
    read_dialed (rejected e (some (status, body)), t) = (
      record (failed status e) { body = read_body_prefix H body; rate_limited = status == 429 },
      t,
    )
    read_dialed (connected status conn, t) = of_deadlines status conn t (set_deadlines conn)

    unfoldable pub probe_wss_endpoint : String → H.State → WssProbe × H.State
    probe_wss_endpoint ua s =
        let (probe, t) = read_dialed (S.dial ep.address (upgrade_header ua) s) in
        (record probe { latency = H.since s t }, t)
