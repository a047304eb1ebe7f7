-- ===== src/Checks/Fetch/Framed.antt =====
-- internal/checks/grpc_web.go: `ProbeGRPCWebEndpoint`. `io.ReadFull` is an argument.
use chain_registry_sentinel.Base.{
  ℕ, zero, suc, ◌+◌, ◌*◌, true, false, leb, Option, none, some, [], ◌∷◌, ◌==◌, String,
  if◌then◌else◌,
}
use chain_registry_sentinel.Base.Int.{pos}
use chain_registry_sentinel.Base.Text.{◌+s◌}
use chain_registry_sentinel.Checks.Error.{GoError, errorf, wrap}
use chain_registry_sentinel.Checks.Fetch.{base_url}
use chain_registry_sentinel.Checks.GrpcWeb.{GrpcWebProbe}
use chain_registry_sentinel.Checks.Http.{
  Http, HttpRequest, post_verb, client_send, read_body_prefix,
}
use chain_registry_sentinel.Checks.NodeInfoWire.{Data, Wire, decode_get_node_info_network}
use chain_registry_sentinel.Github.Call.{Answer, not_built, not_answered, answered}
use chain_registry_sentinel.Github.Outcome.{Outcome, ok, err}
use chain_registry_sentinel.Registry.{Chain, Endpoint}

-- `io.ReadFull` of that many bytes: they, and what is left of the body.
abbrev pub ReadFull : Http → Type 0
ReadFull H = ℕ → H.Body → Outcome (Data × H.Body)

-- An element of a byte array, which is filled with zeroes.
abbrev pub byte_at : ℕ → Data → ℕ
byte_at i [] = 0
byte_at zero (b ∷ d) = b
byte_at (suc i) (b ∷ d) = byte_at i d

-- `binary.BigEndian.Uint32(header[1:5])`.
unfoldable pub frame_length : Data → ℕ
frame_length header =
    byte_at 1 header * 16777216
    + byte_at 2 header * 65536
    + byte_at 3 header * 256
    + byte_at 4 header

-- A flag byte and a length of zero.
abbrev pub empty_frame : Data
empty_frame = 0 ∷ 0 ∷ 0 ∷ 0 ∷ 0 ∷ []

module _ (H : Http) (read_full : ReadFull H) (W : Wire) (chain : Chain) (ep : Endpoint) where
  abbrev new_grpc_web_probe : GrpcWebProbe
  new_grpc_web_probe = record {
    chain = chain;
    endpoint = ep;
    network = "";
    fetch_err = none;
    net_err = false;
    rate_limited = false;
    status_code = 0;
    body = "";
    latency = pos 0;
  }

  abbrev of_error : ℕ → GoError → GrpcWebProbe
  of_error status e = record new_grpc_web_probe { status_code = status; fetch_err = some e }

  abbrev pub of_network : ℕ → Option (Outcome String) → Option GrpcWebProbe
  of_network status none = none
  of_network status (some (err e)) = some (of_error status (wrap "decode response: " e))
  of_network status (some (ok network)) =
      some (record new_grpc_web_probe { status_code = status; network = network })

  abbrev pub of_frame_body : ℕ → Outcome (Data × H.Body) → Option GrpcWebProbe
  of_frame_body status (err e) = some (of_error status (wrap "read frame body: " e))
  of_frame_body status (ok (body, rest)) = of_network status (decode_get_node_info_network W body)

  -- The flag's bit 7, of a byte, marks trailers.
  abbrev pub of_frame_header : ℕ → Outcome (Data × H.Body) → Option GrpcWebProbe
  of_frame_header status (err e) = some (of_error status (wrap "read frame header: " e))
  of_frame_header status (ok (header, rest)) =
      if leb 128 (byte_at 0 header)
      then some (of_error status (errorf "expected data frame, got trailers"))
      else of_frame_body status (read_full (frame_length header) rest)

  -- `none` is a decoding that does not end.
  unfoldable pub read_grpc_web_answer : Answer H.Body → Option GrpcWebProbe
  read_grpc_web_answer (not_built e) = some (of_error 0 e)
  read_grpc_web_answer (not_answered e) = some (record (of_error 0 e) { net_err = true })
  read_grpc_web_answer (answered status body) =
      if status == 200
      then of_frame_header status (read_full 5 body)
      else some (record new_grpc_web_probe {
        status_code = status;
        body = read_body_prefix H body;
        fetch_err = some (errorf ("HTTP " +s H.decimal status));
        rate_limited = status == 429;
      })

  abbrev pub grpc_web_request : HttpRequest
  grpc_web_request = record {
    verb = post_verb;
    url = base_url ep.address +s "/cosmos.base.tendermint.v1beta1.Service/GetNodeInfo";
    headers =
        ("Content-Type", "application/grpc-web+proto")
        ∷ ("Accept", "application/grpc-web+proto")
        ∷ ("X-Grpc-Web", "1")
        ∷ [];
    text = "";
    bytes = empty_frame;
  }

  abbrev pub timed : (H.State × H.State) → Option GrpcWebProbe → Option GrpcWebProbe × H.State
  timed (s, t) none = (none, t)
  timed (s, t) (some probe) = (some (record probe { latency = H.since s t }), t)

  unfoldable pub probe_grpc_web_endpoint : String → H.State → Option GrpcWebProbe × H.State
  probe_grpc_web_endpoint ua s =
      let (answer, t) = client_send H ua grpc_web_request s in
      timed (s, t) (read_grpc_web_answer answer)
