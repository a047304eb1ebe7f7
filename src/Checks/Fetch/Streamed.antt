-- ===== src/Checks/Fetch/Streamed.antt =====
-- The gRPC-web and WebSocket probes of internal/checks: what they may say together about a request.
use chain_registry_sentinel.Base.{
  ℕ, ◌≡◌, ◌≢◌, refl, Bool, true, false, Option, none, some, arith, leb, ◌==◌, ==_iff, Bool-cases,
  inl, inr, String, if◌then◌else◌,
}
use chain_registry_sentinel.Base.Trim.{every_char-nil}
use chain_registry_sentinel.Checks.GrpcWeb
use chain_registry_sentinel.Checks.GrpcWeb.{GrpcWebProbe}
use chain_registry_sentinel.Checks.Http.{Http, client_send}
use chain_registry_sentinel.Checks.Http.Sound.{printable, read_body_prefix-every_char}
use chain_registry_sentinel.Checks.Fetch.Answered.{IsFetched}
use chain_registry_sentinel.Checks.Fetch.Framed.{
  ReadFull, byte_at, of_network, of_frame_body, of_frame_header, frame_length, grpc_web_request,
  read_grpc_web_answer, timed, probe_grpc_web_endpoint,
}
use chain_registry_sentinel.Checks.NodeInfoWire.{Data, Wire, decode_get_node_info_network}
use chain_registry_sentinel.Checks.NodeInfoWire.Total.{
  TagsTakeBytes, decode_get_node_info_network-returns,
}
use chain_registry_sentinel.Github.Outcome.{Outcome, ok, err}
use chain_registry_sentinel.Github.Call.{Answer, not_built, not_answered, answered}
use chain_registry_sentinel.Registry.{Chain, Endpoint}

module _ (H : Http) (read_full : ReadFull H) (W : Wire) (chain : Chain) (ep : Endpoint) where
  -- The probe returned one that is fetched.
  abbrev pub Fetched : Option GrpcWebProbe → Type 0
  Fetched none = Unit
  Fetched (some p) = (IsFetched 200 (GrpcWeb.outcome p)) × (p.chain ≡ chain) × (p.endpoint ≡ ep)

  if-Fetched :
      (b : Bool) (o p : Option GrpcWebProbe) → Fetched o → Fetched p → Fetched (if b then o else p)
  if-Fetched true o p h k = h
  if-Fetched false o p h k = k

  of_network-Fetched :
      (o : Option (Outcome String)) → Fetched (of_network H read_full W chain ep 200 o)
  unfolding GrpcWeb.outcome
  of_network-Fetched none = tt
  of_network-Fetched (some (err e)) = ground (arith, every_char-nil printable)
  of_network-Fetched (some (ok network)) = ground (arith, every_char-nil printable)

  of_frame_body-Fetched :
      (o : Outcome (Data × H.Body)) → Fetched (of_frame_body H read_full W chain ep 200 o)
  unfolding GrpcWeb.outcome
  of_frame_body-Fetched (err e) = ground (arith, every_char-nil printable)
  of_frame_body-Fetched (ok (body, rest)) = of_network-Fetched (decode_get_node_info_network W body)

  of_frame_header-Fetched :
      (o : Outcome (Data × H.Body)) → Fetched (of_frame_header H read_full W chain ep 200 o)
  unfolding GrpcWeb.outcome
  of_frame_header-Fetched (err e) = ground (arith, every_char-nil printable)
  of_frame_header-Fetched (ok (header, rest)) =
      if-Fetched (leb 128 (byte_at 0 header)) _ _ (ground (arith, every_char-nil printable))
        (of_frame_body-Fetched (read_full (frame_length header) rest))

  read_grpc_web_answer-Fetched :
      (a : Answer H.Body) → Fetched (read_grpc_web_answer H read_full W chain ep a)
  unfolding GrpcWeb.outcome read_grpc_web_answer
  read_grpc_web_answer-Fetched (not_built e) = ground (arith, every_char-nil printable)
  read_grpc_web_answer-Fetched (not_answered e) = ground (arith, every_char-nil printable)
  read_grpc_web_answer-Fetched (answered status body) = elim (Bool-cases (status == 200)) [
    | inl success ↦
        let e = (==_iff status 200).0 success in rw e (of_frame_header-Fetched (read_full 5 body))
    | inr refused ↦ rw refused (ground (arith, refused, read_body_prefix-every_char H body))
  ]

  timed-Fetched :
      (o : Option GrpcWebProbe) (s t : H.State)
      → Fetched o
      → Fetched (timed H read_full W chain ep (s, t) o).0
  unfolding GrpcWeb.outcome
  timed-Fetched none s t h = tt
  timed-Fetched (some p) s t h = ground (
    arith, h.1, h.2, h.0.throttled_iff, h.0.throttled_err, h.0.no_connection, h.0.fetched,
    h.0.one_line,
  )

  pub probe_grpc_web_endpoint-Fetched :
      (ua : String) (s : H.State) → Fetched (probe_grpc_web_endpoint H read_full W chain ep ua s).0
  unfolding probe_grpc_web_endpoint
  probe_grpc_web_endpoint-Fetched ua s =
      let sent = client_send H ua (grpc_web_request H read_full W chain ep) s in
      timed-Fetched (read_grpc_web_answer H read_full W chain ep sent.0) s sent.1
        (read_grpc_web_answer-Fetched sent.0)

  -- Where tags take bytes, the probe returns.
  module _ (tags : TagsTakeBytes W) where
    of_network-returns :
        (status : ℕ) (o : Option (Outcome String))
        → o ≢ none
        → of_network H read_full W chain ep status o ≢ none
    of_network-returns status none h = absurd (h refl)
    of_network-returns status (some (err e)) h = ground arith
    of_network-returns status (some (ok network)) h = ground arith

    of_frame_body-returns :
        (status : ℕ) (o : Outcome (Data × H.Body))
        → of_frame_body H read_full W chain ep status o ≢ none
    of_frame_body-returns status (err e) = ground arith
    of_frame_body-returns status (ok (body, rest)) =
        of_network-returns status _ (decode_get_node_info_network-returns W tags body)

    of_frame_header-returns :
        (status : ℕ) (o : Outcome (Data × H.Body))
        → of_frame_header H read_full W chain ep status o ≢ none
    of_frame_header-returns status (err e) = ground arith
    of_frame_header-returns status (ok (header, rest)) =
        ground (arith, of_frame_body-returns status (read_full (frame_length header) rest))

    read_grpc_web_answer-returns :
        (a : Answer H.Body) → read_grpc_web_answer H read_full W chain ep a ≢ none
    unfolding read_grpc_web_answer
    read_grpc_web_answer-returns (not_built e) = ground arith
    read_grpc_web_answer-returns (not_answered e) = ground arith
    read_grpc_web_answer-returns (answered status body) =
        ground (arith, of_frame_header-returns status (read_full 5 body))

    timed-returns :
        (o : Option GrpcWebProbe) (s t : H.State)
        → o ≢ none
        → (timed H read_full W chain ep (s, t) o).0 ≢ none
    timed-returns none s t h = h
    timed-returns (some p) s t h = ground arith

    pub probe_grpc_web_endpoint-returns :
        (ua : String) (s : H.State) → (probe_grpc_web_endpoint H read_full W chain ep ua s).0 ≢ none
    unfolding probe_grpc_web_endpoint
    probe_grpc_web_endpoint-returns ua s =
        let sent = client_send H ua (grpc_web_request H read_full W chain ep) s in
        timed-returns (read_grpc_web_answer H read_full W chain ep sent.0) s sent.1
          (read_grpc_web_answer-returns sent.0)
