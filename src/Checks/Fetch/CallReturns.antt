-- ===== src/Checks/Fetch/CallReturns.antt =====
-- The gRPC probe of internal/checks/grpc.go: that it returns, and what it returns.
use chain_registry_sentinel.Base.{
  ◌≢◌, refl, Bool, true, false, Option, none, some, List, [], ◌∷◌, arith, String, if◌then◌else◌,
}
use chain_registry_sentinel.Checks.Error.{GoError}
use chain_registry_sentinel.Checks.Fetch.Called.{Called}
use chain_registry_sentinel.Checks.GrpcTarget.{Addresses, Target, parse_grpc_target}
use chain_registry_sentinel.Checks.Fetch.Dialing.{
  Channels, Tried, invoke_grpc, next_mode, try_modes, keep_error, of_decoded, of_supply, of_canary,
  of_client, timed_grpc, of_target, probe_grpc_endpoint, get_node_info_method, total_supply_method,
  grpc_app_level_refusal, agent_of,
}
use chain_registry_sentinel.Checks.NodeInfoWire.{Data, Wire}
use chain_registry_sentinel.Checks.NodeInfoWire.Total.{
  TagsTakeBytes, decode_get_node_info_network-returns,
}
use chain_registry_sentinel.Github.Outcome.{Outcome, ok, err}
use chain_registry_sentinel.Registry.{Chain, Endpoint}

module _ (State : Type 0) (C : Channels State) (W : Wire) where
  module _ (tags : TagsTakeBytes W) where
    of_decoded-returns : (o : Option (Outcome String)) → o ≢ none → of_decoded State C W o ≢ none
    of_decoded-returns none h = absurd (h refl)
    of_decoded-returns (some (err e)) h = ground arith
    of_decoded-returns (some (ok network)) h = ground arith

    of_supply-returns :
        (e : GoError) (r : Outcome Data × State) → (of_supply State C W e r).0 ≢ none
    of_supply-returns e (ok bytes, t) = ground arith
    of_supply-returns e (err e2, t) = ground arith

    of_canary-returns :
        (conn : C.Conn) (r : Outcome Data × State) → (of_canary State C W conn r).0 ≢ none
    of_canary-returns conn (ok bytes, t) =
        of_decoded-returns _ (decode_get_node_info_network-returns W tags bytes)
    of_canary-returns conn (err e, t) = choice (grpc_app_level_refusal e)
      where
        choice :
            (b : Bool)
            → (if b
                then of_supply State C W e (C.invoke conn total_supply_method t)
                else (some (err e), t)).0
              ≢ none
        choice true = of_supply-returns e (C.invoke conn total_supply_method t)
        choice false = ground arith

    of_client-returns : (s : State) (o : Outcome C.Conn) → (of_client State C W s o).0 ≢ none
    of_client-returns s (err e) = ground arith
    of_client-returns s (ok conn) = of_canary-returns conn (C.invoke conn get_node_info_method s)

    module _ (target ua : String) where
      next_mode-returns :
          (kept : Option GoError) (inv : Option (Outcome (String × Bool)) × State)
          (next : Option GoError → State → Option (Tried State C W × State))
          → inv.0 ≢ none
          → ((k : Option GoError) (t : State) → next k t ≢ none)
          → next_mode State C W target ua kept inv next ≢ none
      next_mode-returns kept (none, t) next h k = absurd (h refl)
      next_mode-returns kept (some (ok (network, blocked)), t) next h k = ground arith
      next_mode-returns kept (some (err e), t) next h k =
          ground (arith, k (some (keep_error kept e)) t)

      try_modes-returns :
          (modes : List Bool) (kept : Option GoError) (s : State)
          → try_modes State C W target ua modes kept s ≢ none
      unfolding try_modes invoke_grpc
      try_modes-returns [] kept s = ground arith
      try_modes-returns (use_tls ∷ modes) kept s =
          next_mode-returns kept (invoke_grpc State C W target use_tls ua s)
            (λ k t. try_modes State C W target ua modes k t)
            (of_client-returns s (C.new_client target use_tls (agent_of ua)))
            (λ k t. try_modes-returns modes k t)

    module _ (A : Addresses) (chain : Chain) (ep : Endpoint) (ua : String) where
      timed_grpc-returns :
          (s : State) (r : Option (Tried State C W × State))
          → r ≢ none
          → timed_grpc State C W A chain ep s r ≢ none
      timed_grpc-returns s none h = absurd (h refl)
      timed_grpc-returns s (some (tried, t)) h = ground arith

      of_target-returns :
          (s : State) (o : Outcome Target) → of_target State C W A chain ep ua s o ≢ none
      of_target-returns s (err e) = ground arith
      of_target-returns s (ok target) =
          timed_grpc-returns s _ (try_modes-returns target.target ua target.modes none s)

      pub probe_grpc_endpoint-returns :
          (s : State) → probe_grpc_endpoint State C W A chain ep ua s ≢ none
      unfolding probe_grpc_endpoint
      probe_grpc_endpoint-returns s = of_target-returns s (parse_grpc_target A ep.address)
