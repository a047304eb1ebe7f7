-- ===== src/Sentinel/Probe/Run/Evaluated.antt =====
-- The checks that `probeByType` (cmd/sentinel/probe.go) evaluates on a probe: where they do not panic.
use chain_registry_sentinel.Base.{◌≡◌, ◌≢◌, refl, Option, none, some, arith}
use chain_registry_sentinel.Checks.Rpc.{EndpointProbe}
use chain_registry_sentinel.Checks.Rpc
use chain_registry_sentinel.Checks.Rest.{RestProbe}
use chain_registry_sentinel.Checks.Rest
use chain_registry_sentinel.Checks.Result.{Result}
use chain_registry_sentinel.Checks.Evm.{EvmProbe}
use chain_registry_sentinel.Checks.Wss.{WssProbe}
use chain_registry_sentinel.Sentinel.Probe.{rpc, rest, evm, wss, both, evaluate}
use chain_registry_sentinel.Sentinel.Probe.Run.{Packages}

rpc-liveness-returns :
    (p : EndpointProbe) → (p.fetch_err ≡ none → p.status ≢ none) → Rpc.liveness p ≢ none
unfolding Rpc.liveness
rpc-liveness-returns p h = ground (arith, h)

rpc-chain_id-returns :
    (p : EndpointProbe) → (p.fetch_err ≡ none → p.status ≢ none) → Rpc.chain_id p ≢ none
unfolding Rpc.chain_id
rpc-chain_id-returns p h = ground (arith, h)

rest-liveness-returns :
    (p : RestProbe) → (p.fetch_err ≡ none → p.node_info ≢ none) → Rest.liveness p ≢ none
unfolding Rest.liveness
rest-liveness-returns p h = ground (arith, h)

rest-chain_id-returns :
    (p : RestProbe) → (p.fetch_err ≡ none → p.node_info ≢ none) → Rest.chain_id p ≢ none
unfolding Rest.chain_id
rest-chain_id-returns p h = ground (arith, h)

both-returns : (l c : Option Result) → l ≢ none → c ≢ none → both l c ≢ none
both-returns none c h k = absurd (h refl)
both-returns (some l) none h k = absurd (k refl)
both-returns (some l) (some c) h k = ground arith

module _ (P : Packages) where
  pub rpc-evaluated :
      (p : EndpointProbe)
      → (p.fetch_err ≡ none → p.status ≢ none)
      → evaluate P.parse_int P.decimal (rpc p) ≢ none
  unfolding evaluate
  rpc-evaluated p h =
      both-returns (Rpc.liveness p) (Rpc.chain_id p) (rpc-liveness-returns p h)
        (rpc-chain_id-returns p h)

  pub rest-evaluated :
      (p : RestProbe)
      → (p.fetch_err ≡ none → p.node_info ≢ none)
      → evaluate P.parse_int P.decimal (rest p) ≢ none
  unfolding evaluate
  rest-evaluated p h =
      both-returns (Rest.liveness p) (Rest.chain_id p) (rest-liveness-returns p h)
        (rest-chain_id-returns p h)

  pub evm-evaluated : (p : EvmProbe) → evaluate P.parse_int P.decimal (evm p) ≢ none
  unfolding evaluate
  evm-evaluated p = ground arith

  pub wss-evaluated : (p : WssProbe) → evaluate P.parse_int P.decimal (wss p) ≢ none
  unfolding evaluate
  wss-evaluated p = ground arith
