-- ===== src/Sentinel/Probe/Verdicts.antt =====
-- The two results of `probeByType` (cmd/sentinel/probe.go), for every endpoint type.
use chain_registry_sentinel.Base.{◌≡◌, ◌⊎◌, none, String, true, false, Option, some, arith}
use chain_registry_sentinel.Base.Int.{ℤ}
use chain_registry_sentinel.Checks.Rest
use chain_registry_sentinel.Checks.Rest.{RestProbe}
use chain_registry_sentinel.Checks.Rpc
use chain_registry_sentinel.Checks.Rpc.{EndpointProbe}
use chain_registry_sentinel.Checks.Result.{Result}
use chain_registry_sentinel.Checks.Verdict.{IsVerdict, IsAbout, classify-ne-none}
use chain_registry_sentinel.Sentinel.Jobs.{liveness_check_name}
use chain_registry_sentinel.Sentinel.Probe.{
  Probe, rpc, rest, grpc_web, grpc, evm, wss, probe_type, probe_chain, probe_endpoint, Results,
  both, evaluate,
}

-- Both results are verdicts about the probed entry, the first one of the type's liveness check, and
-- the chain-ID check is skipped where the liveness check failed.
pub record IsJudged (p : Probe) (rs : Results) : Type 0 where
  pub live : IsVerdict rs.liveness
  pub id : IsVerdict rs.chain_id
  pub about :
      IsAbout (probe_chain p) (probe_endpoint p) (liveness_check_name (probe_type p)) rs.liveness
  pub same_chain : rs.chain_id.chain ≡ (probe_chain p).name
  pub once :
      rs.chain_id.skipped ≡ false → (rs.liveness.passed ≡ true) ⊎ (rs.liveness.skipped ≡ true)
  pub same_endpoint : rs.chain_id.endpoint ≡ (probe_endpoint p).address

both-some :
    (l c : Option Result) {rs : Results}
    → both l c ≡ some rs
    → (l ≡ some rs.liveness) × (c ≡ some rs.chain_id)
both-some none c e = cc
both-some (some l) none e = cc
both-some (some l) (some c) e = ground arith

rpc-liveness-IsVerdict : (p : EndpointProbe) {l : Result} → Rpc.liveness p ≡ some l → IsVerdict l
unfolding Rpc.liveness
rpc-liveness-IsVerdict p e = grind (arith, classify-ne-none)

rpc-liveness-IsAbout :
    (p : EndpointProbe) {l : Result}
    → Rpc.liveness p ≡ some l
    → IsAbout p.chain p.endpoint "rpc_liveness" l
unfolding Rpc.liveness
rpc-liveness-IsAbout p e = grind arith

rpc-liveness-fetched :
    (p : EndpointProbe) {l : Result}
    → Rpc.liveness p ≡ some l
    → p.fetch_err ≡ none
    → (l.passed ≡ true) ⊎ (l.skipped ≡ true)
unfolding Rpc.liveness
rpc-liveness-fetched p e h = ground arith

rpc-chain_id-IsVerdict : (p : EndpointProbe) {c : Result} → Rpc.chain_id p ≡ some c → IsVerdict c
unfolding Rpc.chain_id
rpc-chain_id-IsVerdict p e = ground arith

rpc-chain_id-fetched :
    (p : EndpointProbe) {c : Result}
    → Rpc.chain_id p ≡ some c
    → (c.chain ≡ p.chain.name)
      × (c.endpoint ≡ p.endpoint.address)
      × (c.skipped ≡ false → p.fetch_err ≡ none)
unfolding Rpc.chain_id
rpc-chain_id-fetched p e = ground arith

rest-liveness-IsVerdict : (p : RestProbe) {l : Result} → Rest.liveness p ≡ some l → IsVerdict l
unfolding Rest.liveness
rest-liveness-IsVerdict p e = grind (arith, classify-ne-none)

rest-liveness-IsAbout :
    (p : RestProbe) {l : Result}
    → Rest.liveness p ≡ some l
    → IsAbout p.chain p.endpoint "rest_liveness" l
unfolding Rest.liveness
rest-liveness-IsAbout p e = grind arith

rest-liveness-fetched :
    (p : RestProbe) {l : Result}
    → Rest.liveness p ≡ some l
    → p.fetch_err ≡ none
    → (l.passed ≡ true) ⊎ (l.skipped ≡ true)
unfolding Rest.liveness
rest-liveness-fetched p e h = ground arith

rest-chain_id-IsVerdict : (p : RestProbe) {c : Result} → Rest.chain_id p ≡ some c → IsVerdict c
unfolding Rest.chain_id
rest-chain_id-IsVerdict p e = ground arith

rest-chain_id-fetched :
    (p : RestProbe) {c : Result}
    → Rest.chain_id p ≡ some c
    → (c.chain ≡ p.chain.name)
      × (c.endpoint ≡ p.endpoint.address)
      × (c.skipped ≡ false → p.fetch_err ≡ none)
unfolding Rest.chain_id
rest-chain_id-fetched p e = ground arith

rpc-IsJudged :
    (p : EndpointProbe) {rs : Results}
    → both (Rpc.liveness p) (Rpc.chain_id p) ≡ some rs
    → IsJudged (rpc p) rs
unfolding liveness_check_name
rpc-IsJudged p e =
    let (le, ce) = both-some (Rpc.liveness p) (Rpc.chain_id p) e in
    let id = rpc-chain_id-fetched p ce in
    record {
      live = rpc-liveness-IsVerdict p le;
      id = rpc-chain_id-IsVerdict p ce;
      about = rpc-liveness-IsAbout p le;
      same_chain = id.0;
      once = λ h. rpc-liveness-fetched p le (id.2 h);
      same_endpoint = id.1;
    }

rest-IsJudged :
    (p : RestProbe) {rs : Results}
    → both (Rest.liveness p) (Rest.chain_id p) ≡ some rs
    → IsJudged (rest p) rs
unfolding liveness_check_name
rest-IsJudged p e =
    let (le, ce) = both-some (Rest.liveness p) (Rest.chain_id p) e in
    let id = rest-chain_id-fetched p ce in
    record {
      live = rest-liveness-IsVerdict p le;
      id = rest-chain_id-IsVerdict p ce;
      about = rest-liveness-IsAbout p le;
      same_chain = id.0;
      once = λ h. rest-liveness-fetched p le (id.2 h);
      same_endpoint = id.1;
    }

module _ (parse_int : String → Option ℤ) (decimal : ℤ → String) where
  -- Whatever a probe of any of the six types returned, its two results are judged consistently: none
  -- is both a pass and a skip, a pass has no class and no evidence, every failure has a class, both
  -- are about the probed chain and address, the liveness result carries the check's name that the
  -- streak's key is made of, and the chain-ID check is not held against an endpoint that failed
  -- liveness.
  pub evaluate-IsJudged :
      (p : Probe) {rs : Results} → evaluate parse_int decimal p ≡ some rs → IsJudged p rs
  unfolding evaluate liveness_check_name
  evaluate-IsJudged (rpc p) e = rpc-IsJudged p e
  evaluate-IsJudged (rest p) e = rest-IsJudged p e
  evaluate-IsJudged (grpc_web p) e = grind (arith, classify-ne-none)
  evaluate-IsJudged (grpc p) e = grind (arith, classify-ne-none)
  evaluate-IsJudged (evm p) e = record {
    live = grind (arith, classify-ne-none);
    id = ground arith;
    about = ground arith;
    same_chain = ground arith;
    once = ground arith;
    same_endpoint = ground arith;
  }
  evaluate-IsJudged (wss p) e = grind (arith, classify-ne-none)
