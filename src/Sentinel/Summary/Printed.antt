-- ===== src/Sentinel/Summary/Printed.antt =====
-- The last line that `printSummary` (cmd/sentinel/summary.go) prints.
use chain_registry_sentinel.Base.{
  ℕ, suc, ◌+◌, ◌≡◌, refl, Bool, true, false, not, ◌&&◌, List, [], ◌∷◌, count, arith, if◌then◌else◌,
}
use chain_registry_sentinel.Base.Map.{Dict}
use chain_registry_sentinel.Checks.Result.{Result}
use chain_registry_sentinel.Sentinel.Jobs.{
  type_rpc, type_rest, type_grpc_web, type_grpc, type_evm, type_wss,
}
use chain_registry_sentinel.Sentinel.Summary.{
  ChainStats, no_chain_stats, add, count_result, CheckKind, liveness_of, chain_id_check,
  unknown_check, check_kind, count_kind, count_all, collect_results, totals, Summary, summary_of,
  all_endpoints, all_live, all_dead, all_unreachable, all_wrong_resp,
}
use chain_registry_sentinel.Sentinel.Summary.Fields.{sum_of, count_all-sum_of}

abbrev of_liveness : CheckKind → Bool
of_liveness (liveness_of t) = true
of_liveness chain_id_check = false
of_liveness unknown_check = false

abbrev of_chain_id : CheckKind → Bool
of_chain_id (liveness_of t) = false
of_chain_id chain_id_check = true
of_chain_id unknown_check = false

abbrev pub measures : Result → Bool
measures r = of_liveness (check_kind r.check)

abbrev pub finds_live : Result → Bool
finds_live r = measures r && r.passed

abbrev pub finds_unreachable : Result → Bool
finds_unreachable r = measures r && not r.passed && r.conn_failed

abbrev pub finds_wrong : Result → Bool
finds_wrong r = measures r && not r.passed && not r.conn_failed

abbrev pub finds_mismatch : Result → Bool
finds_mismatch r = of_chain_id (check_kind r.check) && not r.passed

all_endpoints-count_kind :
    (k : CheckKind) (r : Result) (s : ChainStats)
    → all_endpoints (count_kind k r s)
      ≡ (if of_liveness k then suc (all_endpoints s) else all_endpoints s)
unfolding all_endpoints count_kind count_result
all_endpoints-count_kind (liveness_of type_rpc) r s = ground arith
all_endpoints-count_kind (liveness_of type_rest) r s = ground arith
all_endpoints-count_kind (liveness_of type_grpc_web) r s = ground arith
all_endpoints-count_kind (liveness_of type_grpc) r s = ground arith
all_endpoints-count_kind (liveness_of type_evm) r s = ground arith
all_endpoints-count_kind (liveness_of type_wss) r s = ground arith
all_endpoints-count_kind chain_id_check r s = ground arith
all_endpoints-count_kind unknown_check r s = refl

all_endpoints-totals : (m : Dict ChainStats) → all_endpoints (totals m) ≡ sum_of all_endpoints m
unfolding all_endpoints totals add
all_endpoints-totals [] = refl
all_endpoints-totals ((k, s) ∷ m) = omega (arith, all_endpoints-totals m)

all_live-count_kind :
    (k : CheckKind) (r : Result) (s : ChainStats)
    → all_live (count_kind k r s)
      ≡ (if of_liveness k && r.passed then suc (all_live s) else all_live s)
unfolding all_live count_kind count_result
all_live-count_kind (liveness_of type_rpc) r s = ground arith
all_live-count_kind (liveness_of type_rest) r s = ground arith
all_live-count_kind (liveness_of type_grpc_web) r s = ground arith
all_live-count_kind (liveness_of type_grpc) r s = ground arith
all_live-count_kind (liveness_of type_evm) r s = ground arith
all_live-count_kind (liveness_of type_wss) r s = ground arith
all_live-count_kind chain_id_check r s = ground arith
all_live-count_kind unknown_check r s = refl

all_live-totals : (m : Dict ChainStats) → all_live (totals m) ≡ sum_of all_live m
unfolding all_live totals add
all_live-totals [] = refl
all_live-totals ((k, s) ∷ m) = omega (arith, all_live-totals m)

all_unreachable-count_kind :
    (k : CheckKind) (r : Result) (s : ChainStats)
    → all_unreachable (count_kind k r s) ≡ (
        if of_liveness k && not r.passed && r.conn_failed
        then suc (all_unreachable s)
        else all_unreachable s)
unfolding all_unreachable count_kind count_result
all_unreachable-count_kind (liveness_of type_rpc) r s = ground arith
all_unreachable-count_kind (liveness_of type_rest) r s = ground arith
all_unreachable-count_kind (liveness_of type_grpc_web) r s = ground arith
all_unreachable-count_kind (liveness_of type_grpc) r s = ground arith
all_unreachable-count_kind (liveness_of type_evm) r s = ground arith
all_unreachable-count_kind (liveness_of type_wss) r s = ground arith
all_unreachable-count_kind chain_id_check r s = ground arith
all_unreachable-count_kind unknown_check r s = refl

all_unreachable-totals :
    (m : Dict ChainStats) → all_unreachable (totals m) ≡ sum_of all_unreachable m
unfolding all_unreachable totals add
all_unreachable-totals [] = refl
all_unreachable-totals ((k, s) ∷ m) = omega (arith, all_unreachable-totals m)

all_wrong_resp-count_kind :
    (k : CheckKind) (r : Result) (s : ChainStats)
    → all_wrong_resp (count_kind k r s) ≡ (
        if of_liveness k && not r.passed && not r.conn_failed
        then suc (all_wrong_resp s)
        else all_wrong_resp s)
unfolding all_wrong_resp count_kind count_result
all_wrong_resp-count_kind (liveness_of type_rpc) r s = ground arith
all_wrong_resp-count_kind (liveness_of type_rest) r s = ground arith
all_wrong_resp-count_kind (liveness_of type_grpc_web) r s = ground arith
all_wrong_resp-count_kind (liveness_of type_grpc) r s = ground arith
all_wrong_resp-count_kind (liveness_of type_evm) r s = ground arith
all_wrong_resp-count_kind (liveness_of type_wss) r s = ground arith
all_wrong_resp-count_kind chain_id_check r s = ground arith
all_wrong_resp-count_kind unknown_check r s = refl

all_wrong_resp-totals : (m : Dict ChainStats) → all_wrong_resp (totals m) ≡ sum_of all_wrong_resp m
unfolding all_wrong_resp totals add
all_wrong_resp-totals [] = refl
all_wrong_resp-totals ((k, s) ∷ m) = omega (arith, all_wrong_resp-totals m)

chain_id_fail-count_kind :
    (k : CheckKind) (r : Result) (s : ChainStats)
    → (count_kind k r s).chain_id_fail
      ≡ (if of_chain_id k && not r.passed then suc s.chain_id_fail else s.chain_id_fail)
unfolding count_kind
chain_id_fail-count_kind (liveness_of type_rpc) r s = refl
chain_id_fail-count_kind (liveness_of type_rest) r s = refl
chain_id_fail-count_kind (liveness_of type_grpc_web) r s = refl
chain_id_fail-count_kind (liveness_of type_grpc) r s = refl
chain_id_fail-count_kind (liveness_of type_evm) r s = refl
chain_id_fail-count_kind (liveness_of type_wss) r s = refl
chain_id_fail-count_kind chain_id_check r s = ground arith
chain_id_fail-count_kind unknown_check r s = refl

chain_id_fail-totals :
    (m : Dict ChainStats) → (totals m).chain_id_fail ≡ sum_of (λ s. s.chain_id_fail) m
unfolding totals
chain_id_fail-totals [] = refl
chain_id_fail-totals ((k, s) ∷ m) = omega (arith, chain_id_fail-totals m)

-- The results that are not skipped and of which `p` holds, over all chains.
abbrev pub seen : (Result → Bool) → List Result → ℕ
seen p rs = count (λ r. not r.skipped && p r) rs

-- The last line of a run, but for its number of chains.
pub record Sums (sent : List Result) (line : Summary) : Type 0 where
  pub endpoints : line.endpoints ≡ seen measures sent
  pub live : line.live ≡ seen finds_live sent
  pub unreachable : line.unreachable ≡ seen finds_unreachable sent
  pub wrong_response : line.wrong_response ≡ seen finds_wrong sent
  pub mismatches : line.mismatches ≡ seen finds_mismatch sent
  pub dead : line.dead ≡ line.unreachable + line.wrong_response
  pub split : line.endpoints ≡ line.live + line.dead

split_counts :
    (rs : List Result)
    → seen measures rs ≡ seen finds_live rs + (seen finds_unreachable rs + seen finds_wrong rs)
split_counts [] = omega arith
split_counts (r ∷ rs) =
    pieces r.skipped (measures r) r.passed r.conn_failed _ _ _ _ (split_counts rs)
  where
    pieces :
        (skipped measured passed conn_failed : Bool) (n l u w : ℕ)
        → n ≡ l + (u + w)
        → (if not skipped && measured then suc n else n)
          ≡ (if not skipped && (measured && passed) then suc l else l)
            + ((if not skipped && (measured && not passed && conn_failed) then suc u else u)
                + (if not skipped && (measured && not passed && not conn_failed) then suc w else w))
    pieces skipped measured passed conn_failed n l u w h = ground arith

-- The numbers in the last line that a run prints count the results that were not skipped, over all
-- chains: the liveness results, those that passed, those that failed without a connection, those
-- that failed otherwise and the failed chain-ID checks. The live and the dead endpoints add up to
-- the endpoints.
pub summary_of-Sums :
    (verbose : Bool) (sent : List Result)
    → Sums sent (summary_of (collect_results verbose sent).per_chain)
unfolding collect_results summary_of all_endpoints all_live all_dead all_unreachable all_wrong_resp
summary_of-Sums verbose sent =
    let endpoints =
      counted all_endpoints measures refl all_endpoints-totals
        (λ r. all_endpoints-count_kind (check_kind r.check) r) in
    let live =
      counted all_live finds_live refl all_live-totals
        (λ r. all_live-count_kind (check_kind r.check) r) in
    let unreachable =
      counted all_unreachable finds_unreachable refl all_unreachable-totals
        (λ r. all_unreachable-count_kind (check_kind r.check) r) in
    let wrong =
      counted all_wrong_resp finds_wrong refl all_wrong_resp-totals
        (λ r. all_wrong_resp-count_kind (check_kind r.check) r) in
    record {
      endpoints = endpoints;
      live = live;
      unreachable = unreachable;
      wrong_response = wrong;
      mismatches =
          counted (λ s. s.chain_id_fail) finds_mismatch refl chain_id_fail-totals
            (λ r. chain_id_fail-count_kind (check_kind r.check) r);
      dead = refl;
      split = omega (arith, split_counts sent, endpoints, live, unreachable, wrong);
    }
  where
    counted :
        (f : ChainStats → ℕ) (raised : Result → Bool)
        → f no_chain_stats ≡ 0
        → ((m : Dict ChainStats) → f (totals m) ≡ sum_of f m)
        → ((r : Result) (s : ChainStats)
            → f (count_kind (check_kind r.check) r s) ≡ (if raised r then suc (f s) else f s))
        → f (totals (count_all sent [])) ≡ seen raised sent
    counted f raised e whole raise =
        omega (arith, e, whole (count_all sent []), count_all-sum_of f e raised raise sent [])
