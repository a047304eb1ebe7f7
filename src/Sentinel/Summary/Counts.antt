-- ===== src/Sentinel/Summary/Counts.antt =====
-- What the counters of a chain say (cmd/sentinel/summary.go): the results of which kind there were.
use chain_registry_sentinel.Base.{
  ℕ, suc, ◌≡◌, refl, ap, subst, String, Bool, not, ◌&&◌, List, [], count, str_eq, arith,
  if◌then◌else◌,
}
use chain_registry_sentinel.Base.Map.{lookup}
use chain_registry_sentinel.Checks.Result.{Result}
use chain_registry_sentinel.Sentinel.Jobs.{
  EndpointType, type_rpc, type_rest, type_grpc_web, type_grpc, type_evm, type_wss,
  liveness_check_name,
}
use chain_registry_sentinel.Sentinel.Summary.{
  TypeStats, no_type_stats, ChainStats, no_chain_stats, count_result, check_kind, count_kind,
  stats_key, count_all, collect_results,
}
use chain_registry_sentinel.Sentinel.Summary.Fields.{stats_at, count_all-stats_at}
use chain_registry_sentinel.Sentinel.Summary.Kinds.{stat_of, stat_of-count_kind, kind_is-check_kind}

-- A result of a chain that is not skipped, and of which `p` holds.
abbrev pub measured : String → (Result → Bool) → Result → Bool
measured key p r = not r.skipped && str_eq (stats_key r) key && p r

-- The results of the liveness check of a type: all, those that passed, those without a connection, and
-- the others that failed.
module _ (t : EndpointType) where
  abbrev pub checked : Result → Bool
  checked r = str_eq r.check (liveness_check_name t)

  abbrev pub live_of : Result → Bool
  live_of r = checked r && r.passed

  abbrev pub unreachable_of : Result → Bool
  unreachable_of r = checked r && not r.passed && r.conn_failed

  abbrev pub wrong_of : Result → Bool
  wrong_of r = checked r && not r.passed && not r.conn_failed

no_chain_stats-stat_of : (t : EndpointType) → stat_of t no_chain_stats ≡ no_type_stats
no_chain_stats-stat_of type_rpc = refl
no_chain_stats-stat_of type_rest = refl
no_chain_stats-stat_of type_grpc_web = refl
no_chain_stats-stat_of type_grpc = refl
no_chain_stats-stat_of type_evm = refl
no_chain_stats-stat_of type_wss = refl

module _ (t : EndpointType) where
  stat_of-check :
      (r : Result) (s : ChainStats)
      → stat_of t (count_kind (check_kind r.check) r s) ≡ (
          if str_eq r.check (liveness_check_name t)
          then count_result r (stat_of t s)
          else stat_of t s)
  stat_of-check r s =
      subst
        (λ b.
          stat_of t (count_kind (check_kind r.check) r s)
          ≡ (if b then count_result r (stat_of t s) else stat_of t s))
        (kind_is-check_kind t r.check) (stat_of-count_kind t (check_kind r.check) r s)

  total-check :
      (r : Result) (s : ChainStats)
      → (stat_of t (count_kind (check_kind r.check) r s)).total
        ≡ (if checked t r then suc (stat_of t s).total else (stat_of t s).total)
  unfolding count_result
  total-check r s = ground (arith, ap (λ (u : TypeStats). u.total) (stat_of-check r s))

  live-check :
      (r : Result) (s : ChainStats)
      → (stat_of t (count_kind (check_kind r.check) r s)).live
        ≡ (if live_of t r then suc (stat_of t s).live else (stat_of t s).live)
  unfolding count_result
  live-check r s = ground (arith, ap (λ (u : TypeStats). u.live) (stat_of-check r s))

  unreachable-check :
      (r : Result) (s : ChainStats)
      → (stat_of t (count_kind (check_kind r.check) r s)).unreachable
        ≡ (if unreachable_of t r then suc (stat_of t s).unreachable else (stat_of t s).unreachable)
  unfolding count_result
  unreachable-check r s = ground (arith, ap (λ (u : TypeStats). u.unreachable) (stat_of-check r s))

  wrong_resp-check :
      (r : Result) (s : ChainStats)
      → (stat_of t (count_kind (check_kind r.check) r s)).wrong_resp
        ≡ (if wrong_of t r then suc (stat_of t s).wrong_resp else (stat_of t s).wrong_resp)
  unfolding count_result
  wrong_resp-check r s = ground (arith, ap (λ (u : TypeStats). u.wrong_resp) (stat_of-check r s))

  -- Behind the loop of `collectResults` the counters of a chain's endpoint type are these: how many
  -- results of the type's liveness check there were for the chain, not counting skipped ones, how
  -- many of them passed, how many failed without a connection, and how many failed otherwise.
  pub collect_results-stat_of :
      (verbose : Bool) (sent : List Result) (key : String)
      → stat_of t (stats_at key (collect_results verbose sent).per_chain) ≡ record {
        total = count (measured key (checked t)) sent;
        live = count (measured key (live_of t)) sent;
        unreachable = count (measured key (unreachable_of t)) sent;
        wrong_resp = count (measured key (wrong_of t)) sent;
      }
  unfolding collect_results lookup
  collect_results-stat_of verbose sent key = λ i. record {
    total =
        counted (λ s. (stat_of t s).total) (checked t) (ap (λ (u : TypeStats). u.total) empty)
          total-check i;
    live =
        counted (λ s. (stat_of t s).live) (live_of t) (ap (λ (u : TypeStats). u.live) empty)
          live-check i;
    unreachable =
        counted (λ s. (stat_of t s).unreachable) (unreachable_of t)
          (ap (λ (u : TypeStats). u.unreachable) empty) unreachable-check i;
    wrong_resp =
        counted (λ s. (stat_of t s).wrong_resp) (wrong_of t)
          (ap (λ (u : TypeStats). u.wrong_resp) empty) wrong_resp-check i;
  }
    where
      empty : stat_of t no_chain_stats ≡ no_type_stats
      empty = no_chain_stats-stat_of t

      counted :
          (f : ChainStats → ℕ) (raised : Result → Bool)
          → f no_chain_stats ≡ 0
          → ((r : Result) (s : ChainStats)
              → f (count_kind (check_kind r.check) r s) ≡ (if raised r then suc (f s) else f s))
          → f (stats_at key (count_all sent [])) ≡ count (measured key raised) sent
      counted f raised e raise = omega (arith, e, count_all-stats_at f e raised raise key sent [])
