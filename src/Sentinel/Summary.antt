-- ===== src/Sentinel/Summary.antt =====
-- cmd/sentinel/probe.go: `collectResults`; cmd/sentinel/summary.go: the counters and what is printed of
-- them. The columns' widths and the ruler are left out.
pub mod Fields
pub mod Kinds
pub mod Counts
pub mod Printed
use chain_registry_sentinel.Base.{
  ℕ, suc, ◌+◌, ◌==◌, String, Bool, true, false, not, ◌&&◌, Option, none, some, List, [], ◌∷◌, ◌++◌,
  map, length, str_eq, if◌then◌else◌,
}
use chain_registry_sentinel.Base.Map.{Dict, lookup, insert, or_zero}
use chain_registry_sentinel.Base.Sort.{sort_strings}
use chain_registry_sentinel.Base.Text.{◌+s◌}
use chain_registry_sentinel.Checks.FailureClass.{class_text}
use chain_registry_sentinel.Checks.Result.{Result}
use chain_registry_sentinel.Sentinel.Jobs.{
  EndpointType, type_rpc, type_rest, type_grpc_web, type_grpc, type_evm, type_wss,
}

pub record TypeStats : Type 0 where
  pub total : ℕ
  pub live : ℕ
  pub unreachable : ℕ
  pub wrong_resp : ℕ

abbrev pub no_type_stats : TypeStats
no_type_stats = record { total = 0; live = 0; unreachable = 0; wrong_resp = 0 }

-- `t.add(other)`.
unfoldable pub add : TypeStats → TypeStats → TypeStats
add t other = record {
  total = t.total + other.total;
  live = t.live + other.live;
  unreachable = t.unreachable + other.unreachable;
  wrong_resp = t.wrong_resp + other.wrong_resp;
}

pub record ChainStats : Type 0 where
  pub rpc : TypeStats
  pub rest : TypeStats
  pub grpc_web : TypeStats
  pub grpc : TypeStats
  pub evm : TypeStats
  pub wss : TypeStats
  pub chain_id_fail : ℕ

abbrev pub no_chain_stats : ChainStats
no_chain_stats = record {
  rpc = no_type_stats;
  rest = no_type_stats;
  grpc_web = no_type_stats;
  grpc = no_type_stats;
  evm = no_type_stats;
  wss = no_type_stats;
  chain_id_fail = 0;
}

unfoldable pub all_endpoints : ChainStats → ℕ
all_endpoints s =
    s.rpc.total + s.rest.total + s.grpc_web.total + s.grpc.total + s.evm.total + s.wss.total

unfoldable pub all_live : ChainStats → ℕ
all_live s = s.rpc.live + s.rest.live + s.grpc_web.live + s.grpc.live + s.evm.live + s.wss.live

unfoldable pub all_unreachable : ChainStats → ℕ
all_unreachable s =
    s.rpc.unreachable + s.rest.unreachable + s.grpc_web.unreachable + s.grpc.unreachable
    + s.evm.unreachable + s.wss.unreachable

unfoldable pub all_wrong_resp : ChainStats → ℕ
all_wrong_resp s =
    s.rpc.wrong_resp + s.rest.wrong_resp + s.grpc_web.wrong_resp + s.grpc.wrong_resp
    + s.evm.wrong_resp + s.wss.wrong_resp

unfoldable pub all_dead : ChainStats → ℕ
all_dead s = all_unreachable s + all_wrong_resp s

-- The `switch` on the outcome, at the counters that `ts` points to.
unfoldable pub count_result : Result → TypeStats → TypeStats
count_result r ts =
    if r.passed
    then record ts { total = suc ts.total; live = suc ts.live }
    else if r.conn_failed
    then record ts { total = suc ts.total; unreachable = suc ts.unreachable }
    else record ts { total = suc ts.total; wrong_resp = suc ts.wrong_resp }

-- What the `switch r.Check` makes of a name: a liveness check of a type, a chain-ID check, or none.
pub data CheckKind : Type 0 where
  liveness_of : EndpointType → CheckKind
  chain_id_check : CheckKind
  unknown_check : CheckKind

unfoldable pub check_kind : String → CheckKind
check_kind check =
    if str_eq check "rpc_liveness"
    then liveness_of type_rpc
    else if str_eq check "rest_liveness"
    then liveness_of type_rest
    else if str_eq check "grpc_web_liveness"
    then liveness_of type_grpc_web
    else if str_eq check "grpc_liveness"
    then liveness_of type_grpc
    else if str_eq check "evm_liveness"
    then liveness_of type_evm
    else if str_eq check "wss_liveness"
    then liveness_of type_wss
    else if str_eq check "rpc_chain_id"
    then chain_id_check
    else if str_eq check "rest_chain_id"
    then chain_id_check
    else if str_eq check "grpc_chain_id"
    then chain_id_check
    else if str_eq check "evm_chain_id"
    then chain_id_check
    else if str_eq check "grpc_web_chain_id"
    then chain_id_check
    else if str_eq check "wss_chain_id"
    then chain_id_check
    else unknown_check

-- The chain's counters behind the `switch`.
unfoldable pub count_kind : CheckKind → Result → ChainStats → ChainStats
unfolding count_result
count_kind (liveness_of type_rpc) r s = record s { rpc = count_result r s.rpc }
count_kind (liveness_of type_rest) r s = record s { rest = count_result r s.rest }
count_kind (liveness_of type_grpc_web) r s = record s { grpc_web = count_result r s.grpc_web }
count_kind (liveness_of type_grpc) r s = record s { grpc = count_result r s.grpc }
count_kind (liveness_of type_evm) r s = record s { evm = count_result r s.evm }
count_kind (liveness_of type_wss) r s = record s { wss = count_result r s.wss }
count_kind chain_id_check r s =
    if r.passed then s else record s { chain_id_fail = suc s.chain_id_fail }
count_kind unknown_check r s = s

unfoldable pub stats_key : Result → String
stats_key r = r.chain +s "/" +s r.chain_id

-- One turn of the loop of `collectResults` at `perChain`.
unfoldable pub count_one : Result → Dict ChainStats → Dict ChainStats
count_one r per_chain =
    let key = stats_key r in
    let s = or_zero no_chain_stats (lookup key per_chain) in
    if r.skipped then per_chain else insert key (count_kind (check_kind r.check) r s) per_chain

unfoldable pub count_all : List Result → Dict ChainStats → Dict ChainStats
count_all [] per_chain = per_chain
count_all (r ∷ rs) per_chain = count_all rs (count_one r per_chain)

-- What `printResultLine` prints of a result: a tag, the key, the check, the endpoint, the evidence.
pub data ConsoleLine : Type 0 where
  skip_line : String → String → String → String → ConsoleLine
  pass_line : String → String → String → ConsoleLine
  err_line : String → String → String → String → ConsoleLine
  fail_line : String → String → String → String → ConsoleLine

unfoldable pub result_line : Bool → Result → List ConsoleLine
unfolding stats_key class_text
result_line verbose r =
    let key = stats_key r in
    if r.skipped
    then if verbose && not (str_eq (class_text r.failure_class) "")
      then skip_line key r.check r.endpoint r.evidence ∷ []
      else []
    else if r.passed
    then if verbose then pass_line key r.check r.endpoint ∷ [] else []
    else if r.conn_failed
    then err_line key r.check r.endpoint r.evidence ∷ []
    else fail_line key r.check r.endpoint r.evidence ∷ []

unfoldable pub result_lines : Bool → List Result → List ConsoleLine
unfolding result_line
result_lines verbose [] = []
result_lines verbose (r ∷ rs) = result_line verbose r ++ result_lines verbose rs

pub record Collected : Type 0 where
  pub per_chain : Dict ChainStats
  pub keys : List String
  pub results : List Result
  pub printed : List ConsoleLine

-- `collectResults` at what the channel carries.
unfoldable pub collect_results : Bool → List Result → Collected
collect_results verbose sent =
    let per_chain = count_all sent [] in
    record {
      per_chain = per_chain;
      keys = sort_strings (map (λ (e : String × ChainStats). e.0) per_chain);
      results = sent;
      printed = result_lines verbose sent;
    }

-- The loop of `printSummary` over `perChain`.
unfoldable pub totals : Dict ChainStats → ChainStats
unfolding add
totals [] = no_chain_stats
totals ((k, s) ∷ per_chain) =
    let rest = totals per_chain in
    record {
      rpc = add rest.rpc s.rpc;
      rest = add rest.rest s.rest;
      grpc_web = add rest.grpc_web s.grpc_web;
      grpc = add rest.grpc s.grpc;
      evm = add rest.evm s.evm;
      wss = add rest.wss s.wss;
      chain_id_fail = rest.chain_id_fail + s.chain_id_fail;
    }

-- The numbers of the last line.
pub record Summary : Type 0 where
  pub endpoints : ℕ
  pub live : ℕ
  pub dead : ℕ
  pub unreachable : ℕ
  pub wrong_response : ℕ
  pub mismatches : ℕ
  pub chains : ℕ

unfoldable pub summary_of : Dict ChainStats → Summary
summary_of per_chain =
    let t = totals per_chain in
    record {
      endpoints = all_endpoints t;
      live = all_live t;
      dead = all_dead t;
      unreachable = all_unreachable t;
      wrong_response = all_wrong_resp t;
      mismatches = t.chain_id_fail;
      chains = length per_chain;
    }

module _ (decimal : ℕ → String) where
  -- `typeStats.format`.
  unfoldable pub format : TypeStats → String
  format t = if t.total == 0 then "-" else decimal t.live +s "/" +s decimal t.total

  -- The cells of a row, in the order of the header.
  unfoldable pub row : ChainStats → List String
  unfolding format
  row s =
      format s.rpc
      ∷ format s.rest
      ∷ format s.grpc
      ∷ format s.grpc_web
      ∷ format s.evm
      ∷ format s.wss
      ∷ decimal s.chain_id_fail
      ∷ []

  unfoldable pub rows : List String → Dict ChainStats → List (String × List String)
  unfolding row
  rows [] per_chain = []
  rows (k ∷ ks) per_chain =
      (k, row (or_zero no_chain_stats (lookup k per_chain))) ∷ rows ks per_chain
