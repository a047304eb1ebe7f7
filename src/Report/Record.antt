-- ===== src/Report/Record.antt =====
-- internal/report/record.go: the records of a run. net and time's formatting are arguments.
use chain_registry_sentinel.Base.{
  ℕ, String, Bool, true, false, ◌&&◌, Option, none, some, List, [], ◌∷◌, str_eq, if◌then◌else◌,
}
use chain_registry_sentinel.Base.Int.{ℤ, pos, is_zero}
use chain_registry_sentinel.Base.Map.{lookup, or_zero}
use chain_registry_sentinel.Base.Sort.{text_leb}
use chain_registry_sentinel.Base.Text.{◌+s◌, has_suffix, cut, behind, labels}
use chain_registry_sentinel.Base.Time.{Time, Duration}
use chain_registry_sentinel.Checks.FailureClass.{FailureClass, class_none}
use chain_registry_sentinel.Checks.Result.{Result}
use chain_registry_sentinel.State.{ChainState, EndpointState, endpoint_key, zero_endpoint}
use chain_registry_sentinel.Sentinel.Streaks.{StateMap}

pub record Record : Type 0 where
  pub run_ts : Time
  pub vantage : String
  pub registry_commit : String
  pub concurrency : ℤ
  pub timeout_ms : ℤ
  pub chain : String
  pub chain_id : String
  pub chain_type : String
  pub check : String
  pub endpoint : String
  pub host : String
  pub domain : String
  pub provider : String
  pub order : ℕ
  pub passed : Bool
  pub skipped : Bool
  pub failure_class : FailureClass
  pub http_status : ℕ
  pub latency_ms : ℤ
  pub evidence : String
  pub catching_up : Bool
  pub tx_index : String
  pub latest_block_time : String
  pub method_restricted : Bool
  pub streak : ℤ

-- `Record.liveness`.
unfoldable pub is_liveness : Record → Bool
is_liveness r = has_suffix r.check "_liveness"

pub record RunMeta : Type 0 where
  pub ts : Time
  pub vantage : String
  pub registry_commit : String
  pub concurrency : ℤ
  pub timeout : Duration

-- What the records use of net and time: `SplitHostPort`, whether `ParseIP` reads the text, the
-- milliseconds of a duration, and `UTC().Format(time.RFC3339)`.
pub record Platform : Type 0 where
  pub split_host_port : String → Option (String × String)
  pub is_ip : String → Bool
  pub milliseconds : Duration → ℤ
  pub rfc3339 : Time → String

abbrev first_of : Option (String × String) → String → String
first_of none s = s
first_of (some (before, rest)) s = before

module _ (P : Platform) where
  -- `hostOf`: without the scheme, the path and the port.
  unfoldable pub host_of : String → String
  host_of address =
      let no_scheme = behind address "://" in
      let host = first_of (cut no_scheme b'/') no_scheme in first_of (P.split_host_port host) host

  abbrev last_two : List String → String → String
  last_two [] host = host
  last_two (a ∷ []) host = host
  last_two (a ∷ b ∷ []) host = a +s "." +s b
  last_two (a ∷ b ∷ c ∷ rest) host = last_two (b ∷ c ∷ rest) host

  -- `domainOf`: the last two labels.
  unfoldable pub domain_of : String → String
  domain_of host = if P.is_ip host then host else last_two (labels host b'.') host

  -- `EndpointDomain` and `EndpointHost`.
  unfoldable pub endpoint_domain : String → String
  unfolding domain_of host_of
  endpoint_domain address = domain_of (host_of address)

  unfoldable pub endpoint_host : String → String
  unfolding host_of
  endpoint_host address = host_of address

  abbrev streak_in : Option ChainState → String → ℤ
  streak_in none key = pos 0
  streak_in (some cs) key =
      EndpointState.consecutive_failures (or_zero zero_endpoint (lookup key cs.endpoints))

  abbrev is_none : FailureClass → Bool
  is_none class_none = true
  is_none _ = false

  -- A skipped result without a class is dropped.
  abbrev pub is_dropped : Result → Bool
  is_dropped r = r.skipped && is_none r.failure_class

  unfoldable pub record_of : Result → StateMap → RunMeta → Record
  unfolding host_of domain_of
  record_of r state_map meta =
      let host = host_of r.endpoint in
      record {
        run_ts = meta.ts;
        vantage = meta.vantage;
        registry_commit = meta.registry_commit;
        concurrency = meta.concurrency;
        timeout_ms = P.milliseconds meta.timeout;
        chain = r.chain;
        chain_id = r.chain_id;
        chain_type = r.chain_type;
        check = r.check;
        endpoint = r.endpoint;
        host = host;
        domain = domain_of host;
        provider = r.provider;
        order = r.endpoint_order;
        passed = r.passed;
        skipped = r.skipped;
        failure_class = r.failure_class;
        http_status = r.http_status;
        latency_ms = P.milliseconds r.latency;
        evidence = r.evidence;
        catching_up = r.catching_up;
        tx_index = r.tx_index;
        latest_block_time =
            if is_zero r.latest_block_time then "" else P.rfc3339 r.latest_block_time;
        method_restricted = r.method_restricted;
        streak = streak_in (lookup r.chain state_map) (endpoint_key r.check r.endpoint);
      }

  -- The order of the file: by chain, then check, then endpoint.
  abbrev record_leb : Record → Record → Bool
  record_leb r t =
      if str_eq r.chain t.chain
      then if str_eq r.check t.check
        then text_leb r.endpoint t.endpoint
        else text_leb r.check t.check
      else text_leb r.chain t.chain

  unfoldable pub insert_record : Record → List Record → List Record
  insert_record r [] = r ∷ []
  insert_record r (t ∷ ts) =
      let later = t ∷ insert_record r ts in if record_leb r t then r ∷ t ∷ ts else later

  -- `Build`. No two records of a run agree in chain, check and endpoint, so the sorted list is one
  -- alone.
  unfoldable pub build : List Result → StateMap → RunMeta → List Record
  unfolding record_of insert_record
  build [] state_map meta = []
  build (r ∷ rs) state_map meta =
      let rest = build rs state_map meta in
      if is_dropped r then rest else insert_record (record_of r state_map meta) rest
