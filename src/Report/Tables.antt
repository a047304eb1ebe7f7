-- ===== src/Report/Tables.antt =====
-- internal/report/render.go: what the tables decide. Their printing is left out.
pub mod Death
pub mod Suspects
pub mod Vantage
use chain_registry_sentinel.Base.{
  ℕ, ◌+◌, ◌-◌, ◌*◌, String, Bool, true, false, ◌&&◌, ◌||◌, not, Option, none, some, List, [], ◌∷◌,
  keep, map, count, length, str_eq, ◌==◌, ltb, leb, if◌then◌else◌,
}
use chain_registry_sentinel.Base.Map.{Dict, lookup, insert, or_zero}
use chain_registry_sentinel.Base.Sort.{text_leb, sort_strings}
use chain_registry_sentinel.Report.Aggregate.{DomainAgg, ChainAgg, Aggregates}

-- `aggregates.dead` and `domainAgg.dead`.
unfoldable pub dead : Aggregates → ℕ
dead a = a.endpoints - a.live

unfoldable pub domain_dead : DomainAgg → ℕ
domain_dead d = d.total - d.live

-- Whether `renderVantageWarning` warns. `pct(suspect, dead) < 5.0` in 64-bit floats is the comparison
-- below: both counts are far below 2^49, so the quotient is rounded to 5.0 only where it is at least 5.
unfoldable pub vantage_warned : Aggregates → Bool
unfolding dead
vantage_warned a =
    let suspect =
      or_zero 0 (lookup "dns_failure" a.classes)
      + or_zero 0 (lookup "vantage_no_route" a.classes) in
    not (suspect == 0) && not (dead a == 0) && leb (5 * dead a) (100 * suspect)

abbrev pub better : String → ℕ → String × ℕ → Bool
better c n (class, count) = ltb count n || n == count && not (text_leb class c)

-- `domainAgg.dominant`, over the classes of a domain.
unfoldable pub dominant : Dict ℕ → String × ℕ → String × ℕ
dominant [] found = found
dominant ((c, n) ∷ classes) found = dominant classes (if better c n found then (c, n) else found)

-- `remedyBucket`, on the text of a class.
unfoldable pub remedy_bucket : String → String
remedy_bucket class =
    if str_eq class "dns_nxdomain"
    then "gone"
    else if str_eq class "timeout"
        || str_eq class "conn_refused"
        || str_eq class "conn_reset"
        || str_eq class "net_unreachable"
        || str_eq class "eof_no_response"
        || str_eq class "timeout_tls_handshake"
        || str_eq class "dns_failure"
        || str_eq class "vantage_no_route"
    then "unresponsive"
    else "answering"

abbrev domain_lives : Option DomainAgg → Bool
domain_lives none = false
domain_lives (some dom) = ltb 0 dom.live

abbrev pub is_live_domain : Dict DomainAgg → String → Bool
is_live_domain domains d = domain_lives (lookup d domains)

-- `min(3, len(deadDomains))`, at least 2.
unfoldable pub needed : ℕ → ℕ
needed n = let m = if ltb n 3 then n else 3 in if ltb m 2 then 2 else m

pub data Signature : Type 0 where
  unreachable halted no_signature : Signature

-- The signature of `renderDeathCandidates` that a chain shows.
unfoldable pub signature_of : Dict DomainAgg → ChainAgg → Signature
unfolding needed
signature_of domains c =
    let withdrawn = count (λ (d : String × Unit {0}). is_live_domain domains d.0) c.dead_domains in
    if ltb 0 c.core_total && c.core_live == 0 && leb (needed (length c.dead_domains)) withdrawn
    then unreachable
    else if ltb 0 c.answering_rpc && c.stale_rpc == c.answering_rpc
    then halted
    else no_signature

-- The names of the chains of which a test holds, sorted.
abbrev pub names_where : (ChainAgg → Bool) → Dict ChainAgg → List String
names_where p chains =
    sort_strings (map (λ (e : String × ChainAgg). e.0) (keep (λ e. p e.1) chains))

-- `renderChains`: no core endpoint is live.
unfoldable pub unreachable_chains : Aggregates → List String
unreachable_chains a = names_where (λ c. ltb 0 c.core_total && c.core_live == 0) a.chains

-- `renderNoCore`.
unfoldable pub no_core_chains : Aggregates → List String
no_core_chains a = names_where (λ c. c.core_total == 0) a.chains

-- `renderSingleDomain`.
unfoldable pub single_domain_chains : Aggregates → List String
single_domain_chains a = names_where (λ c. length c.domains == 1) a.chains

-- `renderFirstListed`: the chains with a first entry, and those of them with a dead one.
unfoldable pub first_listed : Aggregates → ℕ × ℕ
first_listed a = (
  count (λ (e : String × ChainAgg). e.1.has_first) a.chains,
  count (λ (e : String × ChainAgg). e.1.has_first && e.1.first_dead) a.chains,
)
