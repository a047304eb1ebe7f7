-- ===== src/Report/Tables/Death.antt =====
-- The candidates of `renderDeathCandidates` (internal/report/render.go) and `chainLooksDead`
-- (cmd/sentinel/chaindeath.go).
use chain_registry_sentinel.Base.{
  ℕ, suc, ◌≡◌, refl, sym, ap, ◌∙◌, String, Bool, true, false, List, [], ◌∷◌, arith, map, count,
  length, ltb,
}
use chain_registry_sentinel.Base.Map.{Dict, lookup, or_zero}
use chain_registry_sentinel.Sentinel.ChainDeath.{
  ChainDeathFacts, withdrawn, needed_witnesses, chain_looks_dead,
}
use chain_registry_sentinel.Report.Aggregate.{DomainAgg, ChainAgg}
use chain_registry_sentinel.Report.Tables.{
  Signature, unreachable, halted, no_signature, is_live_domain, needed, signature_of,
}

abbrev pub is_candidate : Signature → Bool
is_candidate unreachable = true
is_candidate halted = true
is_candidate no_signature = false

module _ {ℓ} {V : Type ℓ} where
  abbrev pub names_of : Dict V → List String
  names_of m = map (λ (e : String × V). e.0) m

  count-names_of :
      (p : String → Bool) (m : Dict V) → count (λ (e : String × V). p e.0) m ≡ count p (names_of m)
  count-names_of p [] = refl
  count-names_of p ((d, v) ∷ m) = ground (arith, count-names_of p m)

  length-names_of : (m : Dict V) → length m ≡ length (names_of m)
  length-names_of [] = refl
  length-names_of ((d, v) ∷ m) = ap suc (length-names_of m)

count-same :
    (p q : String → Bool) (ds : List String) → ((d : String) → p d ≡ q d) → count p ds ≡ count q ds
count-same p q [] h = refl
count-same p q (d ∷ ds) h = let here = h d in ground (arith, count-same p q ds h, here)

needed-needed_witnesses : (n : ℕ) → needed n ≡ needed_witnesses n
unfolding needed needed_witnesses
needed-needed_witnesses n = refl

-- On the same counts of a chain, with dead endpoints on the same domains, and the same domains live,
-- the report names the chain as a candidate exactly when the detection finds that it looks dead.
pub signature_of-chain_looks_dead :
    (f : ChainDeathFacts) (domain_live : Dict ℕ) (c : ChainAgg) (domains : Dict DomainAgg)
    → c.core_total ≡ f.core_total
    → c.core_live ≡ f.core_live
    → c.answering_rpc ≡ f.answering_rpc
    → c.stale_rpc ≡ f.stale_rpc
    → names_of c.dead_domains ≡ names_of f.dead_domains
    → ((d : String) → is_live_domain domains d ≡ ltb 0 (or_zero 0 (lookup d domain_live)))
    → is_candidate (signature_of domains c) ≡ chain_looks_dead f domain_live
unfolding signature_of chain_looks_dead withdrawn
signature_of-chain_looks_dead f domain_live c domains total live answering stale names same =
    let counted =
      count-names_of (is_live_domain domains) c.dead_domains
      ∙ ap (count (is_live_domain domains)) names
      ∙ count-same (is_live_domain domains) (λ d. ltb 0 (or_zero 0 (lookup d domain_live)))
          (names_of f.dead_domains) same
      ∙ sym (count-names_of (λ d. ltb 0 (or_zero 0 (lookup d domain_live))) f.dead_domains) in
    let sized =
      length-names_of c.dead_domains ∙ ap length names ∙ sym (length-names_of f.dead_domains) in
    let enough = ap needed sized ∙ needed-needed_witnesses (length f.dead_domains) in
    ground (arith, counted, enough, total, live, answering, stale)
