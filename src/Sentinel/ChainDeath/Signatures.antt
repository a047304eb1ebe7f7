-- ===== src/Sentinel/ChainDeath/Signatures.antt =====
-- `chainLooksDead` (cmd/sentinel/chaindeath.go), against the two signatures in the policy's words.
use chain_registry_sentinel.Base.{
  ℕ, ◌≤◌, ◌<◌, ◌≡◌, refl, ◌↔◌, ◌⊎◌, String, true, arith, length, count, ltb, count-le-length,
}
use chain_registry_sentinel.Base.Map.{Dict, lookup, or_zero}
use chain_registry_sentinel.Sentinel.ChainDeath.{ChainDeathFacts, withdrawn, chain_looks_dead}

-- The operators with a dead endpoint here that have a live one on some chain of the run. A live one
-- of the chain itself counts as well.
abbrev pub live_somewhere : Dict ℕ → Dict ℕ → ℕ
live_somewhere domain_live dead_domains =
    count (λ (entry : String × ℕ). ltb 0 (or_zero 0 (lookup entry.0 domain_live))) dead_domains

live_somewhere-le-length :
    (domain_live dead_domains : Dict ℕ)
    → live_somewhere domain_live dead_domains ≤ length dead_domains
live_somewhere-le-length domain_live dead_domains = count-le-length _ dead_domains

withdrawn-live_somewhere :
    (domain_live dead_domains : Dict ℕ)
    → withdrawn domain_live dead_domains ≡ live_somewhere domain_live dead_domains
unfolding withdrawn
withdrawn-live_somewhere domain_live dead_domains = refl

-- Abandoned: core endpoints are listed, none of them answered, and at least two operators with a
-- dead endpoint here are live on some chain of the run, this one included: three of them, or all of
-- the operators with a dead endpoint here.
pub record IsAbandoned (f : ChainDeathFacts) (domain_live : Dict ℕ) : Type 0 where
  pub listed : 0 < f.core_total
  pub unreachable : f.core_live ≡ 0
  pub witnesses : 2 ≤ live_somewhere domain_live f.dead_domains
  pub enough :
      (3 ≤ live_somewhere domain_live f.dead_domains)
      ⊎ (live_somewhere domain_live f.dead_domains ≡ length f.dead_domains)

-- Halted: synced RPCs answered, and every one of them with a stale block time.
pub record IsHalted (f : ChainDeathFacts) : Type 0 where
  pub answered : 0 < f.answering_rpc
  pub all_stale : f.stale_rpc ≡ f.answering_rpc

-- A chain looks dead exactly when it is abandoned or halted. Abandoned: core endpoints are listed,
-- none of them answered, and at least two of the operators with a dead endpoint here have a live one
-- on some chain of the run, this one included: three, or all of them. Halted: an RPC answered, and
-- all that did had a stale block time.
pub chain_looks_dead_iff :
    (f : ChainDeathFacts) (domain_live : Dict ℕ)
    → (chain_looks_dead f domain_live ≡ true) ↔ (IsAbandoned f domain_live ⊎ IsHalted f)
unfolding chain_looks_dead
chain_looks_dead_iff f domain_live =
    let most = live_somewhere-le-length domain_live f.dead_domains in
    let same = withdrawn-live_somewhere domain_live f.dead_domains in
    (ground (arith, most, same), ground (arith, most, same))
