-- ===== src/Sentinel/ChainDeath/Alive.antt =====
-- `chainLooksDead` (cmd/sentinel/chaindeath.go) at the facts of a chain that runs.
use chain_registry_sentinel.Base.{
  ◌≤◌, ◌<◌, ◌≡◌, inl, inr, String, Bool, true, false, ◌&&◌, List, [], ◌∷◌, arith, count, Memᴰ, sym,
  Bool-cases,
}
use chain_registry_sentinel.Base.Time.{Time, Duration}
use chain_registry_sentinel.Checks.Result.{Result}
use chain_registry_sentinel.Sentinel.ChainDeath.{is_core, build_chain_death_facts, chain_looks_dead}
use chain_registry_sentinel.Sentinel.ChainDeath.Signatures.{chain_looks_dead_iff}
use chain_registry_sentinel.Sentinel.ChainDeath.Counts.{
  on_chain, is_live_core, is_answering, is_stale, facts_of, build_chain_death_facts-Counted,
}

count-Memᴰ :
    (p : Result → Bool) (r : Result) (rs : List Result) → Memᴰ r rs → p r ≡ true → 0 < count p rs
count-Memᴰ p r [] m h = elim m [ ]
count-Memᴰ p r (x ∷ xs) (Memᴰ.head e) h = rw (sym e, h) (ground arith)
count-Memᴰ p r (x ∷ xs) (Memᴰ.tail m) h = ground (arith, count-Memᴰ p r xs m h)

count-le-count :
    (p q : Result → Bool) (rs : List Result)
    → ((x : Result) → p x ≡ true → q x ≡ true)
    → count p rs ≤ count q rs
count-le-count p q [] weaker = omega arith
count-le-count p q (x ∷ xs) weaker = ground (arith, weaker x, count-le-count p q xs weaker)

answering-live :
    (name : String) (r : Result)
    → on_chain name r ≡ true
    → is_answering r ≡ true
    → (on_chain name r && is_live_core r) ≡ true
unfolding is_core
answering-live name r on answering = ground arith

-- Two tests, one of which implies the other, and an entry that passes only the weaker one.
count-lt-count :
    (p q : Result → Bool) (r : Result) (rs : List Result)
    → ((x : Result) → p x ≡ true → q x ≡ true)
    → Memᴰ r rs
    → q r ≡ true
    → p r ≡ false
    → count p rs < count q rs
count-lt-count p q r [] weaker m h fails = elim m [ ]
count-lt-count p q r (x ∷ xs) weaker (Memᴰ.head e) h fails =
    rw (sym e, h, fails) (ground (arith, count-le-count p q xs weaker))
count-lt-count p q r (x ∷ xs) weaker (Memᴰ.tail m) h fails =
    ground (arith, weaker x, count-lt-count p q r xs weaker m h fails)

module _ (endpoint_domain endpoint_host : String → String) (now : Time)
    (stale_after : Duration) where
  -- A chain with one RPC that answered, is not catching up and reports no stale block time does not
  -- look dead, whatever the other results of the run.
  pub chain_looks_dead-alive :
      (name : String) (r : Result) (rs : List Result)
      → Memᴰ r rs
      → on_chain name r ≡ true
      → is_answering r ≡ true
      → is_stale now stale_after r ≡ false
      → (let built = build_chain_death_facts endpoint_domain endpoint_host rs now stale_after in
          chain_looks_dead (facts_of name built.0) built.1)
        ≡ false
  chain_looks_dead-alive name r rs m on answering fresh =
      let counted =
        build_chain_death_facts-Counted endpoint_domain endpoint_host now stale_after name rs in
      let live =
        count-Memᴰ (λ x. on_chain name x && is_live_core x) r rs m
          (answering-live name r on answering) in
      let fewer =
        count-lt-count (λ x. on_chain name x && (is_answering x && is_stale now stale_after x))
          (λ x. on_chain name x && is_answering x) r rs (λ x h. ground (arith, h)) m
          (ground (arith, on, answering)) (ground (arith, fresh)) in
      let built = build_chain_death_facts endpoint_domain endpoint_host rs now stale_after in
      elim (Bool-cases (chain_looks_dead (facts_of name built.0) built.1)) [
        | inl dead ↦ elim ((chain_looks_dead_iff (facts_of name built.0) built.1).0 dead) [
          | inl abandoned ↦ ground (arith, abandoned.unreachable, counted.live, live)
          | inr halted ↦ ground (arith, halted.all_stale, counted.stale, counted.answering, fewer)
        ]
        | inr alive ↦ alive
      ]
