-- ===== src/Sentinel/Evidence/Operators.antt =====
-- The operators that `buildStatusEvidence` (cmd/sentinel/chaindeath.go) lists.
use chain_registry_sentinel.Base.{
  ℕ, suc, ◌<◌, ◌≡◌, refl, inl, inr, String, List, [], ◌∷◌, arith, length, All, Memᴰ, Bool-cases,
  ltb,
}
use chain_registry_sentinel.Base.Int.{ℤ, pos}
use chain_registry_sentinel.Base.Map.{Dict, lookup, or_zero}
use chain_registry_sentinel.State.{ChainState}
use chain_registry_sentinel.Sentinel.ChainDeath.{ChainDeathFacts}
use chain_registry_sentinel.Sentinel.ChainDeath.Signatures.{live_somewhere}
use chain_registry_sentinel.Github.Body.{WithdrawnOperator, StatusPrEvidence}
use chain_registry_sentinel.Sentinel.Evidence.{
  operator_before, operator_of, insert_operator, withdrawn_operators, build_status_evidence,
}

insert_operator-length :
    (w : WithdrawnOperator) (vs : List WithdrawnOperator)
    → length (insert_operator w vs) ≡ suc (length vs)
unfolding insert_operator
insert_operator-length w [] = refl
insert_operator-length w (v ∷ vs) = ground (arith, insert_operator-length w vs)

insert_operator-All {ℓ} :
    (P : WithdrawnOperator → Type ℓ) (w : WithdrawnOperator) (vs : List WithdrawnOperator)
    → P w
    → All P vs
    → All P (insert_operator w vs)
unfolding insert_operator
insert_operator-All P w [] h hs = (h, tt)
insert_operator-All P w (v ∷ vs) h (k, ks) = elim (Bool-cases (operator_before w v)) [
  | inl before ↦ rw before (h, (k, ks))
  | inr behind ↦ rw behind (k, insert_operator-All P w vs h ks)
]

-- An operator stands for an entry of the dead domains, by its domain and the number of its dead
-- endpoints here; its live count is that of the domain over every chain of the run, this one included,
-- and not 0.
pub record IsOperator (domain_live dead : Dict ℕ) (w : WithdrawnOperator) : Type 0 where
  pub dead_count : ℕ
  pub listed : Memᴰ (w.domain, dead_count) dead
  pub dead_here : w.dead_here ≡ pos dead_count
  pub live : w.live_elsewhere ≡ pos (or_zero 0 (lookup w.domain domain_live))
  pub some_live : 0 < or_zero 0 (lookup w.domain domain_live)

module _ (domain_live : Dict ℕ) where
  operators-length :
      (dead : Dict ℕ)
      → length (withdrawn_operators domain_live dead) ≡ live_somewhere domain_live dead
  unfolding withdrawn_operators
  operators-length [] = refl
  operators-length ((d, n) ∷ dead) =
      let live = or_zero 0 (lookup d domain_live) in
      ground (
        arith,
        operators-length dead,
        insert_operator-length (operator_of d n live) (withdrawn_operators domain_live dead),
      )

  operators-IsOperator :
      (all dead : Dict ℕ)
      → ((x : String × ℕ) → Memᴰ x dead → Memᴰ x all)
      → All (IsOperator domain_live all) (withdrawn_operators domain_live dead)
  unfolding withdrawn_operators
  operators-IsOperator all [] within = tt
  operators-IsOperator all ((d, n) ∷ dead) within =
      let live = or_zero 0 (lookup d domain_live) in
      let rest = operators-IsOperator all dead (λ x m. within x (Memᴰ.tail m)) in
      elim (Bool-cases (ltb 0 live)) [
        | inl alive ↦ rw alive (
            insert_operator-All (IsOperator domain_live all) (operator_of d n live)
              (withdrawn_operators domain_live dead)
              (record {
                dead_count = n;
                listed = within (d, n) (Memᴰ.head refl);
                dead_here = refl;
                live = refl;
                some_live = ground (arith, alive);
              })
              rest)
        | inr gone ↦ rw gone rest
      ]

  -- The evidence lists as many operators as there are domains with a dead endpoint on this chain and a
  -- live one on some chain of the run, this one included. Each is such a domain, with the numbers of its
  -- dead endpoints here and of its live ones on all chains, this one included: `LiveElsewhere` counts
  -- the chain itself.
  pub build_status_evidence-IsOperator :
      (decimal : ℤ → String) (f : ChainDeathFacts) (cs : ChainState)
      → (length (StatusPrEvidence.withdrawn (build_status_evidence decimal f domain_live cs))
          ≡ live_somewhere domain_live f.dead_domains)
        × All
            (IsOperator domain_live f.dead_domains)
            (StatusPrEvidence.withdrawn (build_status_evidence decimal f domain_live cs))
  unfolding build_status_evidence
  build_status_evidence-IsOperator decimal f cs = (
    operators-length f.dead_domains,
    operators-IsOperator f.dead_domains f.dead_domains (λ x m. m),
  )
