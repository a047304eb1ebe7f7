-- ===== src/Sentinel/Evidence.antt =====
-- cmd/sentinel/chaindeath.go: `buildStatusEvidence` and `dominantClasses`. `decimal` stands for `%d`.
pub mod Operators
use chain_registry_sentinel.Base.{
  ℕ, String, Bool, true, false, ◌&&◌, ◌||◌, Option, none, some, List, [], ◌∷◌, str_eq, ◌==◌, ltb,
  if◌then◌else◌,
}
use chain_registry_sentinel.Base.Int.{ℤ, pos, eq_ℤ, ltb_ℤ}
use chain_registry_sentinel.Base.Map.{Dict, lookup, or_zero}
use chain_registry_sentinel.Base.Sort.{text_leb}
use chain_registry_sentinel.Base.Text.{◌+s◌, trim_suffix}
use chain_registry_sentinel.State.{ChainState}
use chain_registry_sentinel.Sentinel.ChainDeath.{CheckTally, ChainDeathFacts}
use chain_registry_sentinel.Github.Body.{WithdrawnOperator, StatusPrEvidence}

-- The order of `dominantClasses`: the larger count first, then the text.
abbrev pub class_before : String × ℕ → String × ℕ → Bool
class_before (c, n) (d, m) = if n == m then text_leb c d else ltb m n

unfoldable pub insert_class : String × ℕ → Dict ℕ → Dict ℕ
insert_class e [] = e ∷ []
insert_class e (f ∷ fs) =
    let later = f ∷ insert_class e fs in if class_before e f then e ∷ f ∷ fs else later

unfoldable pub sort_classes : Dict ℕ → Dict ℕ
unfolding insert_class
sort_classes [] = []
sort_classes (e ∷ es) = insert_class e (sort_classes es)

abbrev pub take_two {ℓ} : {A : Type ℓ} → List A → List A
take_two (x ∷ y ∷ rest) = x ∷ y ∷ []
take_two xs = xs

-- The larger number of dead endpoints first, then the domain.
abbrev pub operator_before : WithdrawnOperator → WithdrawnOperator → Bool
operator_before w v =
    if eq_ℤ w.dead_here v.dead_here
    then text_leb w.domain v.domain
    else ltb_ℤ v.dead_here w.dead_here

unfoldable pub insert_operator : WithdrawnOperator → List WithdrawnOperator → List WithdrawnOperator
insert_operator w [] = w ∷ []
insert_operator w (v ∷ vs) =
    let later = v ∷ insert_operator w vs in if operator_before w v then w ∷ v ∷ vs else later

abbrev pub operator_of : String → ℕ → ℕ → WithdrawnOperator
operator_of d dead_here live = record {
  domain = d;
  live_elsewhere = pos live;
  dead_here = pos dead_here;
}

-- The loop over the dead domains, and the sort.
unfoldable pub withdrawn_operators : Dict ℕ → Dict ℕ → List WithdrawnOperator
unfolding insert_operator
withdrawn_operators domain_live [] = []
withdrawn_operators domain_live ((d, dead_here) ∷ rest) =
    let later = withdrawn_operators domain_live rest in
    let live = or_zero 0 (lookup d domain_live) in
    if ltb 0 live then insert_operator (operator_of d dead_here live) later else later

abbrev pub checks_in_order : List String
checks_in_order =
    "rpc_liveness" ∷ "rest_liveness" ∷ "grpc_liveness" ∷ "grpc_web_liveness" ∷ "evm_liveness"
    ∷ "wss_liveness" ∷ []

module _ (decimal : ℤ → String) where
  abbrev class_part : String × ℕ → String
  class_part (c, n) = c +s " (" +s decimal (pos n) +s ")"

  -- `strings.Join(parts, ", ")` of at most two parts, behind the dash.
  abbrev pub class_parts : Dict ℕ → String
  class_parts [] = ""
  class_parts (e ∷ []) = " — " +s class_part e
  class_parts (e ∷ f ∷ rest) = " — " +s class_part e +s ", " +s class_part f

  -- `dominantClasses`.
  unfoldable pub dominant_classes : Dict ℕ → String
  unfolding sort_classes
  dominant_classes classes = class_parts (take_two (sort_classes classes))

  abbrev pub cons_line : String → Option CheckTally → List String → List String
  unfolding dominant_classes
  cons_line check none lines = lines
  cons_line check (some t) lines =
      ("| `"
        +s trim_suffix check "_liveness"
        +s "` | "
        +s decimal (pos t.live)
        +s "/"
        +s decimal (pos t.total)
        +s " live"
        +s dominant_classes t.classes
        +s " |")
      ∷ lines

  -- The loop over the checks.
  unfoldable pub class_lines : Dict CheckTally → List String → List String
  unfolding cons_line
  class_lines per_check [] = []
  class_lines per_check (check ∷ checks) =
      cons_line check (lookup check per_check) (class_lines per_check checks)

  -- `buildStatusEvidence`.
  unfoldable pub build_status_evidence : ChainDeathFacts → Dict ℕ → ChainState → StatusPrEvidence
  unfolding class_lines withdrawn_operators
  build_status_evidence f domain_live cs = record {
    streak = cs.chain_dead_streak;
    first_seen = cs.chain_dead_first_time;
    endpoints_probed = pos f.endpoints_probed;
    class_lines = class_lines f.per_check checks_in_order;
    withdrawn = withdrawn_operators domain_live f.dead_domains;
    newest_block_time = f.newest_block;
    sample_host = f.sample_host;
  }
