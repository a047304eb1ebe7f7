-- ===== src/Sentinel/Summary/Kinds.antt =====
-- The checks that `collectResults` (cmd/sentinel/probe.go) tells apart, and the counters that each moves.
use chain_registry_sentinel.Base.{
  ℕ, ◌==◌, ◌≡◌, refl, String, Bool, true, false, if◌then◌else◌, str_eq, eq_iff, arith,
}
use chain_registry_sentinel.Checks.Result.{Result}
use chain_registry_sentinel.Sentinel.Jobs.{
  EndpointType, type_rpc, type_rest, type_grpc_web, type_grpc, type_evm, type_wss,
  liveness_check_name,
}
use chain_registry_sentinel.Sentinel.Summary.{
  TypeStats, ChainStats, count_result, CheckKind, liveness_of, chain_id_check, unknown_check,
  check_kind, count_kind,
}

abbrev pub stat_of : EndpointType → ChainStats → TypeStats
stat_of type_rpc s = s.rpc
stat_of type_rest s = s.rest
stat_of type_grpc_web s = s.grpc_web
stat_of type_grpc s = s.grpc
stat_of type_evm s = s.evm
stat_of type_wss s = s.wss

abbrev type_code : EndpointType → ℕ
type_code type_rpc = 0
type_code type_rest = 1
type_code type_grpc_web = 2
type_code type_grpc = 3
type_code type_evm = 4
type_code type_wss = 5

-- Whether a kind is the liveness check of a type.
abbrev pub kind_is : EndpointType → CheckKind → Bool
kind_is t (liveness_of u) = type_code t == type_code u
kind_is t chain_id_check = false
kind_is t unknown_check = false

pub stat_of-count_kind :
    (t : EndpointType) (k : CheckKind) (r : Result) (s : ChainStats)
    → stat_of t (count_kind k r s)
      ≡ (if kind_is t k then count_result r (stat_of t s) else stat_of t s)
unfolding count_kind
stat_of-count_kind type_rpc (liveness_of type_rpc) r s = refl
stat_of-count_kind type_rest (liveness_of type_rpc) r s = refl
stat_of-count_kind type_grpc_web (liveness_of type_rpc) r s = refl
stat_of-count_kind type_grpc (liveness_of type_rpc) r s = refl
stat_of-count_kind type_evm (liveness_of type_rpc) r s = refl
stat_of-count_kind type_wss (liveness_of type_rpc) r s = refl
stat_of-count_kind type_rpc (liveness_of type_rest) r s = refl
stat_of-count_kind type_rest (liveness_of type_rest) r s = refl
stat_of-count_kind type_grpc_web (liveness_of type_rest) r s = refl
stat_of-count_kind type_grpc (liveness_of type_rest) r s = refl
stat_of-count_kind type_evm (liveness_of type_rest) r s = refl
stat_of-count_kind type_wss (liveness_of type_rest) r s = refl
stat_of-count_kind type_rpc (liveness_of type_grpc_web) r s = refl
stat_of-count_kind type_rest (liveness_of type_grpc_web) r s = refl
stat_of-count_kind type_grpc_web (liveness_of type_grpc_web) r s = refl
stat_of-count_kind type_grpc (liveness_of type_grpc_web) r s = refl
stat_of-count_kind type_evm (liveness_of type_grpc_web) r s = refl
stat_of-count_kind type_wss (liveness_of type_grpc_web) r s = refl
stat_of-count_kind type_rpc (liveness_of type_grpc) r s = refl
stat_of-count_kind type_rest (liveness_of type_grpc) r s = refl
stat_of-count_kind type_grpc_web (liveness_of type_grpc) r s = refl
stat_of-count_kind type_grpc (liveness_of type_grpc) r s = refl
stat_of-count_kind type_evm (liveness_of type_grpc) r s = refl
stat_of-count_kind type_wss (liveness_of type_grpc) r s = refl
stat_of-count_kind type_rpc (liveness_of type_evm) r s = refl
stat_of-count_kind type_rest (liveness_of type_evm) r s = refl
stat_of-count_kind type_grpc_web (liveness_of type_evm) r s = refl
stat_of-count_kind type_grpc (liveness_of type_evm) r s = refl
stat_of-count_kind type_evm (liveness_of type_evm) r s = refl
stat_of-count_kind type_wss (liveness_of type_evm) r s = refl
stat_of-count_kind type_rpc (liveness_of type_wss) r s = refl
stat_of-count_kind type_rest (liveness_of type_wss) r s = refl
stat_of-count_kind type_grpc_web (liveness_of type_wss) r s = refl
stat_of-count_kind type_grpc (liveness_of type_wss) r s = refl
stat_of-count_kind type_evm (liveness_of type_wss) r s = refl
stat_of-count_kind type_wss (liveness_of type_wss) r s = refl
stat_of-count_kind t chain_id_check r s = ground arith
stat_of-count_kind t unknown_check r s = refl

apart : (s a b : String) → str_eq s a ≡ true → str_eq a b ≡ false → str_eq s b ≡ false
apart s a b h e = rw ((eq_iff s a).0 h) e

-- The last cases of the `switch`, and the first ones over what their comparisons gave.
abbrev chain_id_kind : (g h i j k l : Bool) → CheckKind
chain_id_kind g h i j k l =
    if g
    then chain_id_check
    else if h
    then chain_id_check
    else if i
    then chain_id_check
    else if j
    then chain_id_check
    else if k
    then chain_id_check
    else if l
    then chain_id_check
    else unknown_check

chain_id_kind-cases :
    (t : EndpointType) (g h i j k l : Bool) → kind_is t (chain_id_kind g h i j k l) ≡ false
chain_id_kind-cases t g h i j k l = ground arith

abbrev chain_id_of : String → CheckKind
chain_id_of c =
    chain_id_kind (str_eq c "rpc_chain_id") (str_eq c "rest_chain_id") (str_eq c "grpc_chain_id")
      (str_eq c "evm_chain_id") (str_eq c "grpc_web_chain_id") (str_eq c "wss_chain_id")

chain_id_of-cases : (t : EndpointType) (c : String) → kind_is t (chain_id_of c) ≡ false
chain_id_of-cases t c =
    chain_id_kind-cases t (str_eq c "rpc_chain_id") (str_eq c "rest_chain_id")
      (str_eq c "grpc_chain_id") (str_eq c "evm_chain_id") (str_eq c "grpc_web_chain_id")
      (str_eq c "wss_chain_id")

abbrev switch : (a b c d e f : Bool) → CheckKind → CheckKind
switch a b c d e f k =
    if a
    then liveness_of type_rpc
    else if b
    then liveness_of type_rest
    else if c
    then liveness_of type_grpc_web
    else if d
    then liveness_of type_grpc
    else if e
    then liveness_of type_evm
    else if f
    then liveness_of type_wss
    else k

switch_rpc :
    (a b c d e f : Bool) (k : CheckKind)
    → kind_is type_rpc k ≡ false
    → kind_is type_rpc (switch a b c d e f k) ≡ a
switch_rpc a b c d e f k hk = ground arith

switch_rest :
    (a b c d e f : Bool) (k : CheckKind)
    → kind_is type_rest k ≡ false
    → (a ≡ true → b ≡ false)
    → kind_is type_rest (switch a b c d e f k) ≡ b
switch_rest a b c d e f k hk ha = ground arith

switch_grpc_web :
    (a b c d e f : Bool) (k : CheckKind)
    → kind_is type_grpc_web k ≡ false
    → (a ≡ true → c ≡ false)
    → (b ≡ true → c ≡ false)
    → kind_is type_grpc_web (switch a b c d e f k) ≡ c
switch_grpc_web a b c d e f k hk ha hb = ground arith

switch_grpc :
    (a b c d e f : Bool) (k : CheckKind)
    → kind_is type_grpc k ≡ false
    → (a ≡ true → d ≡ false)
    → (b ≡ true → d ≡ false)
    → (c ≡ true → d ≡ false)
    → kind_is type_grpc (switch a b c d e f k) ≡ d
switch_grpc a b c d e f k hk ha hb hc = ground arith

switch_evm :
    (a b c d e f : Bool) (k : CheckKind)
    → kind_is type_evm k ≡ false
    → (a ≡ true → e ≡ false)
    → (b ≡ true → e ≡ false)
    → (c ≡ true → e ≡ false)
    → (d ≡ true → e ≡ false)
    → kind_is type_evm (switch a b c d e f k) ≡ e
switch_evm a b c d e f k hk ha hb hc hd = ground arith

switch_wss :
    (a b c d e f : Bool) (k : CheckKind)
    → kind_is type_wss k ≡ false
    → (a ≡ true → f ≡ false)
    → (b ≡ true → f ≡ false)
    → (c ≡ true → f ≡ false)
    → (d ≡ true → f ≡ false)
    → (e ≡ true → f ≡ false)
    → kind_is type_wss (switch a b c d e f k) ≡ f
switch_wss a b c d e f k hk ha hb hc hd he = ground arith

-- The names by which the loop tells the checks apart are those of the checks' types.
pub kind_is-check_kind :
    (t : EndpointType) (check : String)
    → kind_is t (check_kind check) ≡ str_eq check (liveness_check_name t)
unfolding check_kind liveness_check_name
kind_is-check_kind type_rpc c =
    switch_rpc _ _ _ _ _ _ (chain_id_of c) (chain_id_of-cases type_rpc c)
kind_is-check_kind type_rest c =
    switch_rest _ _ _ _ _ _ (chain_id_of c) (chain_id_of-cases type_rest c)
      (λ h. apart c "rpc_liveness" "rest_liveness" h refl)
kind_is-check_kind type_grpc_web c =
    switch_grpc_web _ _ _ _ _ _ (chain_id_of c) (chain_id_of-cases type_grpc_web c)
      (λ h. apart c "rpc_liveness" "grpc_web_liveness" h refl)
      (λ h. apart c "rest_liveness" "grpc_web_liveness" h refl)
kind_is-check_kind type_grpc c =
    switch_grpc _ _ _ _ _ _ (chain_id_of c) (chain_id_of-cases type_grpc c)
      (λ h. apart c "rpc_liveness" "grpc_liveness" h refl)
      (λ h. apart c "rest_liveness" "grpc_liveness" h refl)
      (λ h. apart c "grpc_web_liveness" "grpc_liveness" h refl)
kind_is-check_kind type_evm c =
    switch_evm _ _ _ _ _ _ (chain_id_of c) (chain_id_of-cases type_evm c)
      (λ h. apart c "rpc_liveness" "evm_liveness" h refl)
      (λ h. apart c "rest_liveness" "evm_liveness" h refl)
      (λ h. apart c "grpc_web_liveness" "evm_liveness" h refl)
      (λ h. apart c "grpc_liveness" "evm_liveness" h refl)
kind_is-check_kind type_wss c =
    switch_wss _ _ _ _ _ _ (chain_id_of c) (chain_id_of-cases type_wss c)
      (λ h. apart c "rpc_liveness" "wss_liveness" h refl)
      (λ h. apart c "rest_liveness" "wss_liveness" h refl)
      (λ h. apart c "grpc_web_liveness" "wss_liveness" h refl)
      (λ h. apart c "grpc_liveness" "wss_liveness" h refl)
      (λ h. apart c "evm_liveness" "wss_liveness" h refl)
