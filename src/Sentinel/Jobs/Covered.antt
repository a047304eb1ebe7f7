-- ===== src/Sentinel/Jobs/Covered.antt =====
-- The declared entries of a chain, against the jobs of `buildJobs` (cmd/sentinel/probe.go).
use chain_registry_sentinel.Base.{
  ℕ, suc, ◌≡◌, refl, sym, subst, String, true, false, List, [], ◌∷◌, arith, eq_refl, Bool-cases,
  inl, inr, Memᴰ, Bool, str_eq, eq_iff, ◌&&◌, ◌||◌,
}
use chain_registry_sentinel.Base.Map.{lookup, insert}
use chain_registry_sentinel.Registry.{Chain, Endpoint}
use chain_registry_sentinel.Sentinel.Jobs.{
  Job, EndpointType, type_rpc, type_rest, type_grpc_web, type_grpc, type_evm, type_wss, Seen,
  job_key, add_from, add_all, declared, chain_jobs,
}
use chain_registry_sentinel.Sentinel.Jobs.Distinct.{
  has_job, key_of, was_seen, was_seen-insert, add_from-Adds, add_all-Adds, add_from-dup,
  add_from-new,
}
use chain_registry_sentinel.Sentinel.Jobs.Keys.{job_key-injective}

add_from-keeps :
    (ch : Chain) (t : EndpointType) (i : ℕ) (eps : List Endpoint) (seen : Seen) (k : String)
    → was_seen k seen ≡ true
    → was_seen k (add_from ch t i eps seen).1 ≡ true
add_from-keeps ch t i eps seen k h = ground (arith, (add_from-Adds ch t i eps seen).grows k)

was_seen-inserted : (k : String) (seen : Seen) → was_seen k (insert k tt seen) ≡ true
was_seen-inserted k seen = ground (arith, was_seen-insert k k seen, eq_refl k)

lookup-nil : (k : String) → was_seen k [] ≡ false
unfolding lookup
lookup-nil k = refl

covered_by_head :
    (ch : Chain) (t : EndpointType) (i : ℕ) (x : Endpoint) (eps : List Endpoint) (seen : Seen)
    → was_seen (job_key t x.address) seen ≡ true
    → ((ep : Endpoint)
        → Memᴰ ep eps
        → was_seen (job_key t ep.address) (add_from ch t i eps seen).1 ≡ true)
    → (ep : Endpoint) → Memᴰ ep (x ∷ eps)
    → was_seen (job_key t ep.address) (add_from ch t i eps seen).1 ≡ true
covered_by_head ch t i x eps seen known rest ep (Memᴰ.head e) =
    subst (λ (p : Endpoint). was_seen (job_key t p.address) (add_from ch t i eps seen).1 ≡ true)
      (sym e) (add_from-keeps ch t i eps seen (job_key t x.address) known)
covered_by_head ch t i x eps seen known rest ep (Memᴰ.tail m) = rest ep m

add_from-covers :
    (ch : Chain) (t : EndpointType) (i : ℕ) (eps : List Endpoint) (seen : Seen) (ep : Endpoint)
    → Memᴰ ep eps
    → was_seen (job_key t ep.address) (add_from ch t i eps seen).1 ≡ true
add_from-covers ch t i [] seen ep m = elim m [ ]
add_from-covers ch t i (x ∷ eps) seen ep m =
    elim (Bool-cases (was_seen (job_key t x.address) seen)) [
      | inl dup ↦ rw (add_from-dup ch t i x eps seen dup) (
          covered_by_head ch t (suc i) x eps seen dup
            (λ e m'. add_from-covers ch t (suc i) eps seen e m') ep m)
      | inr new ↦
          let seen' = insert (job_key t x.address) tt seen in
          rw (add_from-new ch t i x eps seen new) (
            covered_by_head ch t (suc i) x eps seen' (was_seen-inserted _ seen)
              (λ e m'. add_from-covers ch t (suc i) eps seen' e m') ep m)
    ]

add_all-covers :
    (ch : Chain) (lists : List (List Endpoint × EndpointType)) (seen : Seen) {eps : List Endpoint}
    {t : EndpointType} {ep : Endpoint}
    → Memᴰ (eps, t) lists
    → Memᴰ ep eps
    → was_seen (job_key t ep.address) (add_all ch lists seen).1 ≡ true
unfolding add_all
add_all-covers ch [] seen l m = elim l [ ]
add_all-covers ch ((es, u) ∷ lists) seen {eps} {t} {ep} (Memᴰ.head e) m =
    let middle = (add_from ch u 0 es seen).1 in
    let first =
      subst
        (λ (p : List Endpoint × EndpointType).
          Memᴰ ep p.0 → was_seen (job_key p.1 ep.address) middle ≡ true)
        (sym e) (add_from-covers ch u 0 es seen ep) m in
    ground (arith, first, (add_all-Adds ch lists middle).grows (job_key t ep.address))
add_all-covers ch ((es, u) ∷ lists) seen (Memᴰ.tail l) m =
    add_all-covers ch lists (add_from ch u 0 es seen).1 l m

was_added :
    (ch : Chain) {eps : List Endpoint} {t : EndpointType} {ep : Endpoint}
    → Memᴰ (eps, t) (declared ch)
    → Memᴰ ep eps
    → has_job (job_key t ep.address) (chain_jobs ch) ≡ true
unfolding chain_jobs
was_added ch {t} {ep} l m =
    let k = job_key t ep.address in
    ground (
      arith,
      (add_all-Adds ch (declared ch) []).grows k,
      add_all-covers ch (declared ch) [] l m,
      lookup-nil k,
    )

has_job-found :
    (k : String) (js : List Job) → has_job k js ≡ true → (j : Job) × Memᴰ j js × (key_of j ≡ k)
unfolding has_job
has_job-found k [] h = cc h
has_job-found k (j ∷ js) h = elim (Bool-cases (str_eq (key_of j) k)) [
  | inl same ↦ (j, Memᴰ.head refl, (eq_iff (key_of j) k).0 same)
  | inr other ↦
      let (found, listed, e) = has_job-found k js (ground (arith, h)) in
      (found, Memᴰ.tail listed, e)
]

-- The chain's list of the endpoints of a type.
abbrev pub list_of : Chain → EndpointType → List Endpoint
list_of ch type_rpc = ch.rpcs
list_of ch type_rest = ch.rest_endpoints
list_of ch type_grpc_web = ch.grpc_web_endpoints
list_of ch type_grpc = ch.grpc_endpoints
list_of ch type_evm = ch.evm_endpoints
list_of ch type_wss = ch.wss_endpoints

abbrev is_evm : EndpointType → Bool
is_evm type_evm = true
is_evm _ = false

-- A Cosmos chain is probed at each of its lists, an EIP-155 chain at its EVM endpoints.
abbrev pub is_probed : String → EndpointType → Bool
is_probed chain_type t = str_eq chain_type "cosmos" || str_eq chain_type "eip155" && is_evm t

in_cosmos :
    (ch : Chain) (t : EndpointType)
    → Memᴰ {A = List Endpoint × EndpointType}
        (list_of ch t, t)
        ((ch.rpcs, type_rpc)
          ∷ (ch.rest_endpoints, type_rest)
          ∷ (ch.grpc_web_endpoints, type_grpc_web)
          ∷ (ch.grpc_endpoints, type_grpc)
          ∷ (ch.wss_endpoints, type_wss)
          ∷ (ch.evm_endpoints, type_evm)
          ∷ [])
in_cosmos ch type_rpc = Memᴰ.head refl
in_cosmos ch type_rest = Memᴰ.tail (Memᴰ.head refl)
in_cosmos ch type_grpc_web = Memᴰ.tail (Memᴰ.tail (Memᴰ.head refl))
in_cosmos ch type_grpc = Memᴰ.tail (Memᴰ.tail (Memᴰ.tail (Memᴰ.head refl)))
in_cosmos ch type_wss = Memᴰ.tail (Memᴰ.tail (Memᴰ.tail (Memᴰ.tail (Memᴰ.head refl))))
in_cosmos ch type_evm = Memᴰ.tail (Memᴰ.tail (Memᴰ.tail (Memᴰ.tail (Memᴰ.tail (Memᴰ.head refl)))))

in_evm :
    (ch : Chain) (t : EndpointType)
    → is_evm t ≡ true
    → Memᴰ {A = List Endpoint × EndpointType} (list_of ch t, t) ((ch.evm_endpoints, type_evm) ∷ [])
in_evm ch type_evm h = Memᴰ.head refl
in_evm ch type_rpc h = cc h
in_evm ch type_rest h = cc h
in_evm ch type_grpc_web h = cc h
in_evm ch type_grpc h = cc h
in_evm ch type_wss h = cc h

declared-list_of :
    (ch : Chain) (t : EndpointType)
    → is_probed ch.chain_type t ≡ true
    → Memᴰ {A = List Endpoint × EndpointType} (list_of ch t, t) (declared ch)
unfolding declared
declared-list_of ch t h = elim (Bool-cases (str_eq ch.chain_type "cosmos")) [
  | inl cosmos ↦ rw cosmos (in_cosmos ch t)
  | inr other ↦ elim (Bool-cases (str_eq ch.chain_type "eip155")) [
    | inl evm ↦ rw (other, evm) (in_evm ch t (rw (other, evm) at h))
    | inr neither ↦ cc (rw (other, neither) at h)
  ]
]

-- Every endpoint that a Cosmos chain lists, and every EVM endpoint of an EIP-155 chain, is probed: some
-- job of the chain has the type of its list and its address.
pub chain_jobs-covers :
    (ch : Chain) (t : EndpointType) {ep : Endpoint}
    → is_probed ch.chain_type t ≡ true
    → Memᴰ ep (list_of ch t)
    → (j : Job) × Memᴰ j (chain_jobs ch) × (j.endpoint_type ≡ t) × (j.endpoint.address ≡ ep.address)
chain_jobs-covers ch t {ep} probed m =
    let key = job_key t ep.address in
    let (j, listed, e) =
      has_job-found key (chain_jobs ch) (was_added ch (declared-list_of ch t probed) m) in
    let (same_type, same_address) =
      job_key-injective j.endpoint_type t j.endpoint.address ep.address e in
    (j, listed, same_type, same_address)
