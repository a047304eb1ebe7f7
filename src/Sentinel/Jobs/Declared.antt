-- ===== src/Sentinel/Jobs/Declared.antt =====
-- The jobs that `buildJobs` (cmd/sentinel/probe.go) makes of a chain, against its declared lists.
use mathlib.Core.Option.{some-injective}
use chain_registry_sentinel.Base.{
  ℕ, zero, suc, ◌+◌, ◌<◌, ◌≡◌, refl, sym, String, true, false, List, [], ◌∷◌, arith, str_eq, eq_iff,
  eq_refl, Bool-cases, inl, inr, some, Memᴰ, Memᴰ-append, get_elem?, subst,
}
use chain_registry_sentinel.Base.Map.{insert}
use chain_registry_sentinel.Registry.{Chain, Endpoint}
use chain_registry_sentinel.Sentinel.Jobs.{
  EndpointType, Job, Seen, job_key, add_from, add_all, declared, chain_jobs,
}
use chain_registry_sentinel.Sentinel.Jobs.Distinct.{
  key_of, was_seen, was_seen-insert, add_from-Adds, add_from-dup, add_from-new, add_from-nil,
  make_job, has_job-mem,
}

-- The entry of a job: the list of its type has the job's endpoint at the job's position, and
-- no earlier entry of the same key.
pub record StandsAt (ch : Chain) (t : EndpointType) (eps : List Endpoint) (i : ℕ) (j : Job)
    : Type 0 where
  pub chain : j.chain ≡ ch
  pub type : j.endpoint_type ≡ t
  pub index : ℕ
  pub position : j.order ≡ suc (i + index)
  pub entry : get_elem? eps index ≡ some j.endpoint
  pub first :
      (n : ℕ) (ep : Endpoint)
      → n < index
      → get_elem? eps n ≡ some ep
      → str_eq (job_key t ep.address) (key_of j) ≡ false

StandsAt-first :
    {ch : Chain} {t : EndpointType} {eps : List Endpoint} {i : ℕ} {j : Job} (ep : Endpoint)
    (s : StandsAt ch t eps (suc i) j)
    → str_eq (job_key t ep.address) (key_of j) ≡ false
    → (n : ℕ) (e : Endpoint) → n < suc s.index
    → get_elem? (ep ∷ eps) n ≡ some e
    → str_eq (job_key t e.address) (key_of j) ≡ false
StandsAt-first ep s apart zero e h here = rw (← some-injective _ _ here) apart
StandsAt-first ep s apart (suc n) e h there = s.first n e (omega arith) there

StandsAt-cons :
    {ch : Chain} {t : EndpointType} {eps : List Endpoint} {i : ℕ} {j : Job} (ep : Endpoint)
    → StandsAt ch t eps (suc i) j
    → str_eq (job_key t ep.address) (key_of j) ≡ false
    → StandsAt ch t (ep ∷ eps) i j
StandsAt-cons ep s apart = record {
  chain = s.chain;
  type = s.type;
  index = suc s.index;
  position = omega (arith, s.position);
  entry = s.entry;
  first = StandsAt-first ep s apart;
}

no_job : {j : Job} → ¬ Memᴰ j []
no_job m = elim m [ ]

was_seen-insert_self : (k : String) (seen : Seen) → was_seen k (insert k tt seen) ≡ true
was_seen-insert_self k seen = ground (arith, was_seen-insert k k seen, eq_refl k)

seen_apart :
    (k k' : String) (seen : Seen)
    → was_seen k seen ≡ true
    → was_seen k' seen ≡ false
    → str_eq k k' ≡ false
seen_apart k k' seen a b = ground (arith, eq_iff k k')

stands_behind :
    (ch : Chain) (t : EndpointType) (i : ℕ) (ep : Endpoint) (eps : List Endpoint) (seen : Seen)
    → was_seen (job_key t ep.address) seen ≡ true
    → ((j : Job) → Memᴰ j (add_from ch t (suc i) eps seen).0 → StandsAt ch t eps (suc i) j)
    → {j : Job} → Memᴰ j (make_job ch t i ep ∷ (add_from ch t (suc i) eps seen).0)
    → StandsAt ch t (ep ∷ eps) i j
stands_behind ch t i ep eps seen known rest (Memᴰ.head e) =
    subst (StandsAt ch t (ep ∷ eps) i) (sym e) (record {
      chain = refl;
      type = refl;
      index = 0;
      position = omega arith;
      entry = refl;
      first = λ n e' h. absurd (omega arith);
    })
stands_behind ch t i ep eps seen known rest {j} (Memᴰ.tail m) = StandsAt-cons ep (rest j m) (
    seen_apart (job_key t ep.address) (key_of j) seen known
      ((add_from-Adds ch t (suc i) eps seen).fresh (key_of j) (has_job-mem m)))

add_from-StandsAt :
    (ch : Chain) (t : EndpointType) (i : ℕ) (eps : List Endpoint) (seen : Seen) {j : Job}
    → Memᴰ j (add_from ch t i eps seen).0
    → StandsAt ch t eps i j
add_from-StandsAt ch t i [] seen m = absurd (no_job (rw (add_from-nil ch t i seen) at m))
add_from-StandsAt ch t i (ep ∷ eps) seen {j} m =
    elim (Bool-cases (was_seen (job_key t ep.address) seen)) [
      | inl dup ↦
          let m' = rw (add_from-dup ch t i ep eps seen dup) at m in
          let fresh = (add_from-Adds ch t (suc i) eps seen).fresh (key_of j) (has_job-mem m') in
          StandsAt-cons ep (add_from-StandsAt ch t (suc i) eps seen m')
            (seen_apart (job_key t ep.address) (key_of j) seen dup fresh)
      | inr new ↦
          stands_behind ch t i ep eps (insert (job_key t ep.address) tt seen)
            (was_seen-insert_self _ seen)
            (λ j' m'. add_from-StandsAt ch t (suc i) eps _ {j = j'} m')
            (rw (add_from-new ch t i ep eps seen new) at m)
    ]

-- Where a job comes from: a declared list of its type, and its place there.
pub record IsDeclared (ch : Chain) (lists : List (List Endpoint × EndpointType)) (j : Job)
    : Type 0 where
  pub list : List Endpoint
  pub list_type : EndpointType
  pub is_listed : Memᴰ (list, list_type) lists
  pub place : StandsAt ch list_type list 0 j

IsDeclared-later :
    {ch : Chain} {lists : List (List Endpoint × EndpointType)} {j : Job}
    (l : List Endpoint × EndpointType)
    → IsDeclared ch lists j
    → IsDeclared ch (l ∷ lists) j
IsDeclared-later l d = record {
  list = d.list;
  list_type = d.list_type;
  is_listed = Memᴰ.tail d.is_listed;
  place = d.place;
}

add_all-IsDeclared :
    (ch : Chain) (lists : List (List Endpoint × EndpointType)) (seen : Seen) {j : Job}
    → Memᴰ j (add_all ch lists seen).0
    → IsDeclared ch lists j
unfolding add_all
add_all-IsDeclared ch [] seen m = absurd (no_job m)
add_all-IsDeclared ch ((eps, t) ∷ lists) seen m =
    elim (Memᴰ-append (add_from ch t 0 eps seen).0 m) [
      | inl here ↦ record {
        list = eps;
        list_type = t;
        is_listed = Memᴰ.head refl;
        place = add_from-StandsAt ch t 0 eps seen here;
      }
      | inr there ↦
          IsDeclared-later (eps, t) (add_all-IsDeclared ch lists (add_from ch t 0 eps seen).1 there)
    ]

-- Every job of a chain stands for an entry of a list that the chain's type declares: the job has
-- that chain, the list's type, the entry's 1-based position as its order, and no earlier entry of
-- the list has its address.
pub chain_jobs-IsDeclared :
    (ch : Chain) {j : Job} → Memᴰ j (chain_jobs ch) → IsDeclared ch (declared ch) j
chain_jobs-IsDeclared ch m = add_all-IsDeclared ch (declared ch) [] (unfold chain_jobs in m)
