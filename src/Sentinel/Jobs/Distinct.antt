-- ===== src/Sentinel/Jobs/Distinct.antt =====
-- The jobs that `buildJobs` (cmd/sentinel/probe.go) makes of a chain, against its set `seen`.
use chain_registry_sentinel.Base.{
  ℕ, suc, ◌≡◌, refl, sym, ap, String, Bool, true, false, ◌||◌, List, [], ◌∷◌, ◌++◌, arith, str_eq,
  eq_iff, eq_refl, Bool-cases, inl, inr, Memᴰ,
}
use chain_registry_sentinel.Base.Map.{lookup, insert, is_some, lookup-insert}
use chain_registry_sentinel.Registry.{Chain, Endpoint}
use chain_registry_sentinel.Sentinel.Jobs.{
  EndpointType, Job, Seen, job_key, add_from, add_all, declared, chain_jobs,
}

-- The key of a job in `seen`.
abbrev pub key_of : Job → String
key_of j = job_key j.endpoint_type j.endpoint.address

unfoldable pub has_job : String → List Job → Bool
has_job k [] = false
has_job k (j ∷ js) = str_eq (key_of j) k || has_job k js

-- No two jobs share a type and an address.
abbrev pub IsUnrepeated : List Job → Type 0
IsUnrepeated [] = Unit
IsUnrepeated (j ∷ js) = (has_job (key_of j) js ≡ false) × IsUnrepeated js

abbrev pub was_seen : String → Seen → Bool
was_seen k seen = is_some (lookup k seen)

pub was_seen-insert :
    (k j : String) (seen : Seen) → was_seen j (insert k tt seen) ≡ (str_eq k j || was_seen j seen)
was_seen-insert k j seen = ground (arith, lookup-insert k j tt seen)

has_job-append :
    (k : String) (xs ys : List Job) → has_job k (xs ++ ys) ≡ (has_job k xs || has_job k ys)
unfolding has_job
has_job-append k [] ys = refl
has_job-append k (j ∷ js) ys = ground (arith, has_job-append k js ys)

IsUnrepeated-append :
    (xs ys : List Job)
    → IsUnrepeated xs
    → IsUnrepeated ys
    → ((k : String) → has_job k xs ≡ true → has_job k ys ≡ false)
    → IsUnrepeated (xs ++ ys)
unfolding has_job
IsUnrepeated-append [] ys hx hy apart = hy
IsUnrepeated-append (j ∷ js) ys hx hy apart = (
  ground (arith, has_job-append (key_of j) js ys, apart (key_of j), eq_refl (key_of j)),
  IsUnrepeated-append js ys hx.1 hy (λ k h. apart k (ground arith)),
)

pub has_job-mem : {j : Job} {js : List Job} → Memᴰ j js → has_job (key_of j) js ≡ true
unfolding has_job
has_job-mem (Memᴰ.head {x} e) = rw ((eq_iff (key_of x) _).1 (ap key_of (sym e))) refl
has_job-mem (Memᴰ.tail m) = ground (arith, has_job-mem m)

-- What a loop that appends `jobs` and turns `seen` into `seen'` keeps.
pub record Adds (seen : Seen) (jobs : List Job) (seen' : Seen) : Type 0 where
  pub grows : (k : String) → was_seen k seen' ≡ (was_seen k seen || has_job k jobs)
  pub fresh : (k : String) → has_job k jobs ≡ true → was_seen k seen ≡ false
  pub unrepeated : IsUnrepeated jobs

pub add_from-dup :
    (ch : Chain) (t : EndpointType) (i : ℕ) (ep : Endpoint) (eps : List Endpoint) (seen : Seen)
    → was_seen (job_key t ep.address) seen ≡ true
    → add_from ch t i (ep ∷ eps) seen ≡ add_from ch t (suc i) eps seen
unfolding add_from
add_from-dup ch t i ep eps seen h = simp h

abbrev pub make_job : Chain → EndpointType → ℕ → Endpoint → Job
make_job ch t i ep = record { chain = ch; endpoint = ep; endpoint_type = t; order = suc i }

pub add_from-new :
    (ch : Chain) (t : EndpointType) (i : ℕ) (ep : Endpoint) (eps : List Endpoint) (seen : Seen)
    → was_seen (job_key t ep.address) seen ≡ false
    → add_from ch t i (ep ∷ eps) seen ≡ (
        let rest = add_from ch t (suc i) eps (insert (job_key t ep.address) tt seen) in
        (make_job ch t i ep ∷ rest.0, rest.1))
unfolding add_from
add_from-new ch t i ep eps seen h = simp h

Adds-cons :
    (j : Job) (seen : Seen) (jobs : List Job) (seen' : Seen)
    → was_seen (key_of j) seen ≡ false
    → Adds (insert (key_of j) tt seen) jobs seen'
    → Adds seen (j ∷ jobs) seen'
unfolding has_job
Adds-cons j seen jobs seen' new a = record {
  grows = λ k. ground (arith, a.grows k, was_seen-insert (key_of j) k seen);
  fresh = λ k h. ground (arith, a.fresh k, was_seen-insert (key_of j) k seen, eq_iff (key_of j) k);
  unrepeated = (
    ground
        (arith, a.fresh (key_of j), was_seen-insert (key_of j) (key_of j) seen, eq_refl (key_of j)),
    a.unrepeated,
  );
}

Adds-nil : (seen : Seen) → Adds seen [] seen
unfolding has_job
Adds-nil seen = record { grows = λ k. ground arith; fresh = λ k h. cc; unrepeated = tt }

pub add_from-nil :
    (ch : Chain) (t : EndpointType) (i : ℕ) (seen : Seen) → add_from ch t i [] seen ≡ ([], seen)
unfolding add_from
add_from-nil ch t i seen = refl

pub add_from-Adds :
    (ch : Chain) (t : EndpointType) (i : ℕ) (eps : List Endpoint) (seen : Seen)
    → Adds seen (add_from ch t i eps seen).0 (add_from ch t i eps seen).1
add_from-Adds ch t i [] seen = rw (add_from-nil ch t i seen) (Adds-nil seen)
add_from-Adds ch t i (ep ∷ eps) seen = elim (Bool-cases (was_seen (job_key t ep.address) seen)) [
  | inl dup ↦ rw (add_from-dup ch t i ep eps seen dup) (add_from-Adds ch t (suc i) eps seen)
  | inr new ↦ rw (add_from-new ch t i ep eps seen new) (
      Adds-cons (make_job ch t i ep) seen _ _ (new)
        (add_from-Adds ch t (suc i) eps (insert (job_key t ep.address) tt seen)))
]

Adds-append :
    (seen : Seen) (xs : List Job) (middle : Seen) (ys : List Job) (end : Seen)
    → Adds seen xs middle
    → Adds middle ys end
    → Adds seen (xs ++ ys) end
Adds-append seen xs middle ys end a b = record {
  grows = λ k. ground (arith, a.grows k, b.grows k, has_job-append k xs ys);
  fresh = λ k h. ground (arith, a.fresh k, a.grows k, b.fresh k, has_job-append k xs ys);
  unrepeated =
      IsUnrepeated-append xs ys a.unrepeated b.unrepeated
        (λ k h. ground (arith, a.grows k, b.fresh k));
}

pub add_all-Adds :
    (ch : Chain) (lists : List (List Endpoint × EndpointType)) (seen : Seen)
    → Adds seen (add_all ch lists seen).0 (add_all ch lists seen).1
unfolding add_all
add_all-Adds ch [] seen = Adds-nil seen
add_all-Adds ch ((eps, t) ∷ lists) seen =
    Adds-append seen _ (add_from ch t 0 eps seen).1 _ _ (add_from-Adds ch t 0 eps seen)
      (add_all-Adds ch lists (add_from ch t 0 eps seen).1)

-- No two jobs of a chain have the same key of endpoint type and address, however often the registry
-- repeats an entry.
pub chain_jobs-IsUnrepeated : (ch : Chain) → IsUnrepeated (chain_jobs ch)
unfolding chain_jobs
chain_jobs-IsUnrepeated ch = (add_all-Adds ch (declared ch) []).unrepeated
