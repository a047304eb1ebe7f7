-- ===== src/Sentinel/Workers/Agreement.antt =====
-- Runs of `runWorkers` and `collectResults` (cmd/sentinel/probe.go) over the same jobs.
use native.Mathlib.Nat.{ℕ_set}
use mathlib.Core.Logic.{∥∥₁_elim}
use mathlib.Core.List.{cons≢nil, head-eq_of_cons-eq, tail-eq_of_cons-eq, Perm}
use mathlib.Core.List.Perm
use mathlib.Core.List.{Permᴰ}
use chain_registry_sentinel.Base.{
  ℕ, ◌<◌, ◌≡◌, refl, sym, ap, ◌∙◌, subst, Bool, true, List, [], ◌∷◌, ◌++◌, count, length, arith,
  String,
}
use chain_registry_sentinel.Checks.Result.{Result}
use chain_registry_sentinel.Sentinel.Jobs.{Job, EndpointType}
use chain_registry_sentinel.Sentinel.Summary.{collect_results}
use chain_registry_sentinel.Sentinel.Summary.Fields.{stats_at}
use chain_registry_sentinel.Sentinel.Summary.Kinds.{stat_of}
use chain_registry_sentinel.Sentinel.Summary.Counts.{
  measured, checked, live_of, unreachable_of, wrong_of, collect_results-stat_of,
}
use chain_registry_sentinel.Sentinel.Workers.{Pool, Reach}
use chain_registry_sentinel.Sentinel.Workers.Delivery.{
  results_of, jobs_of, AllAnswered, Reach-results_of,
}

module _ {ℓ} {A : Type ℓ} (p : A → Bool) where
  count-Permᴰ : (xs ys : List A) → Permᴰ xs ys → count p xs ≡ count p ys
  count-Permᴰ xs ys Permᴰ.nil = refl
  count-Permᴰ xs ys (Permᴰ.cons {l₁ = l} {l₂ = m} e d) = ground (arith, ap p e, count-Permᴰ l m d)
  count-Permᴰ xs ys (Permᴰ.swap e f) = ground (arith, ap p e, ap p f)
  count-Permᴰ xs ys (Permᴰ.trans {l₂ = zs} d e) = count-Permᴰ xs zs d ∙ count-Permᴰ zs ys e

  pub count-Perm : (xs ys : List A) → Perm xs ys → count p xs ≡ count p ys
  count-Perm xs ys h = ∥∥₁_elim h (ℕ_set _ _) (count-Permᴰ xs ys)

count-true : {A : Type 0} (xs : List A) → count (λ _. true) xs ≡ length xs
count-true [] = refl
count-true (x ∷ xs) = omega (arith, count-true xs)

pub length-Perm : {A : Type 0} (xs ys : List A) → Perm xs ys → length xs ≡ length ys
length-Perm xs ys h = sym (count-true xs) ∙ count-Perm (λ _. true) xs ys h ∙ count-true ys

collect_results-Perm :
    (verbose : Bool) (t : EndpointType) (key : String) (sent taken : List Result)
    → Perm sent taken
    → stat_of t (stats_at key (collect_results verbose sent).per_chain)
      ≡ stat_of t (stats_at key (collect_results verbose taken).per_chain)
collect_results-Perm verbose t key sent taken h =
    collect_results-stat_of t verbose sent key
    ∙ (λ i. record {
      total = count-Perm (measured key (checked t)) sent taken h i;
      live = count-Perm (measured key (live_of t)) sent taken h i;
      unreachable = count-Perm (measured key (unreachable_of t)) sent taken h i;
      wrong_resp = count-Perm (measured key (wrong_of t)) sent taken h i;
    })
    ∙ sym (collect_results-stat_of t verbose taken key)

module _ (Answers : Job → List Result → Type 0) (jobs : List Job)
    (one_answer : (j : Job) (rs ss : List Result) → Answers j rs → Answers j ss → rs ≡ ss) where
  results_of_unique :
      (as' bs : List (Job × List Result))
      → AllAnswered Answers as'
      → AllAnswered Answers bs
      → jobs_of as' ≡ jobs_of bs
      → results_of as' ≡ results_of bs
  results_of_unique [] [] h k e = refl
  results_of_unique [] (b ∷ bs) h k e = absurd (cons≢nil (sym e))
  results_of_unique (a ∷ as') [] h k e = absurd (cons≢nil e)
  results_of_unique ((j, rs) ∷ as') ((i, ss) ∷ bs) h k e =
      ap (λ l. l ++ results_of as')
        (one_answer i rs ss (subst (λ x. Answers x rs) (head-eq_of_cons-eq e) h.0) k.0)
      ∙ ap (λ l. ss ++ l) (results_of_unique as' bs h.1 k.1 (tail-eq_of_cons-eq e))

  -- When the probe of a job gives the same results in each of two runs over the same jobs, then, each
  -- with at least one worker, and however many workers there are and in whatever order they go on,
  -- both runs end with the same counters for every chain and endpoint type.
  pub Reach-collect_results :
      (some_workers other_workers : ℕ) (s t : Pool)
      → 0 < some_workers
      → 0 < other_workers
      → Reach Answers jobs some_workers s
      → Reach Answers jobs other_workers t
      → s.closed ≡ true
      → t.closed ≡ true
      → (verbose : Bool) (type : EndpointType) (key : String)
      → stat_of type (stats_at key (collect_results verbose s.sent).per_chain)
        ≡ stat_of type (stats_at key (collect_results verbose t.sent).per_chain)
  Reach-collect_results n m s t some other reach reach' closed closed' verbose type key =
      let (as', answered, turns, carried) = Reach-results_of Answers jobs n s some reach closed in
      let (bs, answered', turns', carried') =
        Reach-results_of Answers jobs m t other reach' closed' in
      collect_results-Perm verbose type key s.sent t.sent (
        Perm.trans carried (
          subst (λ l. Perm l t.sent)
            (results_of_unique bs as' answered' answered (turns' ∙ sym turns))
            (Perm.symm carried')))
