-- ===== src/Github/Open/Freshness.antt =====
-- `NextBranchN` (internal/github/client.go) and the branch it is for.
use text.Mathlib.TextLemmas.{append_assoc}
use chain_registry_sentinel.Base.{
  ◌≡◌, refl, sym, ap, ◌∙◌, String, Option, none, some, List, [], ◌∷◌, arith, All, subst,
}
use chain_registry_sentinel.Base.Int.{ℤ, pos, negsuc, ◌≤ℤ◌, ◌<ℤ◌, max_int, increment}
use chain_registry_sentinel.Base.Text.{◌+s◌, trim_prefix, trim_prefix-append}
use chain_registry_sentinel.Github.Outcome.{Outcome, ok}
use chain_registry_sentinel.Github.Call.{
  Answer, answered, answer_of, Request, Network, Formats, Session, wrapped, call, ◌>>=◌,
}
use chain_registry_sentinel.Github.Client.{
  get_request, repo_path, larger, largest, branch_prefix, next_branch_n,
}

larger-above : (o : Option ℤ) (m : ℤ) → m ≤ℤ larger o m
larger-above none m = omega arith
larger-above (some n) m = ground arith

larger-some : (n m : ℤ) → n ≤ℤ larger (some n) m
larger-some n m = ground arith

larger-below : (o : Option ℤ) (m b : ℤ) → m <ℤ b → ((k : ℤ) → o ≡ some k → k <ℤ b) → larger o m <ℤ b
larger-below none m b h hs = h
larger-below (some n) m b h hs = let below = hs n refl in ground arith

increment-above : (x : ℤ) → pos 0 ≤ℤ x → x <ℤ pos max_int → x <ℤ increment x
unfolding increment
increment-above (pos n) h k = ground arith
increment-above (negsuc n) h k = omega arith

module _ (N : Network) (F : Formats) where
  abbrev suffix_of : String → String → Option ℤ
  suffix_of prefix r = F.atoi (trim_prefix r prefix)

  largest-above : (prefix : String) (refs : List String) (m : ℤ) → m ≤ℤ largest N F prefix refs m
  unfolding largest
  largest-above prefix [] m = omega arith
  largest-above prefix (r ∷ rs) m = omega (
    arith,
    larger-above (suffix_of prefix r) m,
    largest-above prefix rs (larger (suffix_of prefix r) m),
  )

  largest-refs :
      (prefix : String) (refs : List String) (m : ℤ)
      → All (λ r. (k : ℤ) → suffix_of prefix r ≡ some k → k ≤ℤ largest N F prefix refs m) refs
  unfolding largest
  largest-refs prefix [] m = tt
  largest-refs prefix (r ∷ rs) m =
      let later = larger (suffix_of prefix r) m in
      let above = largest-above prefix rs later in
      (
        λ k e.
            let here : k ≤ℤ later = subst (λ o. k ≤ℤ larger o m) (sym e) (larger-some k m) in
            omega (arith, here, above),
        largest-refs prefix rs later,
      )

  largest-below :
      (prefix : String) (refs : List String) (m b : ℤ)
      → m <ℤ b
      → All (λ r. (k : ℤ) → suffix_of prefix r ≡ some k → k <ℤ b) refs
      → largest N F prefix refs m <ℤ b
  unfolding largest
  largest-below prefix [] m b h hs = h
  largest-below prefix (r ∷ rs) m b h (here, hs) =
      largest-below prefix rs (larger (suffix_of prefix r) m) b
        (larger-below (suffix_of prefix r) m b h here) hs

  pub branch_ref : (chain : String) (n : ℤ) → String
  branch_ref chain n = "refs/heads/" +s ("sentinel/" +s chain +s "-" +s F.decimal n)

  branch_ref-prefix :
      (chain : String) (n : ℤ) → branch_ref chain n ≡ branch_prefix N F chain +s F.decimal n
  unfolding branch_ref branch_prefix
  branch_ref-prefix chain n =
      sym (append_assoc "refs/heads/" ("sentinel/" +s chain +s "-") (F.decimal n))
      ∙ ap (λ t. t +s F.decimal n)
          (sym (append_assoc "refs/heads/" ("sentinel/" +s chain) "-")
            ∙ ap (λ t. t +s "-") (sym (append_assoc "refs/heads/" "sentinel/" chain)))

  -- The number is printed and read back as itself.
  fresh_refs :
      (chain : String) (n : ℤ) (refs : List String)
      → F.atoi (F.decimal n) ≡ some n
      → All (λ r. (k : ℤ) → suffix_of (branch_prefix N F chain) r ≡ some k → k <ℤ n) refs
      → All (λ r. ¬ (r ≡ branch_ref chain n)) refs
  fresh_refs chain n [] print h = tt
  fresh_refs chain n (r ∷ rs) print (here, h) = (
    λ e.
        let prefix = branch_prefix N F chain in
        let same =
          ap (λ t. F.atoi (trim_prefix t prefix)) (e ∙ branch_ref-prefix chain n)
          ∙ ap F.atoi (trim_prefix-append prefix (F.decimal n)) in
        omega (arith, here n (same ∙ print)),
    fresh_refs chain n rs print h,
  )

  All-below :
      (prefix : String) (a b : ℤ) (refs : List String)
      → a <ℤ b
      → All (λ r. (k : ℤ) → suffix_of prefix r ≡ some k → k ≤ℤ a) refs
      → All (λ r. (k : ℤ) → suffix_of prefix r ≡ some k → k <ℤ b) refs
  All-below prefix a b [] lt h = tt
  All-below prefix a b (r ∷ rs) lt (here, h) =
      (λ k e. let le = here k e in omega (arith, le, lt), All-below prefix a b rs lt h)

  abbrev pub refs_request : String → String → String → Request
  refs_request owner repo chain =
      get_request (repo_path owner repo +s "/git/matching-refs/heads/sentinel/" +s chain +s "-")

  answered-answer_of {ℓ} :
      {A : Type ℓ} (decode : N.Body → Outcome A) (zero_value a : A) (r : Request)
      (sent : List Request) (body : N.Body) (answer : Answer N.Body × N.State)
      → answer.0 ≡ answered 200 body
      → decode body ≡ ok a
      → answer_of N decode zero_value r sent answer
        ≡ (ok (200, a), record { network = answer.1; sent = r ∷ sent })
  answered-answer_of decode zero_value a r sent body (x, w) e h = rw (e, h) refl

  answered-call {ℓ} :
      {A : Type ℓ} (decode : N.Body → Outcome A) (zero_value a : A) (r : Request) (s : Session N)
      (body : N.Body)
      → (N.send s.network r).0 ≡ answered 200 body
      → decode body ≡ ok a
      → call N decode zero_value r s
        ≡ (ok (200, a), record { network = (N.send s.network r).1; sent = r ∷ s.sent })
  unfolding call
  answered-call decode zero_value a r s body e h =
      answered-answer_of decode zero_value a r s.sent body (N.send s.network r) e h

  answered-next_branch_n :
      (owner repo chain : String) (s : Session N) (body : N.Body) (refs : List String)
      → (N.send s.network (refs_request owner repo chain)).0 ≡ answered 200 body
      → N.read_refs body ≡ ok refs
      → (next_branch_n N F owner repo chain s).0
        ≡ ok (increment (largest N F (branch_prefix N F chain) refs (pos 0)))
  unfolding next_branch_n wrapped ◌>>=◌
  answered-next_branch_n owner repo chain s body refs sent decoded =
      rw (answered-call N.read_refs [] refs (refs_request owner repo chain) s body sent decoded)
        refl

  -- Where GitHub lists the references of a chain's branches, the number is printed and read back as
  -- itself, and no listed suffix is the largest integer or more: `next_branch_n` does not fail, and
  -- the reference of the branch with its number is not among the listed ones.
  pub next_branch_n-fresh :
      (owner repo chain : String) (s : Session N) (body : N.Body) (refs : List String)
      → (N.send s.network (refs_request owner repo chain)).0 ≡ answered 200 body
      → N.read_refs body ≡ ok refs
      → ((n : ℤ) → F.atoi (F.decimal n) ≡ some n)
      → All
          (λ r.
            (k : ℤ) → F.atoi (trim_prefix r (branch_prefix N F chain)) ≡ some k → k <ℤ pos max_int)
          refs
      → (n : ℤ) × ((next_branch_n N F owner repo chain s).0 ≡ ok n)
        × All (λ r. ¬ (r ≡ branch_ref chain n)) refs
  next_branch_n-fresh owner repo chain s body refs sent decoded print below =
      let prefix = branch_prefix N F chain in
      let top = largest N F prefix refs (pos 0) in
      let above =
        increment-above top (largest-above prefix refs (pos 0))
          (largest-below prefix refs (pos 0) (pos max_int) (omega arith) below) in
      (
        increment top,
        answered-next_branch_n owner repo chain s body refs sent decoded,
        fresh_refs chain (increment top) refs (print (increment top))
            (All-below prefix top (increment top) refs above (largest-refs prefix refs (pos 0))),
      )
