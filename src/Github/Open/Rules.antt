-- ===== src/Github/Open/Rules.antt =====
-- The actions that internal/github/pr.go is made of, as runs of steps.
use mathlib.Core.List.{append_assoc}
use chain_registry_sentinel.Base.{
  ℕ, ◌≡◌, refl, sym, ap, ◌∙◌, String, Bool, true, false, List, [], ◌∷◌, ◌++◌, ltb, ◌==◌, arith,
  Bool-cases, inl, inr, if◌then◌else◌, subst,
}
use chain_registry_sentinel.Base.Int.{ℤ}
use chain_registry_sentinel.Checks.Error.{GoError}
use chain_registry_sentinel.Github.Outcome.{Outcome, ok, err, wrap_outcome}
use chain_registry_sentinel.Github.Call.{
  Answer, not_built, not_answered, answered, Request, Network, Formats, Session, Exec, pure, raise,
  continue, wrapped, call, answer_of, decoded, ◌>>=◌,
}
use chain_registry_sentinel.Github.Documents.{Documents}
use chain_registry_sentinel.Github.Open.{Place, Plan, attempt}
use chain_registry_sentinel.Github.Open.Phases.{
  Phase, refused, pulled, labelled, granted_at, made_by, pulled_at, Step, read, branch, commit,
  label, pull, tag, comment, Log, start, next, unsent, Log-append, Ends, Ran, Runs,
}

module _ (N : Network) (F : Formats) (D : Documents) (at_ : Place) (plan : Plan D.Doc) where
  pub pure-Runs {ℓ} :
      {A : Type ℓ} {p : Phase} {post : A → Phase} (a : A)
      → p ≡ post a
      → Runs N F D at_ plan p post (pure N a)
  pure-Runs {A} {p} a e s = record { added = []; phase = p; sends = refl; log = start; ends = e }

  pub raise-Runs {ℓ} :
      {A : Type ℓ} {p : Phase} {post : A → Phase} (e : GoError)
      → Runs N F D at_ plan p post (raise N e)
  raise-Runs {A} {p} e s = record { added = []; phase = p; sends = refl; log = start; ends = tt }

  -- An action behind a run that did not fail.
  pub then-Ran {ℓ κ} :
      {A : Type ℓ} {B : Type κ} {p : Phase} {post : A → Phase} {wanted : B → Phase}
      (s s' : Session N) (a : A) (n : Exec N B)
      → Ran N F D at_ plan p post s (ok a, s')
      → Runs N F D at_ plan (post a) wanted n
      → Ran N F D at_ plan p wanted s (n s')
  then-Ran {A} {B} {p} {post} {wanted} s s' a n r h =
      let k = h s' in
      record {
        added = k.added ++ r.added;
        phase = k.phase;
        sends =
            k.sends ∙ ap (λ l. k.added ++ l) r.sends ∙ sym (append_assoc k.added r.added s.sent);
        log =
            Log-append N F D at_ plan
              (subst (λ q. Log N F D at_ plan p s.network r.added q s'.network) r.ends r.log) k.log;
        ends = k.ends;
      }

  bind-Ran {ℓ κ} :
      {A : Type ℓ} {B : Type κ} {p : Phase} {post : A → Phase} {wanted : B → Phase}
      (f : A → Exec N B) (s : Session N) (done : Outcome A × Session N)
      → Ran N F D at_ plan p post s done
      → ((a : A) → Runs N F D at_ plan (post a) wanted (f a))
      → Ran N F D at_ plan p wanted s (continue N done.0 f done.1)
  bind-Ran {A} {B} {p} {post} {wanted} f s (err e, s') r h = record {
    added = r.added;
    phase = r.phase;
    sends = r.sends;
    log = r.log;
    ends = tt;
  }
  bind-Ran {A} {B} {p} {post} {wanted} f s (ok a, s') r h = then-Ran s s' a (f a) r (h a)

  pub bind-Runs {ℓ κ} :
      {A : Type ℓ} {B : Type κ} {p : Phase} (post : A → Phase) {wanted : B → Phase} (m : Exec N A)
      (f : A → Exec N B)
      → Runs N F D at_ plan p post m
      → ((a : A) → Runs N F D at_ plan (post a) wanted (f a))
      → Runs N F D at_ plan p wanted (m >>= f)
  unfolding ◌>>=◌
  bind-Runs post m f r h s = bind-Ran f s (m s) (r s) h

  wrapped-Ran {ℓ} :
      {A : Type ℓ} {p : Phase} {post : A → Phase} (prefix : String) (s : Session N)
      (done : Outcome A × Session N)
      → Ran N F D at_ plan p post s done
      → Ran N F D at_ plan p post s (wrap_outcome prefix done.0, done.1)
  wrapped-Ran prefix s (ok a, s') r = r
  wrapped-Ran prefix s (err e, s') r = record {
    added = r.added;
    phase = r.phase;
    sends = r.sends;
    log = r.log;
    ends = tt;
  }

  pub wrapped-Runs {ℓ} :
      {A : Type ℓ} {p : Phase} {post : A → Phase} (prefix : String) (m : Exec N A)
      → Runs N F D at_ plan p post m
      → Runs N F D at_ plan p post (wrapped N prefix m)
  unfolding wrapped
  wrapped-Runs prefix m r s = wrapped-Ran prefix s (m s) (r s)

  pub if-Runs {ℓ} :
      {A : Type ℓ} {p : Phase} {post : A → Phase} (b : Bool) {m n : Exec N A}
      → Runs N F D at_ plan p post m
      → Runs N F D at_ plan p post n
      → Runs N F D at_ plan p post (if b then m else n)
  if-Runs true r r' = r
  if-Runs false r r' = r'

  decoded-Ends {ℓ} :
      {A : Type ℓ} (post : ℕ × A → Phase) (q : Phase) (status : ℕ) (zero_value : A) (b : Bool)
      (o : Outcome A)
      → ((a : A) → q ≡ post (status, a))
      → Ends N F D at_ plan post
          (if b then decoded N status zero_value o else ok (status, zero_value))
          q
  decoded-Ends post q status zero_value true (ok a) h = h a
  decoded-Ends post q status zero_value true (err e) h = tt
  decoded-Ends post q status zero_value false o h = h zero_value

  -- What a call returns at an answer, against the phase behind the answer.
  abbrev pub Leads {ℓ} :
      {A : Type ℓ} → (ℕ × A → Phase) → (N.Body → Outcome A) → A → Answer N.Body → Phase → Type 0
  Leads post decode zero_value (not_built e) q = Unit
  Leads post decode zero_value (not_answered e) q = Unit
  Leads post decode zero_value (answered status body) q =
      Ends N F D at_ plan post
        (if ltb status 300
          then decoded N status zero_value (decode body)
          else ok (status, zero_value))
        q

  pub always-Leads {ℓ} :
      {A : Type ℓ} (p : Phase) (decode : N.Body → Outcome A) (zero_value : A) (a : Answer N.Body)
      → Leads (λ _. p) decode zero_value a p
  always-Leads p decode zero_value (not_built e) = tt
  always-Leads p decode zero_value (not_answered e) = tt
  always-Leads p decode zero_value (answered status body) =
      decoded-Ends (λ _. p) p status zero_value (ltb status 300) (decode body) (λ a. refl)

  pub granted-Leads {ℓ} :
      {A : Type ℓ} (right : ℕ → Bool) (q : Phase) (decode : N.Body → Outcome A) (zero_value : A)
      (a : Answer N.Body)
      → Leads (λ x. if right x.0 then q else refused) decode zero_value a (granted_at right q a)
  granted-Leads right q decode zero_value (not_built e) = tt
  granted-Leads right q decode zero_value (not_answered e) = tt
  granted-Leads right q decode zero_value (answered status body) =
      decoded-Ends (λ x. if right x.0 then q else refused) _ status zero_value (ltb status 300)
        (decode body) (λ a. refl)

  read_pull-Ends :
      (status : ℕ) (zero_value : ℤ × String) (o : Outcome (ℤ × String))
      → Ends N F D at_ plan
          (λ x. if x.0 == 201 then pulled x.1 else refused)
          (if ltb status 300 then decoded N status zero_value o else ok (status, zero_value))
          (if status == 201 then made_by o else refused)
  read_pull-Ends status zero_value (ok made) = elim (Bool-cases (status == 201)) [
    | inl right ↦ ground (arith, right)
    | inr wrong ↦ ground (arith, wrong)
  ]
  read_pull-Ends status zero_value (err e) = ground arith

  pub pulled-Leads :
      (zero_value : ℤ × String) (a : Answer N.Body)
      → Leads
          (λ x. if x.0 == 201 then pulled x.1 else refused)
          N.read_pull
          zero_value
          a
          (pulled_at N.read_pull a)
  pulled-Leads zero_value (not_built e) = tt
  pulled-Leads zero_value (not_answered e) = tt
  pulled-Leads zero_value (answered status body) =
      read_pull-Ends status zero_value (N.read_pull body)

  call-Ran {ℓ} :
      {A : Type ℓ} {p q : Phase} (post : ℕ × A → Phase) (decode : N.Body → Outcome A)
      (zero_value : A) (r : Request) (s : Session N) (a : Answer N.Body) (w : N.State)
      → N.send s.network r ≡ (a, w)
      → Step N F D at_ plan p r a q
      → Leads post decode zero_value a q
      → Ran N F D at_ plan p post s (answer_of N decode zero_value r s.sent (a, w))
  call-Ran {A} {p} post decode zero_value r s (not_built e) w sent step leads = record {
    added = [];
    phase = p;
    sends = refl;
    log = unsent r e start sent;
    ends = tt;
  }
  call-Ran {A} {p} {q} post decode zero_value r s (not_answered e) w sent step leads = record {
    added = r ∷ [];
    phase = q;
    sends = refl;
    log = next r start sent step;
    ends = tt;
  }
  call-Ran {A} {p} {q} post decode zero_value r s (answered status body) w sent step leads =
      record { added = r ∷ []; phase = q; sends = refl; log = next r start sent step; ends = leads }

  pub call-Runs {ℓ} :
      {A : Type ℓ} {p : Phase} (post : ℕ × A → Phase) (target : Answer N.Body → Phase)
      (decode : N.Body → Outcome A) (zero_value : A) (r : Request)
      → ((a : Answer N.Body) → Step N F D at_ plan p r a (target a))
      → ((a : Answer N.Body) → Leads post decode zero_value a (target a))
      → Runs N F D at_ plan p post (call N decode zero_value r)
  unfolding call
  call-Runs post target decode zero_value r step leads s =
      let (a, w) = N.send s.network r in
      call-Ran post decode zero_value r s a w refl (step a) (leads a)

  Step-stays :
      {q q' : Phase} {r : Request} {a : Answer N.Body} {made : ℤ × String}
      → Step N F D at_ plan q r a q'
      → q ≡ labelled made
      → q' ≡ labelled made
  Step-stays (read path) h = h
  Step-stays (branch b sha e) h = cc h
  Step-stays (commit c d _ _ _ _ e) h = cc h
  Step-stays (label name color e) h = cc h
  Step-stays (pull p _ _ e) h = cc h
  Step-stays (tag labels _ e) h = cc h
  Step-stays (comment number text) h = h

  -- Behind the labels there is no other phase.
  Log-stays :
      {made : ℤ × String} {w : N.State} {rs : List Request} {q : Phase} {v : N.State}
      → Log N F D at_ plan (labelled made) w rs q v
      → q ≡ labelled made
  Log-stays start = refl
  Log-stays (next r l e s) = Step-stays s (Log-stays l)
  Log-stays (unsent r x l e) = Log-stays l

  pub attempt-Runs {ℓ} :
      {A : Type ℓ} {post : A → Phase} {made : ℤ × String} (m : Exec N A)
      → Runs N F D at_ plan (labelled made) post m
      → Runs N F D at_ plan (labelled made) (λ _. labelled made) (attempt N F D at_ m)
  unfolding attempt
  attempt-Runs m r s =
      let done = r s in
      record {
        added = done.added;
        phase = done.phase;
        sends = done.sends;
        log = done.log;
        ends = Log-stays done.log;
      }
