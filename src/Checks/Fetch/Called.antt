-- ===== src/Checks/Fetch/Called.antt =====
-- The gRPC probe of internal/checks/grpc.go: when it calls an endpoint live.
use chain_registry_sentinel.Base.{
  ◌≡◌, ◌≢◌, refl, Bool, true, false, Bool-cases, inl, inr, Option, none, some, List, [], ◌∷◌, subst,
  arith, String, if◌then◌else◌,
}
use chain_registry_sentinel.Base.Text.{contains}
use chain_registry_sentinel.Checks.Error.{GoError, Status}
use chain_registry_sentinel.Checks.Grpc.{GrpcProbe}
use chain_registry_sentinel.Checks.GrpcTarget.{
  Addresses, Target, parse_grpc_target, of_url, of_host_port, Url,
}
use chain_registry_sentinel.Checks.Fetch.Dialing.{
  Channels, Tried, answers, gives_up, invoke_grpc, next_mode, try_modes, tries_next, keep_error,
  of_grpc_status, of_tried, timed_grpc, of_target, probe_grpc_endpoint,
}
use chain_registry_sentinel.Checks.NodeInfoWire.{Wire}
use chain_registry_sentinel.Github.Outcome.{Outcome, ok, err}
use chain_registry_sentinel.Registry.{Chain, Endpoint}

url_modes :
    (A : Addresses) (o : Outcome Url) (address : String) (t : Target)
    → of_url A o address ≡ ok t
    → t.modes ≢ []
unfolding of_url
url_modes A (err e) address t h = ground arith
url_modes A (ok u) address t h = ground arith

host_port_modes :
    (A : Addresses) (o : Outcome (String × String)) (address : String) (t : Target)
    → of_host_port A o address ≡ ok t
    → t.modes ≢ []
host_port_modes A (err e) address t h = ground arith
host_port_modes A (ok (host, port)) address t h = ground arith

-- There is a mode to try.
parse_grpc_target-modes :
    (A : Addresses) (address : String) (t : Target)
    → parse_grpc_target A address ≡ ok t
    → t.modes ≢ []
unfolding parse_grpc_target
parse_grpc_target-modes A address t h = elim (Bool-cases (contains address "://")) [
  | inl scheme ↦ url_modes A (A.parse address) address t (
      subst
        (λ b.
          (if b
            then of_url A (A.parse address) address
            else of_host_port A (A.split_host_port address) address)
          ≡ ok t)
        scheme h)
  | inr bare ↦ host_port_modes A (A.split_host_port address) address t (
      subst
        (λ b.
          (if b
            then of_url A (A.parse address) address
            else of_host_port A (A.split_host_port address) address)
          ≡ ok t)
        bare h)
]

module _ (State : Type 0) (C : Channels State) (W : Wire) where
  -- Some call at the target succeeded: it gave that network, or was refused by name and answered
  -- otherwise.
  abbrev pub Answered : String → String → String → Bool → Type 0
  Answered target ua network blocked =
      (use_tls : Bool) × (s t : State) × (invoke_grpc State C W target use_tls ua s
        ≡ (some (ok (network, blocked)), t))

  -- What the loop over the modes may end with.
  abbrev Justified : String → String → Option (Tried State C W × State) → Type 0
  Justified target ua none = Unit
  Justified target ua (some (answers network blocked, t)) = Answered target ua network blocked
  Justified target ua (some (gives_up none, t)) = ⊥
  Justified target ua (some (gives_up (some e), t)) = Unit

  module _ (target ua : String) where
    next_mode-Justified :
        (use_tls : Bool) (s : State) (kept : Option GoError)
        (next : Option GoError → State → Option (Tried State C W × State))
        (inv : Option (Outcome (String × Bool)) × State)
        → invoke_grpc State C W target use_tls ua s ≡ inv
        → ((e : GoError) (t : State) → Justified target ua (next (some e) t))
        → Justified target ua (next_mode State C W target ua kept inv next)
    next_mode-Justified use_tls s kept next (none, t) h k = tt
    next_mode-Justified use_tls s kept next (some (ok (network, blocked)), t) h k =
        (use_tls, s, t, h)
    next_mode-Justified use_tls s kept next (some (err e), t) h k =
        choice (tries_next e) (k (keep_error kept e) t)
      where
        choice :
            (b : Bool)
            → Justified target ua (next (some (keep_error kept e)) t)
            → Justified target ua (
                if b
                then next (some (keep_error kept e)) t
                else some (gives_up (some (keep_error kept e)), t))
        choice true j = j
        choice false j = tt

    try_modes-kept :
        (modes : List Bool) (e : GoError) (s : State)
        → Justified target ua (try_modes State C W target ua modes (some e) s)
    unfolding try_modes
    try_modes-kept [] e s = tt
    try_modes-kept (use_tls ∷ modes) e s =
        next_mode-Justified use_tls s (some e) (λ k t. try_modes State C W target ua modes k t)
          (invoke_grpc State C W target use_tls ua s) refl (λ f t. try_modes-kept modes f t)

    try_modes-Justified :
        (modes : List Bool) (s : State)
        → modes ≢ []
        → Justified target ua (try_modes State C W target ua modes none s)
    unfolding try_modes
    try_modes-Justified [] s h = absurd (h refl)
    try_modes-Justified (use_tls ∷ modes) s h =
        next_mode-Justified use_tls s none (λ k t. try_modes State C W target ua modes k t)
          (invoke_grpc State C W target use_tls ua s) refl (λ f t. try_modes-kept modes f t)

  module _ (A : Addresses) (chain : Chain) (ep : Endpoint) (ua : String) where
    -- A probe without an error is one of which a call succeeded; throttling and a lost connection come
    -- with an error.
    pub record IsCalled (p : GrpcProbe) : Type 0 where
      pub live :
          p.fetch_err ≡ none
          → (target : Target) × (parse_grpc_target A ep.address ≡ ok target)
            × Answered target.target ua p.network p.canary_blocked
      pub throttled_err : p.rate_limited ≡ true → p.fetch_err ≢ none
      pub no_connection : p.net_err ≡ true → p.fetch_err ≢ none
      pub same_chain : p.chain ≡ chain
      pub same_endpoint : p.endpoint ≡ ep

    abbrev pub Called : Option (GrpcProbe × State) → Type 0
    Called none = Unit
    Called (some (p, t)) = IsCalled p

    of_grpc_status-IsCalled :
        (e : GoError) (st : Option Status) → IsCalled (of_grpc_status State C W A chain ep e st)
    of_grpc_status-IsCalled e none = ground arith
    of_grpc_status-IsCalled e (some st) = ground arith

    timed_grpc-Called :
        (s : State) (target : Target) (r : Option (Tried State C W × State))
        → parse_grpc_target A ep.address ≡ ok target
        → Justified target.target ua r
        → Called (timed_grpc State C W A chain ep s r)
    unfolding of_tried
    timed_grpc-Called s target none h j = tt
    timed_grpc-Called s target (some (answers network blocked, t)) h j = record {
      live = λ _. (target, h, j);
      throttled_err = ground arith;
      no_connection = ground arith;
      same_chain = refl;
      same_endpoint = refl;
    }
    timed_grpc-Called s target (some (gives_up none, t)) h j = absurd j
    timed_grpc-Called s target (some (gives_up (some e), t)) h j =
        let called = of_grpc_status-IsCalled e e.grpc_status in
        record {
          live = called.live;
          throttled_err = called.throttled_err;
          no_connection = called.no_connection;
          same_chain = called.same_chain;
          same_endpoint = called.same_endpoint;
        }

    of_target-Called :
        (s : State) (o : Outcome Target)
        → parse_grpc_target A ep.address ≡ o
        → Called (of_target State C W A chain ep ua s o)
    unfolding parse_grpc_target
    of_target-Called s (err e) h = ground arith
    of_target-Called s (ok target) h =
        timed_grpc-Called s target (try_modes State C W target.target ua target.modes none s) h (
          try_modes-Justified target.target ua target.modes s
            (parse_grpc_target-modes A ep.address target h))

    pub probe_grpc_endpoint-Called :
        (s : State) → Called (probe_grpc_endpoint State C W A chain ep ua s)
    unfolding probe_grpc_endpoint
    probe_grpc_endpoint-Called s = of_target-Called s (parse_grpc_target A ep.address) refl
