-- ===== src/Github/Open/Protocol.antt =====
-- The requests of `OpenChainPR`, `OpenHashPR` and `OpenStatusPR` (internal/github/pr.go).
use chain_registry_sentinel.Base.{◌≡◌, refl, String, Option, none, some, str_eq}
use chain_registry_sentinel.Github.Outcome.{Outcome, ok, err}
use chain_registry_sentinel.Github.Call.{Network, Formats, continue}
use chain_registry_sentinel.Base.Int.{ℤ}
use chain_registry_sentinel.Github.Documents.{Documents}
use chain_registry_sentinel.Github.Open.{
  Place, Plan, resolve_base, prepare_commit, publish, propose, open_pull, branch_name,
}
use chain_registry_sentinel.Github.Open.Phases.{
  Phase, idle, branched, committed, pulled, labelled, Runs,
}
use chain_registry_sentinel.Github.Open.Calls.{
  default_branch-Runs, branch_sha-Runs, next_branch_n-Runs, has_open_pr-Runs, get_file_sha-Runs,
  create_branch-Runs, commit_file-Runs, create_pr-Runs, ensure_label-Runs, add_labels-Runs,
}
use chain_registry_sentinel.Github.Open.Rules.{
  pure-Runs, raise-Runs, bind-Runs, wrapped-Runs, if-Runs,
}

-- No pull request is the phase at the start.
abbrev pub reached : Option (ℤ × String) → Phase
reached none = idle
reached (some made) = labelled made

module _ (N : Network) (F : Formats) (D : Documents) (at_ : Place) (plan : Plan D.Doc) where
  resolve_base-Runs : {p : Phase} → Runs N F D at_ plan p (λ _. p) (resolve_base N F D at_)
  unfolding resolve_base
  resolve_base-Runs {p} =
      if-Runs N F D at_ plan (str_eq at_.base_branch "") (default_branch-Runs N F D at_ plan)
        (pure-Runs N F D at_ plan {post = λ _. p} at_.base_branch refl)

  prepare_commit-Runs :
      {p : Phase} (base path : String)
      → Runs N F D at_ plan p (λ _. p) (prepare_commit N F D at_ base path)
  unfolding prepare_commit
  prepare_commit-Runs {p} base path = wrapped-Runs N F D at_ plan _ _ (
      bind-Runs N F D at_ plan (λ _. p) _ _ (branch_sha-Runs N F D at_ plan base)
        (λ base_sha.
          bind-Runs N F D at_ plan (λ _. p) _ _ (get_file_sha-Runs N F D at_ plan path base)
            (λ x. pure-Runs N F D at_ plan (base_sha, x.1) refl)))

  publish-Runs :
      (base b base_sha blob_sha : String) (o : Option D.Doc)
      → plan.edit ≡ ok o
      → Runs N F D at_ plan idle reached (publish N F D at_ plan base b base_sha blob_sha o)
  unfolding publish
  publish-Runs base b base_sha blob_sha none edit = pure-Runs N F D at_ plan none refl
  publish-Runs base b base_sha blob_sha (some d) edit =
      bind-Runs N F D at_ plan (λ _. branched b) _ _ (create_branch-Runs N F D at_ plan b base_sha)
        (λ _.
          bind-Runs N F D at_ plan (λ _. committed b) _ _
            (commit_file-Runs N F D at_ plan _ d refl refl edit refl)
            (λ _.
              bind-Runs N F D at_ plan (λ _. committed b) _ _ (ensure_label-Runs N F D at_ plan _ _)
                (λ _.
                  bind-Runs N F D at_ plan (λ _. committed b) _ _
                    (ensure_label-Runs N F D at_ plan _ _)
                    (λ _.
                      bind-Runs N F D at_ plan (λ made. pulled made) _ _
                        (create_pr-Runs N F D at_ plan _ refl refl)
                        (λ made.
                          bind-Runs N F D at_ plan (λ _. labelled made) _ _
                            (add_labels-Runs N F D at_ plan made _ refl)
                            (λ _. pure-Runs N F D at_ plan (some made) refl))))))

  publish_edit-Runs :
      (base b base_sha blob_sha : String) (o : Outcome (Option D.Doc))
      → plan.edit ≡ o
      → Runs N F D at_ plan idle reached
          (continue N o (publish N F D at_ plan base b base_sha blob_sha))
  publish_edit-Runs base b base_sha blob_sha (ok o) edit =
      publish-Runs base b base_sha blob_sha o edit
  publish_edit-Runs base b base_sha blob_sha (err e) edit = raise-Runs N F D at_ plan e

  propose-Runs : (base : String) → Runs N F D at_ plan idle reached (propose N F D at_ plan base)
  unfolding propose
  propose-Runs base =
      bind-Runs N F D at_ plan (λ _. idle) _ _ (next_branch_n-Runs N F D at_ plan plan.slug)
        (λ n.
          bind-Runs N F D at_ plan (λ _. idle) _ _ (prepare_commit-Runs base plan.file_path)
            (λ x.
              publish_edit-Runs base (branch_name N F D at_ plan.slug n) x.0 x.1 plan.edit refl))

  -- Whatever GitHub answers, what `open_pull` sends is in order, and where it does not fail, it
  -- either opens no pull request and has only read, or opens one and has labelled it.
  pub open_pull-Runs : Runs N F D at_ plan idle reached (open_pull N F D at_ plan)
  unfolding open_pull
  open_pull-Runs =
      bind-Runs N F D at_ plan (λ _. idle) _ _ resolve_base-Runs
        (λ base.
          bind-Runs N F D at_ plan (λ _. idle) _ _ (has_open_pr-Runs N F D at_ plan plan.title)
            (λ is_open.
              if-Runs N F D at_ plan is_open (pure-Runs N F D at_ plan none refl)
                (propose-Runs base)))
