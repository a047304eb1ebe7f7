-- ===== src/Github/EditAssets/Status.antt =====
-- `EditChainStatus` (internal/github/pr.go) on the file that was read.
use chain_registry_sentinel.Base.{
  ◌≡◌, refl, inl, inr, Option, none, some, str_eq, Bool-cases, if◌then◌else◌,
}
use chain_registry_sentinel.Base.Map.{or_zero}
use chain_registry_sentinel.Github.Outcome.{ok}
use chain_registry_sentinel.Github.Documents.{Documents, IsLawful}
use chain_registry_sentinel.Github.EditAssets.{edit_status}

module _ (D : Documents) (L : IsLawful D) where
  -- The edit does not fail. In the file that then stands (the old one, where the edit returns
  -- nothing), the status is "killed" where it was "live" and as before elsewhere, and the endpoints
  -- are as before.
  pub edit_status-killed :
      (d : D.Doc)
      → (edited : Option D.Doc) × (edit_status D d ≡ ok edited)
        × (D.status (or_zero d edited)
            ≡ (if str_eq (D.status d) "live" then "killed" else D.status d))
        × (D.apis (or_zero d edited) ≡ D.apis d)
  unfolding edit_status
  edit_status-killed d = elim (Bool-cases (str_eq (D.status d) "live")) [
    | inl live ↦
        let (d', done, killed, kept) = L.set_status-status d "killed" in
        (some d', rw (live, done) refl, rw live killed, kept)
    | inr other ↦ (none, rw other refl, rw other refl, refl)
  ]
