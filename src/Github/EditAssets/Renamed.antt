-- ===== src/Github/EditAssets/Renamed.antt =====
-- The file that `EditAssetListJSON` (internal/github/pr.go) returns.
use mathlib.Core.List.{append_assoc}
use chain_registry_sentinel.Base.{
  ℕ, suc, ◌<◌, ◌≡◌, refl, sym, ap, ◌∙◌, inl, inr, String, Option, none, some, List, [], ◌∷◌, ◌++◌,
  arith, map, length, length-append, get_elem?, str_eq, Bool-cases, Option-cases, List-cases,
  if◌then◌else◌, subst,
}
use chain_registry_sentinel.Base.Map.{or_zero}
use chain_registry_sentinel.Checks.IbcHash.{AssetJson}
use chain_registry_sentinel.Github.Outcome.{Outcome, ok, ◌>>=◌}
use chain_registry_sentinel.Github.Documents.{
  Documents, IsLawful, AssetEntry, change_at, with_base, with_unit,
}
use chain_registry_sentinel.Github.Body.{HashFix}
use chain_registry_sentinel.Github.EditAssets.{
  FixMap, find_fix, fix_map, IndexFix, carrying, key_of, to_fix, set_units, set_all, set_fixes,
  edit_assets,
}

-- A unit's denom, with the wrong hash replaced.
abbrev pub renamed : String → String → String → String
renamed base expected denom = if str_eq denom base then expected else denom

-- An asset with its base, and the units that carry it, replaced.
abbrev pub corrected : Option String → AssetEntry → AssetEntry
corrected none a = a
corrected (some expected) a = record {
  asset = record a.asset { base = expected };
  units = map (renamed a.asset.base expected) a.units;
}

abbrev pub corrected_by : FixMap → AssetEntry → AssetEntry
corrected_by m a = corrected (find_fix (key_of a) m) a

module _ {ℓ} {A : Type ℓ} where
  change_at-append :
      (f : A → A) (pre : List A) (x : A) (xs : List A)
      → change_at f (length pre) (pre ++ x ∷ xs) ≡ pre ++ f x ∷ xs
  change_at-append f [] x xs = refl
  change_at-append f (y ∷ pre) x xs = ap (λ l. y ∷ l) (change_at-append f pre x xs)

  get_elem-append :
      (pre : List A) (x : A) (xs : List A) → get_elem? (pre ++ x ∷ xs) (length pre) ≡ some x
  get_elem-append [] x xs = refl
  get_elem-append (y ∷ pre) x xs = get_elem-append pre x xs

module _ (D : Documents) (L : IsLawful D) where
  -- The result is a file with these assets.
  pub record Lists (entries : List AssetEntry) (o : Outcome D.Doc) : Type 0 where
    pub file : D.Doc
    pub returned : o ≡ ok file
    pub listed : D.assets file ≡ entries

  Lists-bind :
      {a b : List AssetEntry} (o : Outcome D.Doc) (f : D.Doc → Outcome D.Doc)
      → Lists a o
      → ((d : D.Doc) → D.assets d ≡ a → Lists b (f d))
      → Lists b (o >>= f)
  Lists-bind o f l next =
      let r = next l.file l.listed in
      record { file = r.file; returned = rw l.returned r.returned; listed = r.listed }

  set_base-Lists :
      (pre : List AssetEntry) (a : AssetEntry) (as' : List AssetEntry) (v : String) (d : D.Doc)
      → D.assets d ≡ pre ++ a ∷ as'
      → Lists (pre ++ with_base v a ∷ as') (D.set_base d (length pre) v)
  set_base-Lists pre a as' v d h =
      let (d', done, changed) =
        L.set_base-assets d (length pre) v (rw h (omega (arith, length-append pre (a ∷ as')))) in
      record {
        file = d';
        returned = done;
        listed = changed ∙ rw h (change_at-append (with_base v) pre a as');
      }

  set_unit-Lists :
      (pre : List AssetEntry) (a : AssetEntry) (as' : List AssetEntry) (u : ℕ) (v : String)
      (d : D.Doc)
      → u < length a.units
      → D.assets d ≡ pre ++ a ∷ as'
      → Lists (pre ++ with_unit u v a ∷ as') (D.set_unit d (length pre) u v)
  set_unit-Lists pre a as' u v d h e =
      let (d', done, changed) =
        L.set_unit-assets d (length pre) u v a (rw e (get_elem-append pre a as')) h in
      record {
        file = d';
        returned = done;
        listed = changed ∙ rw e (change_at-append (with_unit u v) pre a as');
      }

  abbrev with_units : AssetJson → List String → AssetEntry
  with_units a units = record { asset = a; units = units }

  set_units-Lists :
      (pre : List AssetEntry) (a : AssetJson) (as' : List AssetEntry) (base v : String)
      (before units : List String) (u : ℕ) (d : D.Doc)
      → length before ≡ u
      → D.assets d ≡ pre ++ with_units a (before ++ units) ∷ as'
      → Lists
          (pre ++ with_units a (before ++ map (renamed base v) units) ∷ as')
          (set_units D (length pre) v (carrying base u units) d)
  unfolding set_units carrying
  set_units-Lists pre a as' base v before [] u d len e = record {
    file = d;
    returned = refl;
    listed = e;
  }
  set_units-Lists pre a as' base v before (denom ∷ units) u d len e =
      let shown = λ (l : List String). pre ++ with_units a l ∷ as' in
      let rest = λ (x : String) (d' : D.Doc) (e' : D.assets d' ≡ shown (before ++ x ∷ units)).
        subst (λ l. Lists (shown l) (set_units D (length pre) v (carrying base (suc u) units) d'))
          (append_assoc before (x ∷ []) (map (renamed base v) units))
          (set_units-Lists pre a as' base v (before ++ x ∷ []) units (suc u) d'
            (omega (arith, length-append before (x ∷ []), len))
            (e' ∙ ap shown (sym (append_assoc before (x ∷ []) units)))) in
      elim (Bool-cases (str_eq denom base)) [
        | inl same ↦
            let changed : change_at (λ _. v) u (before ++ denom ∷ units) ≡ before ++ v ∷ units =
              subst (λ k. change_at (λ _. v) k (before ++ denom ∷ units) ≡ before ++ v ∷ units) len
                (change_at-append (λ _. v) before denom units) in
            rw same (
              Lists-bind (D.set_unit d (length pre) u v)
                (set_units D (length pre) v (carrying base (suc u) units))
                (set_unit-Lists pre (with_units a (before ++ denom ∷ units)) as' u v d
                  (omega (arith, length-append before (denom ∷ units), len)) e)
                (λ d' e'. rest v d' (e' ∙ ap shown changed)))
        | inr other ↦ rw other (rest denom d e)
      ]

  set_fix-Lists :
      (pre : List AssetEntry) (a : AssetEntry) (as' : List AssetEntry) (expected : String)
      (d : D.Doc)
      → D.assets d ≡ pre ++ a ∷ as'
      → Lists (pre ++ corrected (some expected) a ∷ as') (
          D.set_base d (length pre) expected
          >>= set_units D (length pre) expected (carrying a.asset.base 0 a.units))
  set_fix-Lists pre a as' expected d e =
      Lists-bind _ _ (set_base-Lists pre a as' expected d e) (λ d'.
        set_units-Lists pre (record a.asset { base = expected }) as' a.asset.base expected []
          a.units 0 d' refl)

  set_all-Lists :
      (m : FixMap) (pre as' : List AssetEntry) (i : ℕ) (d : D.Doc)
      → length pre ≡ i
      → D.assets d ≡ pre ++ as'
      → Lists (pre ++ map (corrected_by m) as') (set_all D (to_fix m i as') d)
  unfolding set_all to_fix
  set_all-Lists m pre [] i d len e = record { file = d; returned = refl; listed = e }
  set_all-Lists m pre (a ∷ as') i d len e =
      let rest = λ (x : AssetEntry) (d' : D.Doc) (e' : D.assets d' ≡ pre ++ x ∷ as').
        subst (λ l. Lists l (set_all D (to_fix m (suc i) as') d'))
          (append_assoc pre (x ∷ []) (map (corrected_by m) as'))
          (set_all-Lists m (pre ++ x ∷ []) as' (suc i) d'
            (omega (arith, length-append pre (x ∷ []), len))
            (e' ∙ sym (append_assoc pre (x ∷ []) as'))) in
      elim (Option-cases (find_fix (key_of a) m)) [
        | inl nothing ↦ rw nothing (rest a d e)
        | inr (expected, found) ↦ rw found (
            Lists-bind _ (set_all D (to_fix m (suc i) as'))
              (subst
                (λ k. Lists (pre ++ corrected (some expected) a ∷ as') (
                  D.set_base d k expected
                  >>= set_units D k expected (carrying a.asset.base 0 a.units)))
                len (set_fix-Lists pre a as' expected d e))
              (rest (corrected (some expected) a)))
      ]

  set_fixes-nil : (fs : List IndexFix) (d : D.Doc) → fs ≡ [] → set_fixes D fs d ≡ ok none
  unfolding set_fixes
  set_fixes-nil fs d e = rw e refl

  set_fixes-some :
      (fs later : List IndexFix) (d : D.Doc) {file : D.Doc} (f : IndexFix)
      → fs ≡ f ∷ later
      → set_all D fs d ≡ ok file
      → set_fixes D fs d ≡ ok (some file)
  unfolding set_fixes
  set_fixes-some fs later d {file} f e h = rw e (rw (subst (λ t. set_all D t d ≡ ok file) e h) refl)

  set_all-nil :
      (fs : List IndexFix) (d file : D.Doc) → fs ≡ [] → set_all D fs d ≡ ok file → d ≡ file
  unfolding set_all
  set_all-nil fs d file e h = cc (rw e at h)

  -- The edit does not fail. In the file that then stands (the old one, where the edit returns
  -- nothing), the asset list is the old one with, in each asset whose base and last trace path are
  -- those of a fix, the base and every unit that carries it replaced by what the fix expects. Every
  -- other asset is as before.
  pub edit_assets-map :
      (fixes : List HashFix) (d : D.Doc)
      → (edited : Option D.Doc) × (edit_assets D fixes d ≡ ok edited)
        × (D.assets (or_zero d edited) ≡ map (corrected_by (fix_map fixes [])) (D.assets d))
  unfolding edit_assets
  edit_assets-map fixes d =
      let fs = to_fix (fix_map fixes []) 0 (D.assets d) in
      let l = set_all-Lists (fix_map fixes []) [] (D.assets d) 0 d refl refl in
      elim (List-cases fs) [
        | inl nothing ↦ (
          none,
          set_fixes-nil fs d nothing,
          ap D.assets (set_all-nil fs d l.file nothing l.returned) ∙ l.listed,
        )
        | inr (f, later, found) ↦
            (some l.file, set_fixes-some fs later d f found l.returned, l.listed)
      ]
