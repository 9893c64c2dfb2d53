-- ===== src/Endpoints/Find.antt =====
-- `find_tag_uid_` against equality of UIDs.
use esphome_pn.Driver.{State, ok}
use esphome_pn.Platform.{Platform}
use esphome_pn.Endpoints.{uid_matches, match_bytes, Endpoint, find_tag_uid, find_from}
use esphome_pn.Prelude.{
  Bool, List, ℕ, length, ◌≡◌, true, ◌∷◌, eq→==, [], refl, arith, ◌&&◌, ◌==◌, ◌↔◌, ◌≢◌, none, some,
  false, ◌+◌, get_elem?, false≢true, sym, take, ◌∙◌, Bool-cases, inl, inr, suc,
}

uid_bytes :
    (b : Bool) (xs ys : List ℕ)
    → length xs ≡ length ys
    → match_bytes b xs ys ≡ true
    → (b ≡ true) × (xs ≡ ys)
uid_bytes b [] [] l h = (h, refl)
uid_bytes b [] (y ∷ ys) l h = absurd (omega arith)
uid_bytes b (x ∷ xs) [] l h = absurd (omega arith)
uid_bytes b (x ∷ xs) (y ∷ ys) l h = ground (arith, uid_bytes (b && x == y) xs ys)

match_bytes_refl : (xs : List ℕ) → match_bytes true xs xs ≡ true
match_bytes_refl [] = refl
match_bytes_refl (x ∷ xs) = rw (eq→== {a = x} refl) (match_bytes_refl xs)

-- The comparison in `find_tag_uid_` accepts a UID exactly if it is equal, in length and bytes.
uid_matches_iff : (xs ys : List ℕ) → (uid_matches xs ys ≡ true) ↔ (xs ≡ ys)
unfolding uid_matches
uid_matches_iff xs ys = (to, back)
  where
    to : uid_matches xs ys ≡ true → xs ≡ ys
    to h = ground (arith, uid_bytes true xs ys)

    back : xs ≡ ys → uid_matches xs ys ≡ true
    back e = ground (arith, match_bytes_refl xs, e)

module _ ⦃p : Platform⦄ where
  -- no endpoint of the list has the UID
  abbrev pub Absent : List ℕ → List Endpoint → Type 0
  Absent uid [] = Unit
  Absent uid (x ∷ xs) = (uid ≢ p.get_uid x.tag) × Absent uid xs

  find_from-some :
      (i j : ℕ) (uid : List ℕ) (xs : List Endpoint)
      → find_from i uid xs ≡ some j
      → (k : ℕ) × (x : Endpoint) × (j ≡ i + k)
        × (get_elem? xs k ≡ some x)
        × (p.get_uid x.tag ≡ uid)
        × Absent uid (take k xs)
  unfolding find_from
  find_from-some i j uid [] h = cc
  find_from-some i j uid (x ∷ xs) h = elim (Bool-cases (uid_matches uid (p.get_uid x.tag))) [
    | inl same ↦
        (0, x, ground arith, refl, sym ((uid_matches_iff uid (p.get_uid x.tag)).0 same), tt)
    | inr other ↦
        let (k, y, e, at_k, found, before) = find_from-some (i + 1) j uid xs (ground arith) in
        (suc k, y, omega arith, at_k, found, (differs other, before))
  ]
    where
      differs : uid_matches uid (p.get_uid x.tag) ≡ false → uid ≢ p.get_uid x.tag
      differs other e = false≢true (sym other ∙ (uid_matches_iff uid (p.get_uid x.tag)).1 e)

  -- Where `find_tag_uid_` returns an index, the endpoint at that index has the UID, and no
  -- endpoint before it has it.
  pub find_tag_uid-some :
      (j : ℕ) (uid : List ℕ) (s s' : State p)
      → find_tag_uid uid s ≡ ok (some j) s'
      → (x : Endpoint) × (get_elem? s.discovered_endpoint j ≡ some x)
        × (p.get_uid x.tag ≡ uid)
        × Absent uid (take j s.discovered_endpoint)
  unfolding find_tag_uid
  find_tag_uid-some j uid s s' h =
      let (k, x, e, at_k, found, before) =
        find_from-some 0 j uid s.discovered_endpoint (ground arith) in
      let same : j ≡ k = omega arith in rw same (x, at_k, found, before)

  -- Where `find_tag_uid_` finds nothing, no endpoint has the UID.
  pub find_from-none :
      (i : ℕ) (uid : List ℕ) (xs : List Endpoint) → find_from i uid xs ≡ none → Absent uid xs
  unfolding find_from
  find_from-none i uid [] h = tt
  find_from-none i uid (x ∷ xs) h = elim (Bool-cases (uid_matches uid (p.get_uid x.tag))) [
    | inl same ↦ absurd (ground arith)
    | inr other ↦ (differs other, find_from-none (i + 1) uid xs (ground arith))
  ]
    where
      differs : uid_matches uid (p.get_uid x.tag) ≡ false → uid ≢ p.get_uid x.tag
      differs other e = false≢true (sym other ∙ (uid_matches_iff uid (p.get_uid x.tag)).1 e)
