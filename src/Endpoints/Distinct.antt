-- ===== src/Endpoints/Distinct.antt =====
-- Tables in which no UID stands twice.
use esphome_pn.Endpoints.Find.{Absent}
use esphome_pn.Endpoints.{Endpoint}
use esphome_pn.Prelude.{
  List, ℕ, ◌∷◌, erase_at, get_elem?, ◌++◌, ◌≢◌, [], suc, ◌≡◌, sym, zero, some, set, subst, ◌∙◌, ap,
}
use esphome_pn.Platform.{Platform}

module _ ⦃p : Platform⦄ where
  abbrev pub IsDistinct : List Endpoint → Type 0
  IsDistinct [] = Unit
  IsDistinct (x ∷ xs) = Absent (p.get_uid x.tag) xs × IsDistinct xs

  Absent-erase_at :
      (uid : List ℕ) (xs : List Endpoint) (i : ℕ) → Absent uid xs → Absent uid (erase_at xs i)
  Absent-erase_at uid [] i h = tt
  Absent-erase_at uid (x ∷ xs) zero h = h.1
  Absent-erase_at uid (x ∷ xs) (suc i) h = (h.0, Absent-erase_at uid xs i h.1)

  pub erase_at-IsDistinct :
      (xs : List Endpoint) (i : ℕ) → IsDistinct xs → IsDistinct (erase_at xs i)
  erase_at-IsDistinct [] i h = tt
  erase_at-IsDistinct (x ∷ xs) zero h = h.1
  erase_at-IsDistinct (x ∷ xs) (suc i) h =
      (Absent-erase_at (p.get_uid x.tag) xs i h.0, erase_at-IsDistinct xs i h.1)

  Absent-append :
      (uid : List ℕ) (xs : List Endpoint) (y : Endpoint)
      → Absent uid xs
      → uid ≢ p.get_uid y.tag
      → Absent uid (xs ++ y ∷ [])
  Absent-append uid [] y h ne = (ne, tt)
  Absent-append uid (x ∷ xs) y h ne = (h.0, Absent-append uid xs y h.1 ne)

  pub append-IsDistinct :
      (xs : List Endpoint) (y : Endpoint)
      → IsDistinct xs
      → Absent (p.get_uid y.tag) xs
      → IsDistinct (xs ++ y ∷ [])
  append-IsDistinct [] y h new = (tt, tt)
  append-IsDistinct (x ∷ xs) y h new = (
    Absent-append (p.get_uid x.tag) xs y h.0 (λ e. new.0 (sym e)),
    append-IsDistinct xs y h.1 new.1,
  )

  Absent-set :
      (uid : List ℕ) (xs : List Endpoint) (i : ℕ) (x y : Endpoint)
      → get_elem? xs i ≡ some x
      → p.get_uid y.tag ≡ p.get_uid x.tag
      → Absent uid xs
      → Absent uid (set xs i y)
  Absent-set uid [] i x y at_i same h = tt
  Absent-set uid (z ∷ xs) zero x y at_i same h =
      let found : z ≡ x = cc in ((λ e. h.0 (e ∙ same ∙ ap (λ w. p.get_uid w.tag) (sym found))), h.1)
  Absent-set uid (z ∷ xs) (suc i) x y at_i same h = (h.0, Absent-set uid xs i x y at_i same h.1)

  pub set-IsDistinct :
      (xs : List Endpoint) (i : ℕ) (x y : Endpoint)
      → get_elem? xs i ≡ some x
      → p.get_uid y.tag ≡ p.get_uid x.tag
      → IsDistinct xs
      → IsDistinct (set xs i y)
  set-IsDistinct [] i x y at_i same h = tt
  set-IsDistinct (z ∷ xs) zero x y at_i same h =
      let found : z ≡ x = cc in
      (subst (λ uid. Absent uid xs) (ap (λ w. p.get_uid w.tag) found ∙ sym same) h.0, h.1)
  set-IsDistinct (z ∷ xs) (suc i) x y at_i same h =
      (Absent-set (p.get_uid z.tag) xs i x y at_i same h.0, set-IsDistinct xs i x y at_i same h.1)
