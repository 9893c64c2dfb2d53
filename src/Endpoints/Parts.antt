-- ===== src/Endpoints/Parts.antt =====
-- Parts of a list around one of its elements.
use esphome_pn.Prelude.{
  ℕ, List, ◌<◌, take, get_elem?, drop, All, length, erase_at, ◌≡◌, some, [], suc, ◌+◌, ◌∷◌, ◌++◌,
  arith, zero, ap, subst, refl,
}

module _ {A : Type 0} where
  pub take-suc :
      (i : ℕ) (xs : List A) (x : A)
      → get_elem? xs i ≡ some x
      → take (suc i) xs ≡ take i xs ++ x ∷ []
  take-suc i [] x h = cc
  take-suc zero (y ∷ xs) x h = let e : y ≡ x = cc in ap (λ z. z ∷ []) e
  take-suc (suc i) (y ∷ xs) x h = ap (λ ys. y ∷ ys) (take-suc i xs x h)

  pub drop-suc :
      (i : ℕ) (xs : List A) (x : A) → get_elem? xs i ≡ some x → drop i xs ≡ x ∷ drop (suc i) xs
  drop-suc i [] x h = cc
  drop-suc zero (y ∷ xs) x h = let e : y ≡ x = cc in ap (λ z. z ∷ xs) e
  drop-suc (suc i) (y ∷ xs) x h = drop-suc i xs x h

  pub take-erase_at : (i : ℕ) (xs : List A) → take i (erase_at xs i) ≡ take i xs
  take-erase_at zero xs = refl
  take-erase_at (suc i) [] = refl
  take-erase_at (suc i) (x ∷ xs) = ap (λ ys. x ∷ ys) (take-erase_at i xs)

  pub drop-erase_at : (i : ℕ) (xs : List A) → drop i (erase_at xs i) ≡ drop (suc i) xs
  drop-erase_at zero [] = refl
  drop-erase_at (suc i) [] = refl
  drop-erase_at zero (x ∷ xs) = refl
  drop-erase_at (suc i) (x ∷ xs) = drop-erase_at i xs

  pub length-erase_at :
      (i : ℕ) (xs : List A) → i < length xs → length (erase_at xs i) + 1 ≡ length xs
  length-erase_at i [] h = absurd (omega arith)
  length-erase_at zero (x ∷ xs) h = omega arith
  length-erase_at (suc i) (x ∷ xs) h = omega (arith, length-erase_at i xs (omega arith))

  pub whole : (xs : List A) → (take (length xs) xs ≡ xs) × (drop (length xs) xs ≡ [])
  whole [] = (refl, refl)
  whole (x ∷ xs) = (ap (λ ys. x ∷ ys) (whole xs).0, (whole xs).1)

  pub All-get :
      (P : A → Type 0) (i : ℕ) (xs : List A) (x : A) → All P xs → get_elem? xs i ≡ some x → P x
  All-get P i [] x a h = cc
  All-get P zero (y ∷ xs) x a h = let e : y ≡ x = cc in subst P e a.0
  All-get P (suc i) (y ∷ xs) x a h = All-get P i xs x a.1 h

  pub All-erase_at : (P : A → Type 0) (i : ℕ) (xs : List A) → All P xs → All P (erase_at xs i)
  All-erase_at P zero [] a = tt
  All-erase_at P (suc i) [] a = tt
  All-erase_at P zero (x ∷ xs) a = a.1
  All-erase_at P (suc i) (x ∷ xs) a = (a.0, All-erase_at P i xs a.1)
