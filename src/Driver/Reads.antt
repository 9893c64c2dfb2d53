-- ===== src/Driver/Reads.antt =====
-- Reads of a vector, inside it and outside.
use esphome_pn.Driver.{State, range, ok, fault}
use esphome_pn.Platform.{Platform}
use esphome_pn.Prelude.{
  List, ℕ, ◌<◌, length, ◌+◌, ◌≤◌, get_elem?, ◌≡◌, none, some, arith, ◌∷◌, leb, take, suc, ◌&&◌,
  drop, [], true, false, refl, ◌-◌, zero, ap, ◌∙◌,
}

module _ {A : Type 0} where
  pub get_elem?-some : (xs : List A) (i : ℕ) → i < length xs → (a : A) × (get_elem? xs i ≡ some a)
  get_elem?-some [] i h = absurd (omega arith)
  get_elem?-some (x ∷ xs) zero h = (x, refl)
  get_elem?-some (x ∷ xs) (suc i) h = get_elem?-some xs i (omega arith)

  pub get_elem?-none : (xs : List A) (i : ℕ) → length xs ≤ i → get_elem? xs i ≡ none
  get_elem?-none [] i h = refl
  get_elem?-none (x ∷ xs) zero h = absurd (omega arith)
  get_elem?-none (x ∷ xs) (suc i) h = get_elem?-none xs i (omega arith)

  get_elem?-take : (n k : ℕ) (xs : List A) → k < n → get_elem? (take n xs) k ≡ get_elem? xs k
  get_elem?-take zero k xs h = absurd (omega arith)
  get_elem?-take (suc n) k [] h = refl
  get_elem?-take (suc n) zero (x ∷ xs) h = refl
  get_elem?-take (suc n) (suc k) (x ∷ xs) h = get_elem?-take n k xs (omega arith)

  get_elem?-drop : (i k j : ℕ) (xs : List A) → j ≡ i + k → get_elem? (drop i xs) k ≡ get_elem? xs j
  get_elem?-drop zero k j xs h = ap (get_elem? xs) (omega arith)
  get_elem?-drop (suc i) k j [] h = refl
  get_elem?-drop (suc i) k zero (x ∷ xs) h = absurd (omega arith)
  get_elem?-drop (suc i) k (suc j) (x ∷ xs) h = get_elem?-drop i k j xs (omega arith)

  -- an element of a part
  pub get_elem?-slice :
      (i n k j : ℕ) (xs : List A)
      → k < n
      → j ≡ i + k
      → get_elem? (take n (drop i xs)) k ≡ get_elem? xs j
  get_elem?-slice i n k j xs l h = get_elem?-take n k (drop i xs) l ∙ get_elem?-drop i k j xs h

module _ {p : Platform} (xs : List ℕ) (i : ℕ) (s : State p) where
  pub range-ok : (n : ℕ) → i + n ≤ length xs → range xs i (i + n) s ≡ ok (take n (drop i xs)) s
  range-ok n h =
      let inside : (leb i (i + n) && leb (i + n) (length xs)) ≡ true = ground arith in
      let size : i + n - i ≡ n = omega arith in rw inside (ap (λ k. ok (take k (drop i xs)) s) size)

  pub range-fault : (j : ℕ) → length xs < j → range xs i j s ≡ fault
  range-fault j h =
      let outside : (leb i j && leb j (length xs)) ≡ false = ground arith in rw outside
