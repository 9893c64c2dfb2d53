-- ===== src/Prelude/Slices.antt =====
-- Parts of lists: `take`, `drop` and `resize`, and their lengths.
use Prim.Native.Nat.{ℕ, zero, suc, ◌+◌, ◌-◌, ◌≤◌}
use mathlib.Core.Path.{◌≡◌, refl, ap, ◌∙◌, sym}
use mathlib.Core.List.{List, [], ◌∷◌, ◌++◌}
use native.Mathlib.Omega.{arith}
use esphome_pn.Prelude.Lists.{length, take, drop, replicate, resize}

pub length-take : (n : ℕ) (xs : List ℕ) → n ≤ length xs → length (take n xs) ≡ n
length-take zero xs h = refl
length-take (suc n) [] h = absurd (omega arith)
length-take (suc n) (x ∷ xs) h = ap suc (length-take n xs (omega arith))

pub length-drop : (n : ℕ) (xs : List ℕ) → length (drop n xs) ≡ length xs - n
length-drop zero xs = omega arith
length-drop (suc n) [] = omega arith
length-drop (suc n) (x ∷ xs) = omega (arith, length-drop n xs)

length-replicate : (n : ℕ) → length {A = ℕ} (replicate n 0) ≡ n
length-replicate zero = refl
length-replicate (suc n) = ap suc (length-replicate n)

pub resize-cons : (x : ℕ) (xs : List ℕ) (n : ℕ) → resize (x ∷ xs) (suc n) ≡ x ∷ resize xs n
resize-cons x xs n = ap (λ k. x ∷ (take n xs ++ replicate k 0)) (omega arith)

pub length-resize : (xs : List ℕ) (n : ℕ) → length (resize xs n) ≡ n
length-resize [] zero = refl
length-resize [] (suc n) = length-replicate (suc n - 0) ∙ omega arith
length-resize (x ∷ xs) zero = length-replicate (0 - suc (length xs)) ∙ omega arith
length-resize (x ∷ xs) (suc n) = ap length (resize-cons x xs n) ∙ ap suc (length-resize xs n)

pub take-drop : (n k : ℕ) (xs : List ℕ) → length xs ≡ n + k → take n xs ++ take k (drop n xs) ≡ xs
take-drop zero zero [] h = refl
take-drop zero (suc k) [] h = absurd (omega arith)
take-drop zero zero (x ∷ xs) h = absurd (omega arith)
take-drop zero (suc k) (x ∷ xs) h = ap (λ ys. x ∷ ys) (take-drop zero k xs (omega arith))
take-drop (suc n) k [] h = absurd (omega arith)
take-drop (suc n) k (x ∷ xs) h = ap (λ ys. x ∷ ys) (take-drop n k xs (omega arith))

pub drop-append : (xs ys : List ℕ) → drop (length xs) (xs ++ ys) ≡ ys
drop-append [] ys = refl
drop-append (x ∷ xs) ys = drop-append xs ys

pub take_all : (n : ℕ) (xs : List ℕ) → length xs ≤ n → take n xs ≡ xs
take_all zero [] h = refl
take_all zero (x ∷ xs) h = absurd (omega arith)
take_all (suc n) [] h = refl
take_all (suc n) (x ∷ xs) h = ap (λ ys. x ∷ ys) (take_all n xs (omega arith))

take-nil : (n : ℕ) → take {A = ℕ} n [] ≡ []
take-nil zero = refl
take-nil (suc n) = refl

drop-nil : (n : ℕ) → drop {A = ℕ} n [] ≡ []
drop-nil zero = refl
drop-nil (suc n) = refl

pub drop_all : (n : ℕ) (xs : List ℕ) → length xs ≤ n → drop n xs ≡ []
drop_all n [] h = drop-nil n
drop_all zero (x ∷ xs) h = absurd (omega arith)
drop_all (suc n) (x ∷ xs) h = drop_all n xs (omega arith)

pub take_append_drop : (n : ℕ) (xs : List ℕ) → take n xs ++ drop n xs ≡ xs
take_append_drop zero xs = refl
take_append_drop (suc n) [] = refl
take_append_drop (suc n) (x ∷ xs) = ap (λ ys. x ∷ ys) (take_append_drop n xs)

pub take-append : (n : ℕ) (xs ys : List ℕ) → n ≤ length xs → take n (xs ++ ys) ≡ take n xs
take-append zero xs ys h = refl
take-append (suc n) [] ys h = absurd (omega arith)
take-append (suc n) (x ∷ xs) ys h = ap (λ zs. x ∷ zs) (take-append n xs ys (omega arith))

pub drop-drop : (a b : ℕ) (xs : List ℕ) → drop a (drop b xs) ≡ drop (b + a) xs
drop-drop a zero xs = ap (λ n. drop n xs) (omega arith)
drop-drop a (suc b) [] = drop-nil a ∙ sym (drop-nil (suc b + a))
drop-drop a (suc b) (x ∷ xs) =
    let e : suc (b + a) ≡ suc b + a = omega arith in drop-drop a b xs ∙ ap (λ n. drop n (x ∷ xs)) e

pub take-take : (n k : ℕ) (xs : List ℕ) → n ≤ k → take n (take k xs) ≡ take n xs
take-take zero k xs h = refl
take-take (suc n) zero xs h = absurd (omega arith)
take-take (suc n) (suc k) [] h = refl
take-take (suc n) (suc k) (x ∷ xs) h = ap (λ ys. x ∷ ys) (take-take n k xs (omega arith))

-- what is taken in two parts
pub take-split :
    (n k : ℕ) (xs : List ℕ) → take n (take k xs) ++ take (n - k) (drop k xs) ≡ take n xs
take-split n zero xs =
    let e : n - 0 ≡ n = omega arith in
    ap (λ ys. ys ++ take (n - 0) xs) (take-nil n) ∙ ap (λ m. take m xs) e
take-split zero (suc k) xs =
    let e : 0 - suc k ≡ 0 = omega arith in ap (λ m. take m (drop (suc k) xs)) e
take-split (suc n) (suc k) [] = take-nil (suc n - suc k)
take-split (suc n) (suc k) (x ∷ xs) =
    let e : suc n - suc k ≡ n - k = omega arith in
    ap (λ m. x ∷ (take n (take k xs) ++ take m (drop k xs))) e
    ∙ ap (λ ys. x ∷ ys) (take-split n k xs)

pub resize-append :
    (xs : List ℕ) (n : ℕ) → length xs ≤ n → resize xs n ≡ xs ++ replicate (n - length xs) 0
resize-append xs n h = ap (λ ys. ys ++ replicate (n - length xs) 0) (take_all n xs h)

pub drop-take : (k n : ℕ) (xs : List ℕ) → drop k (take n xs) ≡ take (n - k) (drop k xs)
drop-take zero n xs = let e : n ≡ n - 0 = omega arith in ap (λ m. take m xs) e
drop-take (suc k) zero xs =
    let e : 0 - suc k ≡ 0 = omega arith in ap (λ m. take m (drop (suc k) xs)) (sym e)
drop-take (suc k) (suc n) [] = sym (take-nil (suc n - suc k))
drop-take (suc k) (suc n) (x ∷ xs) =
    let e : n - k ≡ suc n - suc k = omega arith in drop-take k n xs ∙ ap (λ m. take m (drop k xs)) e
