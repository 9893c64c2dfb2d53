-- ===== src/Prelude/Puts.antt =====
-- Bytes written over a part of a list.
use Prim.Native.Nat.{ℕ, zero, suc, ◌+◌, ◌≤◌}
use mathlib.Core.Path.{◌≡◌, refl, ap}
use mathlib.Core.List.{List, [], ◌∷◌, ◌++◌}
use native.Mathlib.Omega.{arith}
use esphome_pn.Prelude.Lists.{length, take, drop}

-- the list with `ys` in place of what stands from `i` on, as far as it goes
abbrev pub put : List ℕ → ℕ → List ℕ → List ℕ
put [] i ys = []
put (x ∷ xs) (suc i) ys = x ∷ put xs i ys
put (x ∷ xs) zero [] = x ∷ xs
put (x ∷ xs) zero (y ∷ ys) = y ∷ put xs zero ys

pub length-put : (xs : List ℕ) (i : ℕ) (ys : List ℕ) → length (put xs i ys) ≡ length xs
length-put [] i ys = refl
length-put (x ∷ xs) (suc i) ys = ap suc (length-put xs i ys)
length-put (x ∷ xs) zero [] = refl
length-put (x ∷ xs) zero (y ∷ ys) = ap suc (length-put xs zero ys)

pub put-nil : (xs : List ℕ) (i : ℕ) → put xs i [] ≡ xs
put-nil [] i = refl
put-nil (x ∷ xs) (suc i) = ap (λ zs. x ∷ zs) (put-nil xs i)
put-nil (x ∷ xs) zero = refl

-- two parts that follow each other
pub put-put :
    (xs : List ℕ) (i j : ℕ) (ys zs : List ℕ)
    → j ≡ i + length ys
    → put (put xs i ys) j zs ≡ put xs i (ys ++ zs)
put-put [] i j ys zs h = refl
put-put (x ∷ xs) (suc i) zero ys zs h = absurd (omega arith)
put-put (x ∷ xs) (suc i) (suc j) ys zs h = ap (λ ws. x ∷ ws) (put-put xs i j ys zs (omega arith))
put-put (x ∷ xs) zero j [] zs h = ap (λ k. put (x ∷ xs) k zs) h
put-put (x ∷ xs) zero zero (y ∷ ys) zs h = absurd (omega arith)
put-put (x ∷ xs) zero (suc j) (y ∷ ys) zs h =
    ap (λ ws. y ∷ ws) (put-put xs zero j ys zs (omega arith))

-- a part of what was put
pub take-drop-put :
    (k j : ℕ) (xs : List ℕ) (i m : ℕ) (ys : List ℕ)
    → m ≡ i + j
    → j + k ≤ length ys
    → i + length ys ≤ length xs
    → take k (drop m (put xs i ys)) ≡ take k (drop j ys)
take-drop-put k j xs (suc i) zero ys e l h = absurd (omega arith)
take-drop-put k j [] (suc i) (suc m) ys e l h = absurd (omega arith)
take-drop-put k j (x ∷ xs) (suc i) (suc m) ys e l h =
    take-drop-put k j xs i m ys (omega arith) l (omega arith)
take-drop-put zero j [] zero m [] e l h = refl
take-drop-put (suc k) j [] zero m [] e l h = absurd (omega arith)
take-drop-put k j [] zero m (y ∷ ys) e l h = absurd (omega arith)
take-drop-put zero j (x ∷ xs) zero m [] e l h = refl
take-drop-put (suc k) j (x ∷ xs) zero m [] e l h = absurd (omega arith)
take-drop-put k (suc j) (x ∷ xs) zero zero (y ∷ ys) e l h = absurd (omega arith)
take-drop-put k (suc j) (x ∷ xs) zero (suc m) (y ∷ ys) e l h =
    take-drop-put k j xs zero m ys (omega arith) (omega arith) (omega arith)
take-drop-put k zero (x ∷ xs) zero (suc m) (y ∷ ys) e l h = absurd (omega arith)
take-drop-put zero zero (x ∷ xs) zero zero (y ∷ ys) e l h = refl
take-drop-put (suc k) zero (x ∷ xs) zero zero (y ∷ ys) e l h =
    ap (λ zs. y ∷ zs) (take-drop-put k zero xs zero zero ys refl (omega arith) (omega arith))
