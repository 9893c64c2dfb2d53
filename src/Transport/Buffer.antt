-- ===== src/Transport/Buffer.antt =====
-- The vector that an answer is read into, first its header and then the rest.
use esphome_pn.Prelude.{
  List, ℕ, length, take, ◌≤◌, ◌≡◌, resize, drop, suc, ◌+◌, ◌++◌, arith, ap, ◌∷◌, zero, [], refl,
  subst, ◌∙◌, ◌<◌, ◌≢◌, resize-cons, length-take, length-drop, length-resize, take-drop,
}

take-resize : (xs : List ℕ) (n : ℕ) → length xs ≤ n → take (length xs) (resize xs n) ≡ xs
take-resize [] n l = refl
take-resize (x ∷ xs) zero l = absurd (omega arith)
take-resize (x ∷ xs) (suc n) l =
    ap (λ ys. take (suc (length xs)) ys) (resize-cons x xs n)
    ∙ ap (λ ys. x ∷ ys) (take-resize xs n (omega arith))

-- the buffer of the payload
pub length-rest : (xs : List ℕ) (h n : ℕ) → length (drop h (resize xs (n + h))) ≡ n
length-rest xs h n = omega (arith, length-drop h (resize xs (n + h)), length-resize xs (n + h))

-- what stands in the vector in the end
pub joined :
    (h k : ℕ) (m : List ℕ)
    → length m ≡ h + k
    → take h (resize (take h m) (k + h)) ++ take k (drop h m) ≡ m
joined h k m l =
    let size = length-take h m (omega arith) in
    let kept : take h (resize (take h m) (k + h)) ≡ take h m =
      subst (λ n. take n (resize (take h m) (k + h)) ≡ take h m) size
        (take-resize (take h m) (k + h) (omega arith)) in
    rw kept (take-drop h k m l)

-- a message without payload is its header
pub header_only : (h : ℕ) (m : List ℕ) → length m ≡ h → take h m ≡ m
header_only zero [] l = refl
header_only zero (x ∷ m) l = absurd (omega arith)
header_only (suc h) [] l = refl
header_only (suc h) (x ∷ m) l = ap (λ ys. x ∷ ys) (header_only h m (omega arith))

empty : {A : Type 0} (xs : List A) → length xs ≡ 0 → xs ≡ []
empty [] h = refl
empty (x ∷ xs) h = absurd (omega arith)

-- and what is left to read
pub nothing_left : (h k : ℕ) (m : List ℕ) → length m ≡ h + k → drop k (drop h m) ≡ []
nothing_left h k m l =
    empty (drop k (drop h m)) (omega (arith, length-drop h m, length-drop k (drop h m)))

pub something : (h : ℕ) (m : List ℕ) → 0 < h → h ≤ length m → m ≢ []
something zero m pos l e = absurd (omega arith)
something (suc h) [] pos l e = absurd (omega arith)
something (suc h) (x ∷ m) pos l e = cc
