-- ===== src/CardEmulation/Equal.antt =====
-- The comparisons of `card_emu_t4t_get_response_`.
use esphome_pn.Prelude.{
  List, ℕ, Bool, ◌≡◌, true, if◌then◌else◌, some, ◌∷◌, none, false, arith, ◌==◌, ◌&&◌, [], refl,
}
use esphome_pn.CardEmulation.{equal}

abbrev pub is_prefix : List ℕ → List ℕ → Bool
is_prefix [] ys = true
is_prefix (x ∷ xs) [] = false
is_prefix (x ∷ xs) (y ∷ ys) = x == y && is_prefix xs ys

-- The comparison with a command accepts every beginning of it, the empty payload too, and it reads
-- behind the end of the command exactly for a payload that goes on after it.
pub equal_lem :
    (xs ys : List ℕ)
    → equal xs ys
      ≡ (if is_prefix xs ys then some true else if is_prefix ys xs then none else some false)
unfolding equal
equal_lem [] ys = refl
equal_lem (x ∷ xs) [] = refl
equal_lem (x ∷ xs) (y ∷ ys) = ground (arith, equal_lem xs ys)
