-- ===== src/Discovery/Payload.antt =====
-- The payload of the discovery command, against a direct description.
-- each mode with its frequency
use esphome_pn.Discovery.{discover_payload, fill_discover}
use esphome_pn.Platform.{Platform}
use esphome_pn.Prelude.{
  List, ℕ, ◌∷◌, length, ◌≡◌, ◌+◌, ◌*◌, [], set, replicate, ◌++◌, suc, arith, ap, zero, refl,
  append_assoc, length-append,
}

abbrev pub with_frequency : List ℕ → List ℕ
with_frequency [] = []
with_frequency (mode ∷ modes) = mode ∷ 0x01 ∷ with_frequency modes

-- two bytes for each mode
abbrev zeros : List ℕ → List ℕ
zeros [] = []
zeros (mode ∷ modes) = 0 ∷ 0 ∷ zeros modes

set-append :
    {A : Type 0} (xs ys : List A) (i j : ℕ) (v : A)
    → j ≡ length xs + i
    → set (xs ++ ys) j v ≡ xs ++ set ys i v
set-append [] ys i j v e = ap (λ k. set ys k v) (omega (arith, e))
set-append (x ∷ xs) ys i zero v e = absurd (omega arith)
set-append (x ∷ xs) ys i (suc j) v e = ap (λ zs. x ∷ zs) (set-append xs ys i j v (omega arith))

replicate-zeros : (modes : List ℕ) (n : ℕ) → n ≡ length modes * 2 → replicate n 0 ≡ zeros modes
replicate-zeros [] zero e = refl
replicate-zeros [] (suc n) e = absurd (omega arith)
replicate-zeros (mode ∷ modes) zero e = absurd (omega arith)
replicate-zeros (mode ∷ modes) (suc zero) e = absurd (omega arith)
replicate-zeros (mode ∷ modes) (suc (suc n)) e =
    ap (λ zs. 0 ∷ 0 ∷ zs) (replicate-zeros modes n (omega arith))

replicate-zeros_suc :
    (modes : List ℕ) (n : ℕ) → n ≡ length modes * 2 + 1 → replicate n 0 ≡ 0 ∷ zeros modes
replicate-zeros_suc modes zero e = absurd (omega arith)
replicate-zeros_suc modes (suc n) e = ap (λ zs. 0 ∷ zs) (replicate-zeros modes n (omega arith))

fill_discover_lem :
    (modes : List ℕ) (i : ℕ) (done : List ℕ)
    → length done ≡ i * 2 + 1
    → fill_discover modes i (done ++ zeros modes) ≡ done ++ with_frequency modes
fill_discover_lem [] i done e = refl
fill_discover_lem (mode ∷ modes) i done e =
    rw (set-append done (0 ∷ 0 ∷ zeros modes) 0 (i * 2 + 1) mode (omega arith)) (
      rw (set-append done (mode ∷ 0 ∷ zeros modes) 1 (i * 2 + 2) 0x01 (omega arith)) (
        rw (← append_assoc done (mode ∷ 0x01 ∷ []) (zeros modes)) (
          rw (← append_assoc done (mode ∷ 0x01 ∷ []) (with_frequency modes)) (
            fill_discover_lem modes (i + 1) (done ++ mode ∷ 0x01 ∷ [])
              (omega (arith, length-append done (mode ∷ 0x01 ∷ [])))))))

module _ ⦃p : Platform⦄ where
  -- The loop of `start_discovery_` sends the number of modes and, for each mode of the table, the
  -- mode followed by the frequency 1.
  discover_payload_lem :
      (modes : List ℕ) → discover_payload modes ≡ length modes ∷ with_frequency modes
  unfolding discover_payload
  discover_payload_lem modes =
      rw (replicate-zeros_suc modes (length modes * 2 + 1) (omega arith))
        (fill_discover_lem modes 0 (length modes ∷ []) (omega arith))
