-- ===== src/Ultralight/Memory/Block.antt =====
-- The block with a message that the first data page of a tag begins.
use esphome_pn.Prelude.{
  List, ℕ, ◌≡◌, ◌+◌, length, ◌≤◌, ◌∷◌, take, drop, ◌-◌, [], suc, ◌++◌, arith, ltb, ap, refl,
  length-take, ◌∙◌, length-drop, take_all, sym, drop-drop, drop-take, take-take, take-split, ◌<◌,
  if◌then◌else◌, dec_lt,
}

-- The bytes that are decoded for a message of `n` bytes: all that the first read gives.
abbrev pub decoded_length : ℕ → ℕ
decoded_length n = if ltb n 10 then 10 else n

-- The first data page begins a block with a message of `n` bytes, 1 to 254; `content` are the bytes
-- from the start of the message on that are decoded.
pub record IsBlock (n : ℕ) (content bytes : List ℕ) : Type 0 where
  pub some_bytes : 1 ≤ n
  pub short : n < 255
  pub size : length content ≡ decoded_length n
  pub room : 18 + length content ≤ length bytes
  pub block : take (suc (suc (length content))) (drop 16 bytes) ≡ 0x03 ∷ n ∷ content

module _ {n : ℕ} {content bytes : List ℕ} (b : IsBlock n content bytes) where
  pub ten : 10 ≤ length content
  ten = ground (arith, b.size)

  pub no_shorter : n ≤ length content
  no_shorter = ground (arith, b.size)

  left_over : n - 10 ≡ length content - 10
  left_over = elim (dec_lt n 10) [
    | yes h ↦ let l : length content ≡ 10 = ground (arith, b.size) in omega arith
    | no h ↦ let l : length content ≡ n = ground (arith, b.size) in omega arith
  ]

  pub begins : take 16 (drop 12 bytes) ≡ take 4 (drop 12 bytes) ++ (0x03 ∷ n ∷ take 10 content)
  begins =
      let from = drop 12 bytes in
      let four = length-take 4 from (omega (arith, length-drop 12 bytes, b.room)) in
      let first = take_all 16 (take 4 from) (omega (arith, four)) in
      let then_ : take 12 (drop 4 from) ≡ 0x03 ∷ n ∷ take 10 content =
        ap (take 12) (drop-drop 4 12 bytes)
        ∙ sym (take-take 12 (suc (suc (length content))) (drop 16 bytes) (omega (arith, ten)))
        ∙ ap (take 12) b.block in
      sym (take-split 16 4 from) ∙ rw first (ap (λ xs. take 4 from ++ xs) then_)

  pub continues : take (n - 10) (drop 28 bytes) ≡ drop 10 content
  continues =
      let k = length content in
      let left : n - 10 ≡ suc (suc k) - 12 = omega (arith, left_over) in
      ap (λ k. take k (drop 28 bytes)) left
      ∙ ap (take (suc (suc k) - 12)) (sym (drop-drop 12 16 bytes))
      ∙ sym (drop-take 12 (suc (suc k)) (drop 16 bytes))
      ∙ ap (drop 12) b.block

pub four_lem :
    (xs : List ℕ)
    → length xs ≡ 4
    → (a : ℕ) × (b : ℕ) × (c : ℕ) × (d : ℕ) × (xs ≡ a ∷ b ∷ c ∷ d ∷ [])
four_lem [] h = absurd (omega arith)
four_lem (a ∷ []) h = absurd (omega arith)
four_lem (a ∷ b ∷ []) h = absurd (omega arith)
four_lem (a ∷ b ∷ c ∷ []) h = absurd (omega arith)
four_lem (a ∷ b ∷ c ∷ d ∷ []) h = (a, b, c, d, refl)
four_lem (a ∷ b ∷ c ∷ d ∷ e ∷ xs) h = absurd (omega arith)
