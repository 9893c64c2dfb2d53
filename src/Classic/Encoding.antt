-- ===== src/Classic/Encoding.antt =====
-- The message of a tag wrapped in a type-length-value block.
use esphome_pn.Classic.Tag.{encode_classic}
use esphome_pn.Prelude.{
  ℕ, List, length, ◌∷◌, ◌<◌, if◌then◌else◌, ◌≡◌, Bool-cases, ltb, [], inl, ◌/◌, ◌%◌, arith, ◌++◌,
  inr, refl, true,
}

-- the block of the message, with a length of one byte or of three, the high byte first
abbrev pub ndef_tlv : List ℕ → List ℕ
ndef_tlv message =
    let n = length message in
    0x03 ∷ (if ltb n 255 then n ∷ [] else 0xFF ∷ n / 256 ∷ n % 256 ∷ []) ++ message ++ 0xFE ∷ []

-- For MIFARE Classic a message of fewer than 65536 bytes is wrapped in a type-length-value block:
-- 03, the length in one byte or FF and two bytes with the high one first, the message, and FE.
pub encode_classic_lem :
    (message : List ℕ) → length message < 65536 → encode_classic message ≡ ndef_tlv message
unfolding encode_classic
encode_classic_lem message l = elim (Bool-cases (ltb (length message) 255)) [
  | inl short ↦ let n : length message % 256 ≡ length message = ground arith in rw short (rw n refl)
  | inr long ↦
      let hi : length message / 256 % 256 ≡ length message / 256 = omega arith in
      rw long (rw hi refl)
]

-- a short message, and the byte that ends it
pub encode_classic_short :
    (message : List ℕ)
    → length message < 255
    → encode_classic message ≡ 0x03 ∷ length message ∷ (message ++ 0xFE ∷ [])
unfolding encode_classic
encode_classic_short message l =
    let short : ltb (length message) 255 ≡ true = ground arith in
    let low : length message % 256 ≡ length message = omega arith in rw short (rw low refl)
