-- ===== src/Ultralight/Encoding.antt =====
-- The message of a tag wrapped in a type-length-value block, and the pages of a tag.
-- A message of less than 255 bytes is wrapped as for MIFARE Classic.
use esphome_pn.Classic.Encoding.{ndef_tlv, encode_classic_lem}
use esphome_pn.Prelude.{
  List, ℕ, ◌≤◌, length, ◌<◌, ◌/◌, ◌≡◌, ltb, ◌≢◌, true, ◌%◌, arith, ◌∷◌, ◌++◌, refl, [], false, sym,
  ◌∙◌,
}
use esphome_pn.Classic.Tag.{encode_classic}
use esphome_pn.Ultralight.{encode_ultralight}

-- For a message of fewer than 255 bytes the block for MIFARE Ultralight is the one for MIFARE
-- Classic.
pub encode_ultralight_short :
    (message : List ℕ) → length message < 255 → encode_ultralight message ≡ encode_classic message
unfolding encode_ultralight encode_classic
encode_ultralight_short message l =
    let short : ltb (length message) 255 ≡ true = ground arith in rw short refl

third_byte : {a b c d x y : ℕ} {xs ys : List ℕ} → a ∷ b ∷ x ∷ xs ≡ c ∷ d ∷ y ∷ ys → x ≡ y
third_byte e = cc

swapped :
    (message : List ℕ)
    → 255 ≤ length message
    → length message < 65536
    → encode_ultralight message
      ≡ 0x03 ∷ 0xFF ∷ length message % 256 ∷ length message / 256 ∷ message ++ 0xFE ∷ []
unfolding encode_ultralight
swapped message g l =
    let long : ltb (length message) 255 ≡ false = ground arith in
    let hi : length message / 256 % 256 ≡ length message / 256 = omega arith in rw long (rw hi refl)

long_tlv :
    (message : List ℕ)
    → 255 ≤ length message
    → ndef_tlv message
      ≡ 0x03 ∷ 0xFF ∷ length message / 256 ∷ length message % 256 ∷ message ++ 0xFE ∷ []
long_tlv message g = let long : ltb (length message) 255 ≡ false = ground arith in rw long refl

-- For a message of 255 to 65535 bytes the block gets the low byte of the length in front of the
-- high one, and so differs from the one for MIFARE Classic, where the two bytes of the length
-- differ.
pub encode_ultralight_long :
    (message : List ℕ)
    → 255 ≤ length message
    → length message < 65536
    → length message / 256 ≢ length message % 256
    → (encode_ultralight message
        ≡ 0x03 ∷ 0xFF ∷ length message % 256 ∷ length message / 256 ∷ message ++ 0xFE ∷ [])
      × (encode_ultralight message ≢ encode_classic message)
encode_ultralight_long message g l ne =
    let wrapped = swapped message g l in
    let other : encode_classic message ≡ ndef_tlv message = encode_classic_lem message l in
    (wrapped, λ same. ne (sym (third_byte (sym wrapped ∙ same ∙ other ∙ long_tlv message g))))
