-- ===== src/Classic/Card/RoundTrip.antt =====
-- A message that is written to a card is read back from it.
use esphome_pn.Classic.Card.Loops.{write_mifare_classic_tag_lem, read_mifare_classic_tag_lem}
use esphome_pn.Classic.Encoding.{encode_classic_short}
use esphome_pn.Driver.Reaches.{Reaches, Reaches-bind, Reaches-value, Reaches-pure}
use esphome_pn.Classic.Tag.{encode_classic, write_mifare_classic_tag, read_mifare_classic_tag}
use esphome_pn.Driver.{State, ◌>>=◌, pure}
use esphome_pn.Classic.Card.{IsCard, scatter, gather, gather-scatter, scatter-first}
use esphome_pn.Prelude.{
  List, ℕ, ◌∷◌, length, ◌<◌, replicate, ◌+◌, ◌≡◌, ◌-◌, ◌≤◌, ◌*◌, take, resize, some, ◌++◌, ap, ◌∙◌,
  arith, length-append, [], length-resize, resize-append, append_assoc, drop,
}
use esphome_pn.Platform.{Platform}

-- the end of the message's block, with zeros up to the end of the buffer
abbrev pub padding : List ℕ → ℕ → List ℕ
padding message n = 0xFE ∷ replicate (n - (length message + 3)) 0

resize-encode_classic :
    (message : List ℕ) (n : ℕ)
    → length message < 255
    → length message + 3 ≤ n
    → resize (encode_classic message) n ≡ 0x03 ∷ length message ∷ (message ++ padding message n)
resize-encode_classic message n short fits =
    let block = encode_classic message in
    let e = encode_classic_short message short in
    let size : length block ≡ length message + 3 =
      ap length e ∙ omega (arith, length-append message (0xFE ∷ [])) in
    resize-append block n (omega arith)
    ∙ ap (λ k. block ++ replicate (n - k) 0) size
    ∙ ap (λ xs. xs ++ replicate (n - (length message + 3)) 0) e
    ∙ ap (λ xs. 0x03 ∷ length message ∷ xs)
        (append_assoc message (0xFE ∷ []) (replicate (n - (length message + 3)) 0))

module _ ⦃p : Platform⦄ {memory : p.Env → ℕ → List ℕ} {opened : p.Env → ℕ → Type 0}
    (card : IsCard memory opened) where
  -- A card that keeps to its data sheet. A message of fewer than 255 bytes, whose buffer is whole
  -- blocks, at most 125 of them, and has 3 bytes more than the message, is written with the status
  -- OK. Where the library finds its length and its start in the first block that was written, a read
  -- that follows returns OK, and the tag with what is decoded from the bytes of the message, of its
  -- terminator and of the zeros behind it.
  pub classic_round_trip :
      (message : p.NdefMessage) (t : p.NfcTag) (rows : ℕ) (s : State p)
      → length (p.encode_ndef message) < 255
      → p.get_mifare_classic_buffer_size (length (p.encode_ndef message)) ≡ 16 * rows
      → length (p.encode_ndef message) + 3 ≤ 16 * rows
      → rows ≤ 125
      → p.decode_mifare_classic_tlv
          (take 16 (resize (encode_classic (p.encode_ndef message)) (16 * rows)))
        ≡ some (length (p.encode_ndef message), 2)
      → Reaches {A = ℕ × ℕ × p.NfcTag}
          (λ e.
            memory e
            ≡ scatter rows 4
                (resize (encode_classic (p.encode_ndef message)) (16 * rows))
                (memory s.env))
          (
            p.status_ok,
            p.status_ok,
            p.set_ndef_message
                (p.decode_ndef
                  (p.encode_ndef message ++ padding (p.encode_ndef message) (16 * rows)))
                t,
          )
          s
          ((do
            written ← write_mifare_classic_tag message
            (status, t') ← read_mifare_classic_tag t
            pure (written, status, t'))
            s)
  classic_round_trip message t rows s short buffer fits small tlv =
      let encoded = p.encode_ndef message in
      let bytes = resize (encode_classic encoded) (16 * rows) in
      let size = length-resize (encode_classic encoded) (16 * rows) in
      let w = write_mifare_classic_tag_lem card message rows s buffer small in
      let s1 = record s { env = w.board } in
      let held : gather rows 4 (memory w.board) ≡ bytes =
        ap (gather rows 4) w.holds
        ∙ gather-scatter rows 4 bytes (memory s.env) (omega arith) size in
      let first : memory w.board 4 ≡ take 16 bytes =
        ap (λ m. m 4) w.holds
        ∙ scatter-first rows 4 bytes (memory s.env) (omega arith) (omega arith) in
      let r =
        read_mifare_classic_tag_lem card t (length encoded) 2 rows s1
          (ap p.decode_mifare_classic_tlv first ∙ tlv) buffer small
          (omega (arith, ap length held)) in
      let decoded : drop 2 (gather rows 4 (memory w.board))
          ≡ encoded ++ padding encoded (16 * rows) =
        ap (drop 2) (held ∙ resize-encode_classic encoded (16 * rows) short fits) in
      Reaches-bind _ w (
        Reaches-bind _ r (
          Reaches-value
            (ap (λ xs. (p.status_ok, p.status_ok, p.set_ndef_message (p.decode_ndef xs) t)) decoded)
            (Reaches-pure (r.holds ∙ w.holds))))
