-- ===== src/Ultralight/Memory/RoundTrip.antt =====
-- A message that is written to a tag is read back from it.
use esphome_pn.Ultralight.Memory.Block.{IsBlock}
use esphome_pn.Classic.Encoding.{encode_classic_short}
use esphome_pn.Ultralight.Encoding.{encode_ultralight_short}
use esphome_pn.Driver.Reaches.{Reaches-bind, Reaches-pure}
use esphome_pn.Ultralight.Memory.Writing.{write_mifare_ultralight_tag_lem}
use esphome_pn.Ultralight.Memory.Tag.{read_mifare_ultralight_tag_lem}
use esphome_pn.Driver.{State, ◌>>=◌, pure}
use esphome_pn.Ultralight.Memory.{IsTag, Leaves}
use esphome_pn.Prelude.{
  List, ℕ, length, ◌<◌, ◌+◌, ◌≡◌, ◌≤◌, ◌*◌, ◌∷◌, get_elem?, ◌++◌, put, [], resize, some, ap, ◌∙◌,
  arith, length-append, refl, suc, length-put, take-drop-put, length-resize, take, resize-append,
  take-append, replicate, ◌-◌, take_all,
}
use esphome_pn.Ultralight.{
  encode_ultralight, write_mifare_ultralight_tag, read_mifare_ultralight_tag,
}
use esphome_pn.Platform.{Platform}

short_block :
    (message : List ℕ)
    → length message < 255
    → encode_ultralight message ≡ 0x03 ∷ length message ∷ (message ++ 0xFE ∷ [])
short_block message l = encode_ultralight_short message l ∙ encode_classic_short message l

put-IsBlock :
    (message bytes : List ℕ) (n : ℕ)
    → 10 ≤ length message
    → length message < 255
    → length message + 3 ≤ n
    → n + 16 ≤ length bytes
    → IsBlock (length message) message (put bytes 16 (resize (encode_ultralight message) n))
put-IsBlock message bytes n ten short fits room =
    let block = encode_ultralight message in
    let size : length block ≡ length message + 3 =
      ap length (short_block message short) ∙ omega (arith, length-append message (0xFE ∷ [])) in
    let k = suc (suc (length message)) in
    record {
      some_bytes = omega arith;
      short = short;
      size = ground arith;
      room = omega (arith, length-put bytes 16 (resize block n));
      block =
          take-drop-put k 0 bytes 16 16 (resize block n) refl (omega (arith, length-resize block n))
            (omega (arith, length-resize block n))
          ∙ ap (take k) (resize-append block n (omega arith))
          ∙ take-append k block (replicate (n - length block) 0) (omega arith)
          ∙ ap (take k) (short_block message short)
          ∙ ap (λ xs. 0x03 ∷ length message ∷ xs)
              (take-append (length message) message (0xFE ∷ []) (omega arith)
                ∙ take_all (length message) message (omega arith));
    }

module _ ⦃p : Platform⦄ {memory : p.Env → List ℕ} (tag : IsTag memory) where
  -- A tag of fewer than 1024 bytes that keeps to its data sheet. A message of 10 to 254 bytes, whose
  -- buffer has whole pages, 3 bytes more than the message, and room in the tag and in the capacity
  -- that the tag states, is written with the status OK; and a read that follows returns OK and the
  -- tag with the message that the same bytes encode.
  pub ultralight_round_trip :
      (message : p.NdefMessage) (t : p.NfcTag) (rows size : ℕ) (s : State p)
      → 10 ≤ length (p.encode_ndef message)
      → length (p.encode_ndef message) < 255
      → p.get_mifare_ultralight_buffer_size (length (p.encode_ndef message)) ≡ 4 * rows
      → length (p.encode_ndef message) + 3 ≤ 4 * rows
      → 4 * rows + 16 ≤ length (memory s.env)
      → length (memory s.env) < 1024
      → get_elem? (memory s.env) 14 ≡ some size
      → 4 * rows ≤ size * 8
      → Leaves {A = ℕ × ℕ × p.NfcTag} memory
          (put (memory s.env) 16 (resize (encode_ultralight (p.encode_ndef message)) (4 * rows)))
          (p.status_ok, p.status_ok, p.set_ndef_message (p.decode_ndef (p.encode_ndef message)) t)
          s
          ((do
            written ← write_mifare_ultralight_tag message
            (status, t') ← read_mifare_ultralight_tag t
            pure (written, status, t'))
            s)
  ultralight_round_trip message t rows size s ten short buffer fits room many e capacity =
      let bytes = memory s.env in
      let encoded = p.encode_ndef message in
      let after = put bytes 16 (resize (encode_ultralight encoded) (4 * rows)) in
      let w =
        write_mifare_ultralight_tag_lem tag message rows size bytes s refl buffer room many e
          capacity in
      let s1 = record s { env = w.board } in
      let r =
        read_mifare_ultralight_tag_lem tag t (length encoded) encoded after s1 w.holds
          (put-IsBlock encoded bytes (4 * rows) ten short fits room)
          (omega (arith, length-put bytes 16 (resize (encode_ultralight encoded) (4 * rows)))) in
      Reaches-bind _ w (Reaches-bind _ r (Reaches-pure r.holds))
