-- ===== src/Classic/Card/Loops.antt =====
-- The loops over the blocks of a card that answers: what is read and what is written.
use esphome_pn.Driver.Reads.{range-ok}
use esphome_pn.Transceive.Answered.{same_status}
use esphome_pn.Driver.Reaches.{Reaches, Reaches-pure, Reaches-bind, Reaches-value, Reaches-map}
use esphome_pn.Driver.{State}
use esphome_pn.Classic.Card.Access.{
  IsAt, auth_lem, read_block_lem, auth_if_first_lem, next_block-IsAt, write_block_lem,
}
use esphome_pn.Classic.Tag.{
  read_mifare_classic_tag, write_blocks, write_mifare_classic_tag, read_blocks, read_announced,
  finish_read, encode_classic, next_block,
}
use esphome_pn.Classic.Card.{IsCard, gather, scatter, next_block-after, update}
use esphome_pn.Prelude.{
  ℕ, List, false≢true, ◌≡◌, length, sym, ◌+◌, ◌∙◌, ◌*◌, some, ◌≤◌, ◌<◌, ◌++◌, drop, resize, arith,
  suc, [], ltb, length-resize, refl, true, false, append-nil, take, length-take, length-drop, ap,
  append_assoc, drop-drop, zero,
}
use esphome_pn.Platform.{Platform}

module _ ⦃p : Platform⦄ {memory : p.Env → ℕ → List ℕ} {opened : p.Env → ℕ → Type 0}
    (card : IsCard memory opened) where
  read_blocks_lem :
      (fuel index buffer_size block rows : ℕ) (buffer : List ℕ) (m : ℕ → List ℕ) (s : State p)
      → memory s.env ≡ m
      → IsAt card block s.env
      → buffer_size ≡ index + 16 * rows
      → rows < fuel
      → block + 2 * rows < 255
      → Reaches
          (λ e. memory e ≡ m)
          (p.status_ok, buffer ++ gather rows block m)
          s
          (read_blocks fuel index buffer_size block buffer s)
  unfolding read_blocks
  read_blocks_lem zero index buffer_size block rows buffer m s h at_ size f small =
      absurd (omega arith)
  read_blocks_lem (suc fuel) index buffer_size block zero buffer m s h at_ size f small =
      let stop : ltb index buffer_size ≡ false = ground arith in
      rw stop (rw (append-nil buffer) (Reaches-pure h))
  read_blocks_lem (suc fuel) index buffer_size block (suc rows) buffer m s h at_ size f small =
      let go : ltb index buffer_size ≡ true = ground arith in
      let step : index + p.mifare_classic_block_size ≡ index + 16 =
        ap (λ k. index + k) card.block_size in
      let auth = auth_if_first_lem card block m s h at_ in
      let got = read_block_lem card block m (record s { env = auth.board }) auth.holds in
      let rest =
        read_blocks_lem fuel (index + 16) buffer_size (next_block block) rows (buffer ++ m block) m
          (record s { env = got.board }) got.holds.0
          (next_block-IsAt card block got.board (omega arith) got.holds.1) (omega arith)
          (omega arith) (omega (arith, next_block-after block (omega arith))) in
      rw go (
        rw step (
          Reaches-bind _ auth (
            rw same_status (
              Reaches-bind _ got (
                rw same_status (
                  Reaches-value
                    (ap (λ xs. (p.status_ok, xs))
                      (append_assoc buffer (m block) (gather rows (next_block block) m)))
                    rest))))))

  write_blocks_lem :
      (fuel index buffer_length block rows : ℕ) (encoded : List ℕ) (m : ℕ → List ℕ) (s : State p)
      → memory s.env ≡ m
      → IsAt card block s.env
      → length encoded ≡ buffer_length
      → buffer_length ≡ index + 16 * rows
      → rows < fuel
      → block + 2 * rows < 255
      → Reaches
          (λ e. memory e ≡ scatter rows block (drop index encoded) m)
          p.status_ok
          s
          (write_blocks fuel index buffer_length block encoded s)
  unfolding write_blocks
  write_blocks_lem zero index buffer_length block rows encoded m s h at_ full size f small =
      absurd (omega arith)
  write_blocks_lem (suc fuel) index buffer_length block zero encoded m s h at_ full size f small =
      let stop : ltb index buffer_length ≡ false = ground arith in rw stop (Reaches-pure h)
  write_blocks_lem (suc fuel) index buffer_length block (suc rows) encoded m s h at_ full size f
        small =
      let go : ltb index buffer_length ≡ true = ground arith in
      let from = drop index encoded in
      let step : index + p.mifare_classic_block_size ≡ index + 16 =
        ap (λ k. index + k) card.block_size in
      let auth = auth_if_first_lem card block m s h at_ in
      let sixteen_ : length (take 16 from) ≡ 16 =
        length-take 16 from (omega (arith, length-drop index encoded)) in
      let put_ =
        write_block_lem card block (take 16 from) m (record s { env = auth.board }) auth.holds
          at_.off_trailer sixteen_ in
      let rest =
        write_blocks_lem fuel (index + 16) buffer_length (next_block block) rows encoded
          (update m block (take 16 from)) (record s { env = put_.board }) put_.holds.0
          (next_block-IsAt card block put_.board (omega arith) put_.holds.1) full (omega arith)
          (omega arith) (omega (arith, next_block-after block (omega arith))) in
      let moved = sym (drop-drop 16 index encoded) in
      rw go (
        rw step (
          Reaches-bind _ auth (
            rw same_status (
              rw (range-ok encoded index (record s { env = auth.board }) 16 (omega arith)) (
                Reaches-bind _ put_ (
                  rw same_status (
                    Reaches-map
                      (λ e held.
                        held
                        ∙ ap
                            (λ xs.
                              scatter rows (next_block block) xs (update m block (take 16 from)))
                            moved)
                      rest)))))))

  pub start-IsAt : (e : p.Env) → IsAt card 4 e
  start-IsAt e = record {
    off_trailer = card.begins.1;
    ready = λ inside. absurd (false≢true (sym inside ∙ card.begins.0));
  }

  -- For a card that keeps to its data sheet, and a message whose buffer is whole blocks, at most 125
  -- of them: a write returns OK and leaves the message's block, with zeros up to the buffer's end,
  -- in the data blocks from block 4 on, the trailers passed over; every other block, and every
  -- member of the driver, is as before.
  pub write_mifare_classic_tag_lem :
      (message : p.NdefMessage) (rows : ℕ) (s : State p)
      → p.get_mifare_classic_buffer_size (length (p.encode_ndef message)) ≡ 16 * rows
      → rows ≤ 125
      → Reaches
          (λ e.
            memory e
            ≡ scatter rows 4
                (resize (encode_classic (p.encode_ndef message)) (16 * rows))
                (memory s.env))
          p.status_ok
          s
          (write_mifare_classic_tag message s)
  unfolding write_mifare_classic_tag
  write_mifare_classic_tag_lem message rows s size small =
      let encoded = resize (encode_classic (p.encode_ndef message)) (16 * rows) in
      rw size (
        write_blocks_lem (suc (16 * rows)) 0 (16 * rows) 4 rows encoded (memory s.env) s refl
          (start-IsAt s.env) (length-resize (encode_classic (p.encode_ndef message)) (16 * rows))
          (omega arith) (omega arith) (omega arith))

  -- For a card that keeps to its data sheet, whose block 4 announces a message and a start inside
  -- its buffer of whole blocks, at most 125 of them: a read returns OK, and the tag with what is
  -- decoded from all the bytes of the buffer from that start on, the trailers passed over. The
  -- blocks and the members of the driver are as before.
  pub read_mifare_classic_tag_lem :
      (t : p.NfcTag) (message_length start rows : ℕ) (s : State p)
      → p.decode_mifare_classic_tlv (memory s.env 4) ≡ some (message_length, start)
      → p.get_mifare_classic_buffer_size message_length ≡ 16 * rows
      → rows ≤ 125
      → start < length (gather rows 4 (memory s.env))
      → Reaches
          (λ e. memory e ≡ memory s.env)
          (
            p.status_ok,
            p.set_ndef_message (p.decode_ndef (drop start (gather rows 4 (memory s.env)))) t,
          )
          s
          (read_mifare_classic_tag t s)
  unfolding read_mifare_classic_tag read_announced finish_read
  read_mifare_classic_tag_lem t message_length start rows s tlv size small inside =
      let m = memory s.env in
      let auth = auth_lem card 4 m s refl in
      let first = read_block_lem card 4 m (record s { env = auth.board }) auth.holds in
      let all =
        read_blocks_lem (suc (16 * rows)) 0 (16 * rows) 4 rows [] m (record s { env = first.board })
          first.holds.0 (start-IsAt first.board) (omega arith) (omega arith) (omega arith) in
      let found : ltb start (length (gather rows 4 m)) ≡ true = ground arith in
      Reaches-bind _ auth (
        rw same_status (
          Reaches-bind _ first (
            rw same_status (
              rw tlv (
                rw size
                  (Reaches-bind _ all (rw same_status (rw found (Reaches-pure all.holds)))))))))
