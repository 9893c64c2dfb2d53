-- ===== src/Classic/Ends.antt =====
-- The loops over a MIFARE Classic tag have rounds enough.
use esphome_pn.Transceive.Ends.{transceive-Ends}
use esphome_pn.Driver.Ends.{Ends, Ended, Ends-pure, ends_rules, Ends-bind}
use esphome_pn.Driver.{State}
use esphome_pn.Prelude.{
  List, Option, ℕ, ◌≤◌, ◌<◌, ◌+◌, some, length, suc, arith, Bool-cases, resize, [], none, ltb, inl,
  inr, zero,
}
use esphome_pn.Classic.{
  write_mifare_classic_block, read_mifare_classic_block, auth_mifare_classic_block,
}
use esphome_pn.Classic.Tag.{
  read_mifare_classic_tag, write_blocks, read_blocks, auth_if_first, write_mifare_classic_tag,
  read_announced, finish_read, encode_classic,
}
use esphome_pn.Platform.{Platform}

module _ ⦃p : Platform⦄ where
  read_block-Ends :
      (block : ℕ) (block_data : List ℕ) → Ends (read_mifare_classic_block block block_data)
  unfolding read_mifare_classic_block
  read_block-Ends block block_data = search (ends_rules, transceive-Ends) depth 12

  auth_block-Ends :
      (block key_num : ℕ) (key : Option (List ℕ))
      → Ends (auth_mifare_classic_block block key_num key)
  unfolding auth_mifare_classic_block
  auth_block-Ends block key_num key = search (ends_rules, transceive-Ends) depth 12

  write_block-Ends :
      (block : ℕ) (write_data : List ℕ) → Ends (write_mifare_classic_block block write_data)
  unfolding write_mifare_classic_block
  write_block-Ends block write_data = search (ends_rules, transceive-Ends) depth 12

  auth_if_first-Ends : (block : ℕ) → Ends (auth_if_first block)
  unfolding auth_if_first
  auth_if_first-Ends block = search (ends_rules, auth_block-Ends) depth 12

  read_blocks-Ends :
      (fuel index size block : ℕ) (buffer : List ℕ)
      → 1 ≤ p.mifare_classic_block_size
      → 1 ≤ fuel
      → size < index + fuel
      → Ends (read_blocks fuel index size block buffer)
  unfolding read_blocks
  read_blocks-Ends zero index size block buffer step some_fuel enough = absurd (omega arith)
  read_blocks-Ends (suc fuel) index size block buffer step some_fuel enough =
      elim (Bool-cases (ltb index size)) [
        | inl more ↦
            let rest : (b : ℕ) (xs : List ℕ)
                → Ends (read_blocks fuel (index + p.mifare_classic_block_size) size b xs) =
              λ b xs.
                read_blocks-Ends fuel (index + p.mifare_classic_block_size) size b xs step
                  (ground arith) (omega arith) in
            rw more (search (ends_rules, auth_if_first-Ends, read_block-Ends, rest) depth 14)
        | inr done ↦ rw done (Ends-pure (p.status_ok, buffer))
      ]

  write_blocks-Ends :
      (fuel index size block : ℕ) (encoded : List ℕ)
      → 1 ≤ p.mifare_classic_block_size
      → 1 ≤ fuel
      → size < index + fuel
      → Ends (write_blocks fuel index size block encoded)
  unfolding write_blocks
  write_blocks-Ends zero index size block encoded step some_fuel enough = absurd (omega arith)
  write_blocks-Ends (suc fuel) index size block encoded step some_fuel enough =
      elim (Bool-cases (ltb index size)) [
        | inl more ↦
            let rest : (b : ℕ)
                → Ends (write_blocks fuel (index + p.mifare_classic_block_size) size b encoded) =
              λ b.
                write_blocks-Ends fuel (index + p.mifare_classic_block_size) size b encoded step
                  (ground arith) (omega arith) in
            rw more (search (ends_rules, auth_if_first-Ends, write_block-Ends, rest) depth 14)
        | inr done ↦ rw done (Ends-pure p.status_ok)
      ]

  finish_read-Ends : (tag : p.NfcTag) (start : ℕ) (r : ℕ × List ℕ) → Ends (finish_read tag start r)
  unfolding finish_read
  finish_read-Ends tag start (status, buffer) = search ends_rules depth 10

  read_announced-Ends :
      (tag : p.NfcTag) (found : Option (ℕ × ℕ))
      → 1 ≤ p.mifare_classic_block_size
      → Ends (read_announced tag found)
  unfolding read_announced
  read_announced-Ends tag none step = Ends-pure (p.status_failed, tag)
  read_announced-Ends tag (some (message_length, start)) step =
      let size = p.get_mifare_classic_buffer_size message_length in
      Ends-bind (read_blocks (suc size) 0 size 4 []) (finish_read tag start)
        (read_blocks-Ends (suc size) 0 size 4 [] step (omega arith) (omega arith))
        (finish_read-Ends tag start)

  read_tag-Ends :
      (tag : p.NfcTag) → 1 ≤ p.mifare_classic_block_size → Ends (read_mifare_classic_tag tag)
  unfolding read_mifare_classic_tag
  read_tag-Ends tag step =
      let announced : (found : Option (ℕ × ℕ)) → Ends (read_announced tag found) =
        λ found. read_announced-Ends tag found step in
      search (ends_rules, auth_block-Ends, read_block-Ends, announced) depth 14

  write_tag-Ends :
      (message : p.NdefMessage)
      → 1 ≤ p.mifare_classic_block_size
      → Ends (write_mifare_classic_tag message)
  unfolding write_mifare_classic_tag
  write_tag-Ends message step =
      let encoded = p.encode_ndef message in
      let size = p.get_mifare_classic_buffer_size (length encoded) in
      write_blocks-Ends (suc size) 0 size 4 (resize (encode_classic encoded) size) step
        (omega arith) (omega arith)

  -- With a block size of at least one, the loops over the blocks of a MIFARE Classic tag end before
  -- they use up their rounds, whatever the tag answers: `read_mifare_classic_tag_` and
  -- `write_mifare_classic_tag_` return, or read outside a vector.
  pub transfers-Ended :
      (tag : p.NfcTag) (message : p.NdefMessage) (s : State p)
      → 1 ≤ p.mifare_classic_block_size
      → Ended (read_mifare_classic_tag tag s) × Ended (write_mifare_classic_tag message s)
  transfers-Ended tag message s step =
      ((read_tag-Ends tag step).at s, (write_tag-Ends message step).at s)
