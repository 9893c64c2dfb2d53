-- ===== src/Classic/Tag.antt =====
-- `read_mifare_classic_tag_` and `write_mifare_classic_tag_` of
-- components/pn7160/pn7160_mifare_classic.cpp. The loops `while (index < buffer_size)` run on fuel,
-- and are given a round more than there are bytes.
-- The message wrapped as the tag stores it: `insert` at the front, then `push_back`.
use esphome_pn.Classic.{
  auth_mifare_classic_block, read_mifare_classic_block, write_mifare_classic_block,
}
use esphome_pn.Driver.{M, pure, hang, ◌>>=◌, range}
use esphome_pn.Prelude.{
  List, ℕ, Option, ◌+◌, if◌then◌else◌, length, ◌%◌, suc, insert_at, some, not, ltb, resize, [],
  ◌==◌, ◌/◌, none, ◌||◌, ◌++◌, drop, ◌∷◌, zero,
}
use esphome_pn.Platform.{Platform}

unfoldable pub encode_classic : List ℕ → List ℕ
encode_classic message =
    let n = length message in
    let typed = insert_at message 0 0x03 in
    (if ltb n 255
      then insert_at typed 1 (n % 256)
      else insert_at (insert_at (insert_at typed 1 0xFF) 2 (n / 256 % 256)) 3 (n % 256))
    ++ 0xFE ∷ []

module _ ⦃p : Platform⦄ where
  -- the block after `block`, trailers left out; `current_block` is a `uint8_t`
  unfoldable pub next_block : ℕ → ℕ
  next_block block =
      let next = (block + 1) % 256 in
      if p.mifare_classic_is_trailer_block next then (next + 1) % 256 else next

  -- the authentication that the first block of a sector wants
  unfoldable pub auth_if_first : ℕ → M p ℕ
  auth_if_first block =
      if p.mifare_classic_is_first_block block
      then auth_mifare_classic_block block p.mifare_cmd_auth_a (some p.ndef_key)
      else pure p.status_ok

  unfoldable pub read_blocks : ℕ → ℕ → ℕ → ℕ → List ℕ → M p (ℕ × List ℕ)
  unfolding next_block auth_if_first
  read_blocks zero index buffer_size block buffer = λ s. hang
  read_blocks (suc fuel) index buffer_size block buffer =
      if not (ltb index buffer_size) then pure (p.status_ok, buffer) else do
        auth ← auth_if_first block
        if not (auth == p.status_ok) then pure (p.status_failed, buffer) else do
          (status, block_data) ← read_mifare_classic_block block []
          if not (status == p.status_ok)
              then pure (p.status_failed, buffer)
              else read_blocks fuel (index + p.mifare_classic_block_size) buffer_size
                  (next_block block) (buffer ++ block_data)

  -- The end of the reading: the bytes from `start` on are the message.
  unfoldable pub finish_read : p.NfcTag → ℕ → ℕ × List ℕ → M p (ℕ × p.NfcTag)
  finish_read tag start (status, buffer) =
      if not (status == p.status_ok) || not (ltb start (length buffer))
      then pure (p.status_failed, tag)
      else pure (p.status_ok, p.set_ndef_message (p.decode_ndef (drop start buffer)) tag)

  -- what the first block tells, and the blocks that it announces
  unfoldable pub read_announced : p.NfcTag → Option (ℕ × ℕ) → M p (ℕ × p.NfcTag)
  unfolding read_blocks finish_read
  read_announced tag none = pure (p.status_failed, tag)
  read_announced tag (some (message_length, start)) =
      let buffer_size = p.get_mifare_classic_buffer_size message_length in
      read_blocks (suc buffer_size) 0 buffer_size 4 [] >>= finish_read tag start

  unfoldable pub read_mifare_classic_tag : p.NfcTag → M p (ℕ × p.NfcTag)
  unfolding read_announced
  read_mifare_classic_tag tag = do
    auth ← auth_mifare_classic_block 4 p.mifare_cmd_auth_a (some p.ndef_key)
    if not (auth == p.status_ok) then pure (p.status_failed, tag) else do
      (status, block_data) ← read_mifare_classic_block 4 []
      if not (status == p.status_ok)
          then pure (p.status_failed, tag)
          else read_announced tag (p.decode_mifare_classic_tlv block_data)

  unfoldable pub write_blocks : ℕ → ℕ → ℕ → ℕ → List ℕ → M p ℕ
  unfolding next_block auth_if_first
  write_blocks zero index buffer_length block encoded = λ s. hang
  write_blocks (suc fuel) index buffer_length block encoded =
      if not (ltb index buffer_length) then pure p.status_ok else do
        auth ← auth_if_first block
        if not (auth == p.status_ok) then pure p.status_failed else do
          block_data ← range encoded index (index + p.mifare_classic_block_size)
          status ← write_mifare_classic_block block block_data
          if not (status == p.status_ok)
              then pure p.status_failed
              else write_blocks fuel (index + p.mifare_classic_block_size) buffer_length
                  (next_block block) encoded

  unfoldable pub write_mifare_classic_tag : p.NdefMessage → M p ℕ
  unfolding write_blocks encode_classic
  write_mifare_classic_tag message =
      let encoded = p.encode_ndef message in
      let buffer_length = p.get_mifare_classic_buffer_size (length encoded) in
      write_blocks (suc buffer_length) 0 buffer_length 4
        (resize (encode_classic encoded) buffer_length)
