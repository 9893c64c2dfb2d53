-- ===== src/Classic/Format.antt =====
-- `format_mifare_classic_mifare_` and `format_mifare_classic_ndef_` of
-- components/pn7160/pn7160_mifare_classic.cpp.
use esphome_pn.Classic.{
  write_mifare_classic_block, auth_mifare_classic_block, blank_block, empty_ndef_message,
  block_1_data, block_2_data, trailer_buffer, ndef_trailer, block_3_trailer,
}
use esphome_pn.Prelude.{ℕ, List, Option, ◌+◌, suc, some, if◌then◌else◌, not, ◌==◌, none, zero}
use esphome_pn.Driver.{M, pure, ◌>>=◌}
use esphome_pn.Platform.{Platform}

module _ ⦃p : Platform⦄ where
  -- a write whose failure the loop remembers and goes on after
  unfoldable pub write_and_note : ℕ → List ℕ → ℕ → M p ℕ
  write_and_note block write_data status = do
    written ← write_mifare_classic_block block write_data
    pure (if not (written == p.status_ok) then p.status_failed else status)

  -- the writes of one sector: `first` is the data of its first block, none for block 0
  unfoldable pub format_sector : ℕ → Option (List ℕ) → List ℕ → ℕ → M p ℕ
  unfolding write_and_note
  format_sector block none trailer status = do
    status₁ ← write_and_note (block + 1) blank_block status
    status₂ ← write_and_note (block + 2) blank_block status₁
    write_and_note (block + 3) trailer status₂
  format_sector block (some first) trailer status = do
    status₀ ← write_and_note block first status
    status₁ ← write_and_note (block + 1) blank_block status₀
    status₂ ← write_and_note (block + 2) blank_block status₁
    write_and_note (block + 3) trailer status₂

  -- `for (int block = ...; block < 64; block += 4)`, with the rounds left; a sector whose
  -- authentication fails is passed over
  unfoldable pub mifare_loop : ℕ → ℕ → ℕ → M p ℕ
  unfolding format_sector
  mifare_loop zero block status = pure status
  mifare_loop (suc n) block status = do
    auth ← auth_mifare_classic_block (block + 3) p.mifare_cmd_auth_b (some p.default_key)
    if not (auth == p.status_ok) then mifare_loop n (block + 4) status else do
      status' ←
          format_sector block (if block == 0 then none else some blank_block) trailer_buffer status
      mifare_loop n (block + 4) status'

  unfoldable pub format_mifare_classic_mifare : M p ℕ
  format_mifare_classic_mifare = mifare_loop 16 0 p.status_ok

  -- here a failed authentication ends the call
  unfoldable pub ndef_loop : ℕ → ℕ → ℕ → M p ℕ
  unfolding format_sector
  ndef_loop zero block status = pure status
  ndef_loop (suc n) block status = do
    auth ← auth_mifare_classic_block (block + 3) p.mifare_cmd_auth_b (some p.default_key)
    if not (auth == p.status_ok) then pure p.status_failed else do
      status' ←
          format_sector block (some (if block == 4 then empty_ndef_message else blank_block))
            ndef_trailer status
      ndef_loop n (block + 4) status'

  unfoldable pub format_mifare_classic_ndef : M p ℕ
  format_mifare_classic_ndef = do
    auth ← auth_mifare_classic_block 0 p.mifare_cmd_auth_b (some p.default_key)
    if not (auth == p.status_ok) then pure p.status_failed else do
      first ← write_mifare_classic_block 1 block_1_data
      if not (first == p.status_ok) then pure p.status_failed else do
        second ← write_mifare_classic_block 2 block_2_data
        if not (second == p.status_ok) then pure p.status_failed else do
          third ← write_mifare_classic_block 3 block_3_trailer
          if not (third == p.status_ok) then pure p.status_failed else ndef_loop 15 4 p.status_ok
