-- ===== src/Classic/Quiet.antt =====
-- Whatever is done with a MIFARE Classic tag changes no member of the driver.
use esphome_pn.Config.Quiet.{transceive-IsQuiet}
use esphome_pn.Driver.Quiet.{IsQuiet, quiet_rules, IsQuiet-hang}
use esphome_pn.Prelude.{ℕ, Option, List, some, suc, none, zero}
use esphome_pn.Classic.Tag.{
  read_blocks, auth_if_first, write_mifare_classic_tag, write_blocks, read_announced, finish_read,
  read_mifare_classic_tag,
}
use esphome_pn.Classic.{
  auth_mifare_classic_block, write_mifare_classic_block, halt_mifare_classic_tag,
  read_mifare_classic_block,
}
use esphome_pn.Classic.Format.{
  mifare_loop, write_and_note, format_mifare_classic_ndef, format_mifare_classic_mifare,
  format_sector, ndef_loop,
}
use esphome_pn.Platform.{Platform}

module _ ⦃p : Platform⦄ where
  read_block-IsQuiet :
      (block : ℕ) (block_data : List ℕ) → IsQuiet (read_mifare_classic_block block block_data)
  unfolding read_mifare_classic_block
  read_block-IsQuiet block block_data = search (quiet_rules, transceive-IsQuiet) depth 12

  auth_block-IsQuiet :
      (block key_num : ℕ) (key : Option (List ℕ))
      → IsQuiet (auth_mifare_classic_block block key_num key)
  unfolding auth_mifare_classic_block
  auth_block-IsQuiet block key_num key = search (quiet_rules, transceive-IsQuiet) depth 12

  write_block-IsQuiet :
      (block : ℕ) (write_data : List ℕ) → IsQuiet (write_mifare_classic_block block write_data)
  unfolding write_mifare_classic_block
  write_block-IsQuiet block write_data = search (quiet_rules, transceive-IsQuiet) depth 12

  pub halt_mifare_classic_tag-IsQuiet : IsQuiet halt_mifare_classic_tag
  unfolding halt_mifare_classic_tag
  halt_mifare_classic_tag-IsQuiet = search (quiet_rules, transceive-IsQuiet) depth 12

  write_and_note-IsQuiet :
      (block : ℕ) (write_data : List ℕ) (status : ℕ)
      → IsQuiet (write_and_note block write_data status)
  unfolding write_and_note
  write_and_note-IsQuiet block write_data status =
      search (quiet_rules, write_block-IsQuiet) depth 12

  format_sector-IsQuiet :
      (block : ℕ) (first : Option (List ℕ)) (trailer : List ℕ) (status : ℕ)
      → IsQuiet (format_sector block first trailer status)
  unfolding format_sector
  format_sector-IsQuiet block none trailer status =
      search (quiet_rules, write_and_note-IsQuiet) depth 12
  format_sector-IsQuiet block (some first) trailer status =
      search (quiet_rules, write_and_note-IsQuiet) depth 12

  mifare_loop-IsQuiet : (n block status : ℕ) → IsQuiet (mifare_loop n block status)
  unfolding mifare_loop
  mifare_loop-IsQuiet zero block status = search quiet_rules
  mifare_loop-IsQuiet (suc n) block status =
      search (quiet_rules, auth_block-IsQuiet, format_sector-IsQuiet, mifare_loop-IsQuiet n) depth
        12

  pub format_mifare_classic_mifare-IsQuiet : IsQuiet format_mifare_classic_mifare
  unfolding format_mifare_classic_mifare
  format_mifare_classic_mifare-IsQuiet = mifare_loop-IsQuiet 16 0 p.status_ok

  ndef_loop-IsQuiet : (n block status : ℕ) → IsQuiet (ndef_loop n block status)
  unfolding ndef_loop
  ndef_loop-IsQuiet zero block status = search quiet_rules
  ndef_loop-IsQuiet (suc n) block status =
      search (quiet_rules, auth_block-IsQuiet, format_sector-IsQuiet, ndef_loop-IsQuiet n) depth 12

  pub format_mifare_classic_ndef-IsQuiet : IsQuiet format_mifare_classic_ndef
  unfolding format_mifare_classic_ndef
  format_mifare_classic_ndef-IsQuiet =
      search (quiet_rules, auth_block-IsQuiet, write_block-IsQuiet, ndef_loop-IsQuiet) depth 12

  auth_if_first-IsQuiet : (block : ℕ) → IsQuiet (auth_if_first block)
  unfolding auth_if_first
  auth_if_first-IsQuiet block = search (quiet_rules, auth_block-IsQuiet) depth 12

  read_blocks-IsQuiet :
      (fuel index buffer_size block : ℕ) (buffer : List ℕ)
      → IsQuiet (read_blocks fuel index buffer_size block buffer)
  unfolding read_blocks
  read_blocks-IsQuiet zero index buffer_size block buffer = IsQuiet-hang
  read_blocks-IsQuiet (suc fuel) index buffer_size block buffer =
      search (quiet_rules, auth_if_first-IsQuiet, read_block-IsQuiet, read_blocks-IsQuiet fuel)
        depth 12

  finish_read-IsQuiet :
      (tag : p.NfcTag) (start : ℕ) (answer : ℕ × List ℕ) → IsQuiet (finish_read tag start answer)
  unfolding finish_read
  finish_read-IsQuiet tag start answer = search quiet_rules depth 12

  read_announced-IsQuiet :
      (tag : p.NfcTag) (found : Option (ℕ × ℕ)) → IsQuiet (read_announced tag found)
  unfolding read_announced
  read_announced-IsQuiet tag none = search quiet_rules
  read_announced-IsQuiet tag (some (n, start)) =
      search (quiet_rules, read_blocks-IsQuiet, finish_read-IsQuiet) depth 12

  pub read_mifare_classic_tag-IsQuiet : (tag : p.NfcTag) → IsQuiet (read_mifare_classic_tag tag)
  unfolding read_mifare_classic_tag
  read_mifare_classic_tag-IsQuiet tag =
      search (quiet_rules, auth_block-IsQuiet, read_block-IsQuiet, read_announced-IsQuiet) depth 12

  write_blocks-IsQuiet :
      (fuel index buffer_length block : ℕ) (encoded : List ℕ)
      → IsQuiet (write_blocks fuel index buffer_length block encoded)
  unfolding write_blocks
  write_blocks-IsQuiet zero index buffer_length block encoded = IsQuiet-hang
  write_blocks-IsQuiet (suc fuel) index buffer_length block encoded =
      search (quiet_rules, auth_if_first-IsQuiet, write_block-IsQuiet, write_blocks-IsQuiet fuel)
        depth 12

  pub write_mifare_classic_tag-IsQuiet :
      (message : p.NdefMessage) → IsQuiet (write_mifare_classic_tag message)
  unfolding write_mifare_classic_tag
  write_mifare_classic_tag-IsQuiet message = search write_blocks-IsQuiet
