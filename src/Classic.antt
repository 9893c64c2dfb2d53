-- ===== src/Classic.antt =====
-- Reading, writing and formatting MIFARE Classic tags: components/pn7160/pn7160_mifare_classic.cpp.
-- Here are the single blocks; the loops over a tag are in the child modules.
pub mod Format
pub mod Tag
pub mod Quiet
pub mod Encoding
pub mod Ends
pub mod Sectors
pub mod Blocks
pub mod Trailers
pub mod Card
use esphome_pn.Config.{ok_or_failed}
use esphome_pn.Transceive.{transceive, nfcc_tag_write_timeout, nfcc_default_timeout}
use esphome_pn.Driver.{M, ◌>>=◌, pure, range, element}
use esphome_pn.Platform.{Platform}
use esphome_pn.Prelude.{
  List, ℕ, ◌*◌, Option, if◌then◌else◌, replicate, ◌∷◌, Bool, [], set_back, ◌%◌, ◌==◌, ◌&&◌, leb,
  some, true, bit_or, ◌-◌, not, ◌||◌, ◌++◌, ◌/◌, ◌+◌, take, length, none,
}

abbrev pub xchg_data_oid : ℕ
xchg_data_oid = 0x10

abbrev pub mfc_authenticate_oid : ℕ
mfc_authenticate_oid = 0x40

abbrev pub mfc_authenticate_param_ks_a : ℕ
mfc_authenticate_param_ks_a = 0x00

abbrev pub mfc_authenticate_param_ks_b : ℕ
mfc_authenticate_param_ks_b = 0x80

abbrev pub mfc_authenticate_param_embed_key : ℕ
mfc_authenticate_param_embed_key = 0x10

abbrev pub blank_block : List ℕ
blank_block = replicate 16 0x00

abbrev pub trailer_buffer : List ℕ
trailer_buffer =
    0xFF ∷ 0xFF ∷ 0xFF ∷ 0xFF ∷ 0xFF ∷ 0xFF ∷ 0xFF ∷ 0x07 ∷ 0x80 ∷ 0x69 ∷ 0xFF ∷ 0xFF ∷ 0xFF ∷ 0xFF
    ∷ 0xFF ∷ 0xFF ∷ []

abbrev pub empty_ndef_message : List ℕ
empty_ndef_message =
    0x03 ∷ 0x03 ∷ 0xD0 ∷ 0x00 ∷ 0x00 ∷ 0xFE ∷ 0x00 ∷ 0x00 ∷ 0x00 ∷ 0x00 ∷ 0x00 ∷ 0x00 ∷ 0x00 ∷ 0x00
    ∷ 0x00 ∷ 0x00 ∷ []

abbrev pub block_1_data : List ℕ
block_1_data =
    0x14 ∷ 0x01 ∷ 0x03 ∷ 0xE1 ∷ 0x03 ∷ 0xE1 ∷ 0x03 ∷ 0xE1 ∷ 0x03 ∷ 0xE1 ∷ 0x03 ∷ 0xE1 ∷ 0x03 ∷ 0xE1
    ∷ 0x03 ∷ 0xE1 ∷ []

abbrev pub block_2_data : List ℕ
block_2_data =
    0x03 ∷ 0xE1 ∷ 0x03 ∷ 0xE1 ∷ 0x03 ∷ 0xE1 ∷ 0x03 ∷ 0xE1 ∷ 0x03 ∷ 0xE1 ∷ 0x03 ∷ 0xE1 ∷ 0x03 ∷ 0xE1
    ∷ 0x03 ∷ 0xE1 ∷ []

abbrev pub block_3_trailer : List ℕ
block_3_trailer =
    0xA0 ∷ 0xA1 ∷ 0xA2 ∷ 0xA3 ∷ 0xA4 ∷ 0xA5 ∷ 0x78 ∷ 0x77 ∷ 0x88 ∷ 0xC1 ∷ 0xFF ∷ 0xFF ∷ 0xFF ∷ 0xFF
    ∷ 0xFF ∷ 0xFF ∷ []

abbrev pub ndef_trailer : List ℕ
ndef_trailer =
    0xD3 ∷ 0xF7 ∷ 0xD3 ∷ 0xF7 ∷ 0xD3 ∷ 0xF7 ∷ 0x7F ∷ 0x07 ∷ 0x88 ∷ 0x40 ∷ 0xFF ∷ 0xFF ∷ 0xFF ∷ 0xFF
    ∷ 0xFF ∷ 0xFF ∷ []

module _ ⦃p : Platform⦄ where
  unfoldable pub sect_to_auth : ℕ → ℕ
  sect_to_auth block_num =
      let first_high_block =
        p.mifare_classic_blocks_per_sect_low * p.mifare_classic_16block_sect_start % 256 in
      if leb first_high_block block_num
      then ((block_num - first_high_block) / p.mifare_classic_blocks_per_sect_high
          + p.mifare_classic_16block_sect_start)
        % 256
      else block_num / p.mifare_classic_blocks_per_sect_low % 256

  -- `transceive_` of a data packet with a new `rx`
  abbrev pub data_command : List ℕ → ℕ → M p (ℕ × List ℕ)
  data_command payload timeout =
      transceive (p.data_message p.nci_pkt_mt_data payload) p.new_message timeout true

  -- the tests that every answer of a tag to a data packet has to pass
  abbrev pub is_data_answer : ℕ → List ℕ → Bool
  is_data_answer oid rx =
      p.message_type_is rx p.nci_pkt_mt_data && p.simple_status_response_is rx oid

  -- a block that is read is put in front of `block_data`
  unfoldable pub read_mifare_classic_block : ℕ → List ℕ → M p (ℕ × List ℕ)
  read_mifare_classic_block block_num block_data = do
    (status, rx) ←
        data_command (xchg_data_oid ∷ p.mifare_cmd_read ∷ block_num ∷ []) nfcc_default_timeout
    if not (status == p.status_ok)
          || not (is_data_answer xchg_data_oid rx)
          || not (p.message_length_is rx 18)
        then pure (p.status_failed, block_data)
        else do bytes ← range rx 4 (length rx - 1); pure (p.status_ok, bytes ++ block_data)

  -- the choice of the key, in the last byte of the request
  abbrev pub auth_param : ℕ → ℕ
  auth_param key_num =
      if key_num == p.mifare_cmd_auth_a
      then mfc_authenticate_param_ks_a
      else if key_num == p.mifare_cmd_auth_b
      then mfc_authenticate_param_ks_b
      else key_num

  -- the request; `key` is none for a null pointer
  unfoldable pub auth_request : ℕ → ℕ → Option (List ℕ) → List ℕ
  unfolding sect_to_auth
  auth_request block_num key_num none =
      set_back
        (p.data_message p.nci_pkt_mt_data
          (mfc_authenticate_oid ∷ sect_to_auth block_num ∷ key_num ∷ []))
        (auth_param key_num)
  auth_request block_num key_num (some key) =
      set_back
        (p.data_message p.nci_pkt_mt_data
          (mfc_authenticate_oid ∷ sect_to_auth block_num ∷ key_num ∷ []))
        (bit_or (auth_param key_num) mfc_authenticate_param_embed_key)
      ++ take 6 key

  unfoldable pub auth_mifare_classic_block : ℕ → ℕ → Option (List ℕ) → M p ℕ
  unfolding auth_request
  auth_mifare_classic_block block_num key_num key = do
    (status, rx) ←
        transceive (auth_request block_num key_num key) p.new_message nfcc_default_timeout true
    if not (status == p.status_ok) || not (is_data_answer mfc_authenticate_oid rx)
        then pure p.status_failed
        else do
          answer ← element rx 4
          pure (if not (answer == p.status_ok) then p.status_failed else p.status_ok)

  -- The command and, with `rx` kept, the data.
  unfoldable pub write_mifare_classic_block : ℕ → List ℕ → M p ℕ
  write_mifare_classic_block block_num write_data = do
    (status, rx) ←
        data_command (xchg_data_oid ∷ p.mifare_cmd_write ∷ block_num ∷ []) nfcc_default_timeout
    if not (status == p.status_ok) then pure p.status_failed else do
      (status', rx') ←
          transceive
            (p.set_payload
                (p.data_message p.nci_pkt_mt_data
                  (xchg_data_oid ∷ p.mifare_cmd_write ∷ block_num ∷ []))
                (xchg_data_oid ∷ [])
              ++ write_data)
            rx nfcc_tag_write_timeout true
      if not (status' == p.status_ok) || not (is_data_answer xchg_data_oid rx')
          then pure p.status_failed
          else do
            answer ← element rx' 4
            pure (if not (answer == p.mifare_cmd_ack) then p.status_failed else p.status_ok)

  unfoldable pub halt_mifare_classic_tag : M p ℕ
  halt_mifare_classic_tag =
      data_command (xchg_data_oid ∷ p.mifare_cmd_halt ∷ 0 ∷ []) nfcc_tag_write_timeout
      >>= ok_or_failed
