-- ===== src/Classic/Blocks.antt =====
-- The blocks of a MIFARE Classic tag that are written, and what with.
use esphome_pn.Driver.Quiet.{Keeps}
use esphome_pn.Driver.{State}
use esphome_pn.Transceive.Sends.{transceive-Sends}
use esphome_pn.Classic.Tag.{
  write_blocks, auth_if_first, next_block, write_mifare_classic_tag, encode_classic,
}
use esphome_pn.Classic.{
  xchg_data_oid, auth_mifare_classic_block, write_mifare_classic_block, auth_request,
}
use esphome_pn.Prelude.{
  List, ℕ, ◌≡◌, Option, false, ◌%◌, ◌∷◌, true, ◌+◌, [], Bool-cases, ◌++◌, suc, inl, zero, inr,
  length, resize,
}
use esphome_pn.Platform.{Platform}
use esphome_pn.Driver.Sends.{IsLog, Sends, sends_rules, Sends-hang, Sent}

module _ ⦃p : Platform⦄ where
  abbrev write_request : ℕ → List ℕ
  write_request block =
      p.data_message p.nci_pkt_mt_data (xchg_data_oid ∷ p.mifare_cmd_write ∷ block ∷ [])

  -- The messages that authenticate, and that write a block with data for which `Q` holds: the first
  -- names the block, the second has the data.
  pub data IsTraffic (Q : ℕ → List ℕ → Type 0) : List ℕ → Type 0 where
    authenticates :
        (block key_num : ℕ) (key : Option (List ℕ)) → IsTraffic Q (auth_request block key_num key)
    names :
        (block : ℕ) (block_data : List ℕ) → Q block block_data → IsTraffic Q (write_request block)
    fills :
        (block : ℕ) (block_data : List ℕ)
        → Q block block_data
        → IsTraffic Q (p.set_payload (write_request block) (xchg_data_oid ∷ []) ++ block_data)

  -- not the trailer of a sector, where the keys are
  abbrev pub OffTrailer : ℕ → List ℕ → Type 0
  OffTrailer block block_data = p.mifare_classic_is_trailer_block block ≡ false

module _ ⦃p : Platform⦄ {log : p.Env → List (List ℕ)} (logs : IsLog log) where
  module _ {Q : ℕ → List ℕ → Type 0} where
    pub auth_block-Sends :
        (block key_num : ℕ) (key : Option (List ℕ))
        → Sends log (IsTraffic Q) (auth_mifare_classic_block block key_num key)
    unfolding auth_mifare_classic_block
    auth_block-Sends block key_num key =
        search (sends_rules, transceive-Sends logs, authenticates) depth 12

    pub write_block-Sends :
        (block : ℕ) (block_data : List ℕ)
        → Q block block_data
        → Sends log (IsTraffic Q) (write_mifare_classic_block block block_data)
    unfolding write_mifare_classic_block
    write_block-Sends block block_data q =
        let named : IsTraffic Q (write_request block) = names block block_data q in
        let filled : IsTraffic Q
            (p.set_payload (write_request block) (xchg_data_oid ∷ []) ++ block_data) =
          fills block block_data q in
        search (sends_rules, transceive-Sends logs) depth 14

    auth_if_first-Sends : (block : ℕ) → Sends log (IsTraffic Q) (auth_if_first block)
    unfolding auth_if_first
    auth_if_first-Sends block = search (sends_rules, auth_block-Sends) depth 12

  next_block-OffTrailer :
      (block : ℕ)
      → ((b : ℕ)
          → p.mifare_classic_is_trailer_block b ≡ true
          → p.mifare_classic_is_trailer_block ((b + 1) % 256) ≡ false)
      → p.mifare_classic_is_trailer_block (next_block block) ≡ false
  unfolding next_block
  next_block-OffTrailer block apart =
      elim (Bool-cases (p.mifare_classic_is_trailer_block ((block + 1) % 256))) [
        | inl trailer ↦ rw trailer (apart _ trailer)
        | inr other ↦ rw other other
      ]

  write_blocks-Sends :
      (fuel index buffer_length block : ℕ) (encoded : List ℕ)
      → ((b : ℕ)
          → p.mifare_classic_is_trailer_block b ≡ true
          → p.mifare_classic_is_trailer_block ((b + 1) % 256) ≡ false)
      → p.mifare_classic_is_trailer_block block ≡ false
      → Sends log (IsTraffic OffTrailer) (write_blocks fuel index buffer_length block encoded)
  unfolding write_blocks
  write_blocks-Sends zero index buffer_length block encoded apart off = Sends-hang
  write_blocks-Sends (suc fuel) index buffer_length block encoded apart off =
      let next : Sends log (IsTraffic OffTrailer) (
          write_blocks fuel (index + p.mifare_classic_block_size) buffer_length (next_block block)
            encoded) =
        write_blocks-Sends fuel (index + p.mifare_classic_block_size) buffer_length
          (next_block block) encoded apart (next_block-OffTrailer block apart) in
      search (sends_rules, auth_if_first-Sends, write_block-Sends) depth 14

  -- Where block 4 is no trailer and no trailer comes right behind a trailer, both taken modulo 256:
  -- whatever the tag answers, all that `write_mifare_classic_tag_` writes on the bus for any message
  -- are authentications, and the two parts of writes of blocks that are no trailers.
  pub write_avoids_trailers :
      (message : p.NdefMessage) (s : State p)
      → ((b : ℕ)
          → p.mifare_classic_is_trailer_block b ≡ true
          → p.mifare_classic_is_trailer_block ((b + 1) % 256) ≡ false)
      → p.mifare_classic_is_trailer_block 4 ≡ false
      → Keeps
          (λ s'. Sent log (IsTraffic OffTrailer) s.env s'.env)
          (write_mifare_classic_tag message s)
  unfolding write_mifare_classic_tag
  write_avoids_trailers message s apart off =
      let n = p.get_mifare_classic_buffer_size (length (p.encode_ndef message)) in
      (write_blocks-Sends (suc n) 0 n 4 (resize (encode_classic (p.encode_ndef message)) n) apart
          off).at
        s
