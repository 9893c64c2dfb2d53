-- ===== src/Tests/Traffic.antt =====
-- What a MIFARE Ultralight tag and a MIFARE Classic card are sent by runs that return.
use esphome_pn.Transceive.{transceive, read_retry, conclude, check_data, is_credits}
use esphome_pn.Ultralight.Pages.{IsHarmless, writes_data_pages}
use esphome_pn.Classic.Blocks.{IsTraffic, OffTrailer, write_avoids_trailers}
use esphome_pn.Classic.{
  auth_mifare_classic_block, auth_request, sect_to_auth, write_mifare_classic_block,
}
use esphome_pn.Tests.Memory.{field_sim, holding, blank, ten_bytes, field_sim-IsLog}
use esphome_pn.Tests.Cards.{card_sim, put_down, four_blocks, card_sim-IsLog}
use esphome_pn.Driver.{Outcome, ok, fault, hang}
use esphome_pn.Driver.Sends.{Sent}
use esphome_pn.Prelude.{
  ℕ, List, ◌%◌, ◌∷◌, ◌==◌, take, [], drop, ◌≡◌, true, ◌+◌, false, arith, refl, length,
}
use esphome_pn.Driver.Quiet.{Keeps}
use esphome_pn.Classic.Tag.{
  write_mifare_classic_tag, write_blocks, auth_if_first, next_block, encode_classic,
}
use esphome_pn.Platform.{Platform}
use esphome_pn.Ultralight.{
  write_mifare_ultralight_tag, clean_mifare_ultralight, clean_pages,
  read_mifare_ultralight_capacity, read_mifare_ultralight_bytes, read_rounds, read_until_full,
  keep_pages, write_mifare_ultralight_page, write_pages, encode_ultralight,
}

-- what a run that returns has written on the bus
abbrev written_by :
    {p : Platform} {A : Type 0} → (p.Env → List (List ℕ)) → Outcome p A → List (List ℕ)
written_by log (ok a s) = log s.env
written_by log fault = []
written_by log hang = []

pages_written :
    written_by (λ e. e.log) (write_mifare_ultralight_tag ⦃p = field_sim⦄ ten_bytes (holding blank))
    ≡ (0 ∷ 0 ∷ 2 ∷ 0x30 ∷ 3 ∷ [])
      ∷ (0 ∷ 0 ∷ 6 ∷ 0xA2 ∷ 4 ∷ 3 ∷ 10 ∷ 0xD1 ∷ 1 ∷ [])
      ∷ (0 ∷ 0 ∷ 6 ∷ 0xA2 ∷ 5 ∷ 6 ∷ 0x55 ∷ 4 ∷ 1 ∷ [])
      ∷ (0 ∷ 0 ∷ 6 ∷ 0xA2 ∷ 6 ∷ 2 ∷ 3 ∷ 4 ∷ 5 ∷ [])
      ∷ (0 ∷ 0 ∷ 6 ∷ 0xA2 ∷ 7 ∷ 0xFE ∷ 0 ∷ 0 ∷ 0 ∷ [])
      ∷ []
unfolding write_mifare_ultralight_tag read_mifare_ultralight_capacity read_mifare_ultralight_bytes
    read_rounds read_until_full keep_pages transceive read_retry conclude check_data is_credits
    write_mifare_ultralight_page write_pages encode_ultralight
pages_written = refl

-- the read of the capacity, and the pages 4 to 39
pages_cleaned :
    length (written_by (λ e. e.log) (clean_mifare_ultralight ⦃p = field_sim⦄ (holding blank))) ≡ 37
unfolding clean_mifare_ultralight clean_pages read_mifare_ultralight_capacity
    read_mifare_ultralight_bytes read_rounds read_until_full keep_pages transceive read_retry
    conclude check_data is_credits write_mifare_ultralight_page
pages_cleaned = refl

writes_data_pages_example :
    Keeps
      (λ s'.
        Sent ⦃p = field_sim⦄ (λ e. e.log) (IsHarmless ⦃p = field_sim⦄) (holding blank).env s'.env)
      (write_mifare_ultralight_tag ⦃p = field_sim⦄ ten_bytes (holding blank))
    × Keeps
        (λ s'.
          Sent ⦃p = field_sim⦄ (λ e. e.log) (IsHarmless ⦃p = field_sim⦄) (holding blank).env s'.env)
        (clean_mifare_ultralight ⦃p = field_sim⦄ (holding blank))
writes_data_pages_example =
    writes_data_pages ⦃p = field_sim⦄ field_sim-IsLog ten_bytes (holding blank) refl refl
      (omega arith)

-- how the payloads begin
abbrev requests : List (List ℕ) → List (List ℕ)
requests [] = []
requests (tx ∷ txs) = take 3 (drop 3 tx) ∷ requests txs

-- the sectors of blocks 4 and 8 are opened, and the blocks 4, 5, 6 and 8 are written
blocks_written :
    requests
      (written_by (λ e. e.log) (write_mifare_classic_tag ⦃p = card_sim⦄ four_blocks put_down))
    ≡ (0x40 ∷ 1 ∷ 0x10 ∷ [])
      ∷ (0x10 ∷ 0xA0 ∷ 4 ∷ [])
      ∷ (0x10 ∷ 3 ∷ 60 ∷ [])
      ∷ (0x10 ∷ 0xA0 ∷ 5 ∷ [])
      ∷ (0x10 ∷ 5 ∷ 5 ∷ [])
      ∷ (0x10 ∷ 0xA0 ∷ 6 ∷ [])
      ∷ (0x10 ∷ 5 ∷ 5 ∷ [])
      ∷ (0x40 ∷ 2 ∷ 0x10 ∷ [])
      ∷ (0x10 ∷ 0xA0 ∷ 8 ∷ [])
      ∷ (0x10 ∷ 5 ∷ 5 ∷ [])
      ∷ []
unfolding write_mifare_classic_tag write_blocks auth_if_first auth_mifare_classic_block auth_request
    sect_to_auth write_mifare_classic_block next_block transceive read_retry conclude check_data
    is_credits encode_classic
blocks_written = refl

no_neighbours : (b : ℕ) → (b % 4 == 3) ≡ true → (((b + 1) % 256) % 4 == 3) ≡ false
no_neighbours b h = ground arith

write_avoids_trailers_example :
    Keeps
      (λ s'.
        Sent ⦃p = card_sim⦄
          (λ e. e.log)
          (IsTraffic ⦃p = card_sim⦄ (OffTrailer ⦃p = card_sim⦄))
          put_down.env
          s'.env)
      (write_mifare_classic_tag ⦃p = card_sim⦄ four_blocks put_down)
write_avoids_trailers_example =
    write_avoids_trailers ⦃p = card_sim⦄ card_sim-IsLog four_blocks put_down no_neighbours refl
