-- ===== src/Ultralight/Quiet.antt =====
-- Whatever is done with a MIFARE Ultralight tag changes no member of the driver.
use esphome_pn.Config.Quiet.{transceive-IsQuiet}
use esphome_pn.Driver.Quiet.{IsQuiet, quiet_rules, IsQuiet-hang}
use esphome_pn.Prelude.{ℕ, List, Option, some, suc, zero, none}
use esphome_pn.Ultralight.{
  read_mifare_ultralight_tag, read_message, write_mifare_ultralight_tag,
  read_mifare_ultralight_capacity, read_until_full, is_mifare_ultralight_formatted,
  find_mifare_ultralight_ndef, clean_pages, clean_mifare_ultralight, write_pages, read_rounds,
  write_mifare_ultralight_page, read_mifare_ultralight_bytes, keep_pages,
}
use esphome_pn.Platform.{Platform}

module _ ⦃p : Platform⦄ where
  read_until_full-IsQuiet : (fuel : ℕ) (tx rx : List ℕ) → IsQuiet (read_until_full fuel tx rx)
  unfolding read_until_full
  read_until_full-IsQuiet zero tx rx = IsQuiet-hang
  read_until_full-IsQuiet (suc fuel) tx rx =
      search (quiet_rules, transceive-IsQuiet, read_until_full-IsQuiet fuel) depth 12

  keep_pages-IsQuiet :
      (i num_bytes : ℕ) (rx pages : List ℕ) → IsQuiet (keep_pages i num_bytes rx pages)
  unfolding keep_pages
  keep_pages-IsQuiet i num_bytes rx pages = search quiet_rules depth 12

  read_rounds-IsQuiet :
      (fuel i start_page num_bytes : ℕ) (rx pages : List ℕ)
      → IsQuiet (read_rounds fuel i start_page num_bytes rx pages)
  unfolding read_rounds
  read_rounds-IsQuiet zero i start_page num_bytes rx pages = IsQuiet-hang
  read_rounds-IsQuiet (suc fuel) i start_page num_bytes rx pages =
      search (quiet_rules, read_until_full-IsQuiet, keep_pages-IsQuiet, read_rounds-IsQuiet fuel)
        depth 12

  read_bytes-IsQuiet :
      (start_page num_bytes : ℕ) (pages : List ℕ)
      → IsQuiet (read_mifare_ultralight_bytes start_page num_bytes pages)
  unfolding read_mifare_ultralight_bytes
  read_bytes-IsQuiet start_page num_bytes pages = search read_rounds-IsQuiet

  is_formatted-IsQuiet : (pages : List ℕ) → IsQuiet (is_mifare_ultralight_formatted pages)
  unfolding is_mifare_ultralight_formatted
  is_formatted-IsQuiet pages = search quiet_rules depth 12

  find_ndef-IsQuiet : (pages : List ℕ) → IsQuiet (find_mifare_ultralight_ndef pages)
  unfolding find_mifare_ultralight_ndef
  find_ndef-IsQuiet pages = search quiet_rules depth 12

  read_message-IsQuiet :
      (tag : p.NfcTag) (pages : List ℕ) (found : Option (ℕ × ℕ))
      → IsQuiet (read_message tag pages found)
  unfolding read_message
  read_message-IsQuiet tag pages none = search quiet_rules
  read_message-IsQuiet tag pages (some (n, start)) =
      search (quiet_rules, read_bytes-IsQuiet) depth 12

  pub read_mifare_ultralight_tag-IsQuiet :
      (tag : p.NfcTag) → IsQuiet (read_mifare_ultralight_tag tag)
  unfolding read_mifare_ultralight_tag
  read_mifare_ultralight_tag-IsQuiet tag =
      search
        (
          quiet_rules, read_bytes-IsQuiet, is_formatted-IsQuiet, find_ndef-IsQuiet,
          read_message-IsQuiet,
        )
        depth 12

  read_capacity-IsQuiet : IsQuiet read_mifare_ultralight_capacity
  unfolding read_mifare_ultralight_capacity
  read_capacity-IsQuiet = search (quiet_rules, read_bytes-IsQuiet) depth 12

  write_page-IsQuiet :
      (page : ℕ) (page_data : List ℕ) → IsQuiet (write_mifare_ultralight_page page page_data)
  unfolding write_mifare_ultralight_page
  write_page-IsQuiet page page_data = search (quiet_rules, transceive-IsQuiet) depth 12

  write_pages-IsQuiet :
      (fuel index buffer_length page : ℕ) (encoded : List ℕ)
      → IsQuiet (write_pages fuel index buffer_length page encoded)
  unfolding write_pages
  write_pages-IsQuiet zero index buffer_length page encoded = IsQuiet-hang
  write_pages-IsQuiet (suc fuel) index buffer_length page encoded =
      search (quiet_rules, write_page-IsQuiet, write_pages-IsQuiet fuel) depth 12

  pub write_mifare_ultralight_tag-IsQuiet :
      (message : p.NdefMessage) → IsQuiet (write_mifare_ultralight_tag message)
  unfolding write_mifare_ultralight_tag
  write_mifare_ultralight_tag-IsQuiet message =
      search (quiet_rules, read_capacity-IsQuiet, write_pages-IsQuiet) depth 12

  clean_pages-IsQuiet : (n page : ℕ) → IsQuiet (clean_pages n page)
  unfolding clean_pages
  clean_pages-IsQuiet zero page = search quiet_rules
  clean_pages-IsQuiet (suc n) page =
      search (quiet_rules, write_page-IsQuiet, clean_pages-IsQuiet n) depth 12

  pub clean_mifare_ultralight-IsQuiet : IsQuiet clean_mifare_ultralight
  unfolding clean_mifare_ultralight
  clean_mifare_ultralight-IsQuiet =
      search (quiet_rules, read_capacity-IsQuiet, clean_pages-IsQuiet) depth 12
