-- ===== src/Messages/Quiet.antt =====
-- Reading, cleaning, formatting and writing the tag that is there change no member.
use esphome_pn.Ultralight.Quiet.{
  clean_mifare_ultralight-IsQuiet, write_mifare_ultralight_tag-IsQuiet,
  read_mifare_ultralight_tag-IsQuiet,
}
use esphome_pn.Classic.Quiet.{
  write_mifare_classic_tag-IsQuiet, read_mifare_classic_tag-IsQuiet,
  format_mifare_classic_mifare-IsQuiet, format_mifare_classic_ndef-IsQuiet,
}
use esphome_pn.Driver.Quiet.{IsQuiet, quiet_rules}
use esphome_pn.Prelude.{List, ℕ}
use esphome_pn.Messages.{clean_endpoint, format_endpoint, read_endpoint_data, write_endpoint}
use esphome_pn.Platform.{Platform}

module _ ⦃p : Platform⦄ where
  pub read_endpoint_data-IsQuiet : (tag : p.NfcTag) → IsQuiet (read_endpoint_data tag)
  unfolding read_endpoint_data
  read_endpoint_data-IsQuiet tag =
      search (quiet_rules, read_mifare_classic_tag-IsQuiet, read_mifare_ultralight_tag-IsQuiet)
        depth 10

  pub clean_endpoint-IsQuiet : (uid : List ℕ) → IsQuiet (clean_endpoint uid)
  unfolding clean_endpoint
  clean_endpoint-IsQuiet uid =
      search (quiet_rules, format_mifare_classic_mifare-IsQuiet, clean_mifare_ultralight-IsQuiet)
        depth 10

  pub format_endpoint-IsQuiet : (uid : List ℕ) → IsQuiet (format_endpoint uid)
  unfolding format_endpoint
  format_endpoint-IsQuiet uid =
      search (quiet_rules, format_mifare_classic_ndef-IsQuiet, clean_mifare_ultralight-IsQuiet)
        depth 10

  pub write_endpoint-IsQuiet :
      (uid : List ℕ) (message : p.NdefMessage) → IsQuiet (write_endpoint uid message)
  unfolding write_endpoint
  write_endpoint-IsQuiet uid message =
      search (quiet_rules, write_mifare_classic_tag-IsQuiet, write_mifare_ultralight_tag-IsQuiet)
        depth 10
