-- ===== src/Modes/Tracked.antt =====
-- The switches and the refresh of the configuration that they ask for.
use esphome_pn.Prelude.{◌≡◌, true, ◌⊎◌, not, arith, ◌&&◌}
use esphome_pn.Driver.{Device}
use esphome_pn.Modes.{set_polling_off, set_polling_on, set_tag_emulation_off, set_tag_emulation_on}
use esphome_pn.Platform.{Platform}

module _ {p : Platform} where
  -- a refresh is pending, or the recorded configuration is the one that the switches ask for
  abbrev pub IsTracked : Device p → Type 0
  IsTracked d =
      (d.config_refresh_pending ≡ true)
      ⊎ (d.core_config_is_solo ≡ not (d.listening_enabled && d.polling_enabled))

module _ ⦃p : Platform⦄ where
  -- If a refresh of the configuration is pending, or the recorded configuration is the one that the
  -- two switches ask for, the same holds after each of the four calls that turn a switch on or off.
  pub switches-IsTracked :
      (d : Device p)
      → IsTracked d
      → IsTracked (set_polling_off d)
        × IsTracked (set_polling_on d)
        × IsTracked (set_tag_emulation_off d)
        × IsTracked (set_tag_emulation_on d)
  unfolding set_polling_off set_polling_on set_tag_emulation_off set_tag_emulation_on
  switches-IsTracked d t = (ground arith, ground arith, ground arith, ground arith)
