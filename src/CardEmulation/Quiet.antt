-- ===== src/CardEmulation/Quiet.antt =====
-- The parts of an answer of the emulated card that change no member.
use esphome_pn.Config.Quiet.{transceive-IsQuiet}
use esphome_pn.Driver.Quiet.{
  IsQuiet, IsQuiet-pass, quiet_rules, IsQuiet-element, keeps_fault, IsQuiet-range, IsQuiet-pure,
}
use esphome_pn.Driver.{CardEmulationState}
use esphome_pn.Prelude.{Option, ℕ, Bool, List, ◌∷◌, some, [], none}
use esphome_pn.CardEmulation.{
  answer_read, send_reply, read_cc, read_window, starts_apdu, read_ndef, answer_write, ndef_part,
  is_apdu, defined,
}
use esphome_pn.Platform.{Platform}

module _ ⦃p : Platform⦄ where
  pub defined-IsQuiet : (b : Option Bool) → IsQuiet {p = p} (defined b)
  defined-IsQuiet none = record { at = λ s. keeps_fault }
  defined-IsQuiet (some b) = IsQuiet-pure b

  pub is_apdu-IsQuiet : (response apdu : List ℕ) → IsQuiet (is_apdu response apdu)
  unfolding is_apdu
  is_apdu-IsQuiet response apdu = search (quiet_rules, IsQuiet-range, defined-IsQuiet) depth 10

  pub starts_apdu-IsQuiet : (response apdu : List ℕ) → IsQuiet (starts_apdu response apdu)
  unfolding starts_apdu
  starts_apdu-IsQuiet response apdu = search (quiet_rules, IsQuiet-range, defined-IsQuiet) depth 10

  pub read_window-IsQuiet : (response : List ℕ) → IsQuiet (read_window response)
  unfolding read_window
  read_window-IsQuiet response = search (quiet_rules, IsQuiet-element) depth 10

  pub read_cc-IsQuiet : (window : ℕ × ℕ) → IsQuiet (read_cc window)
  unfolding read_cc
  read_cc-IsQuiet (offset, n) = search (quiet_rules, IsQuiet-range) depth 10

  pub ndef_part-IsQuiet : (ndef : List ℕ) (offset n : ℕ) → IsQuiet (ndef_part ndef offset n)
  unfolding ndef_part
  ndef_part-IsQuiet ndef offset n = search (quiet_rules, IsQuiet-range) depth 10

  pub read_ndef-IsQuiet : (ndef : List ℕ) (window : ℕ × ℕ) → IsQuiet (read_ndef ndef window)
  unfolding read_ndef
  read_ndef-IsQuiet ndef (offset, n) = search (quiet_rules, ndef_part-IsQuiet) depth 10

  pub answer_read-IsQuiet :
      (ce : CardEmulationState) (message : p.NdefMessage) (response : List ℕ)
      → IsQuiet (answer_read ce message response)
  unfolding answer_read
  answer_read-IsQuiet ce message response =
      search (quiet_rules, read_window-IsQuiet, read_cc-IsQuiet, read_ndef-IsQuiet) depth 10

  pub answer_write-IsQuiet :
      (ce : CardEmulationState) (response : List ℕ) → IsQuiet (answer_write ce response)
  unfolding answer_write
  answer_write-IsQuiet ce response = search (quiet_rules, IsQuiet-element, IsQuiet-range) depth 10

  pub send_reply-IsQuiet : (rx reply : List ℕ) → IsQuiet (send_reply rx reply)
  unfolding send_reply
  send_reply-IsQuiet rx [] = IsQuiet-pass
  send_reply-IsQuiet rx (x ∷ xs) = search (quiet_rules, transceive-IsQuiet) depth 10
