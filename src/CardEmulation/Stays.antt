-- ===== src/CardEmulation/Stays.antt =====
-- The answers of the emulated card keep an invariant.
use esphome_pn.Driver.Stays.{stays_rules, Stays-get, Stays-pure, Stays}
use esphome_pn.Driver.{pure}
use esphome_pn.CardEmulation.Quiet.{
  send_reply-IsQuiet, is_apdu-IsQuiet, starts_apdu-IsQuiet, answer_read-IsQuiet,
  answer_write-IsQuiet,
}
use esphome_pn.Prelude.{Option, List, ℕ, none, [], some}
use esphome_pn.CardEmulation.{answer_apdu, card_emu_t4t_get_response, process_data_message}
use esphome_pn.Invariant.{IsInvariant}
use esphome_pn.Driver.Core.{Core}
use esphome_pn.Platform.{Platform}

module _ ⦃p : Platform⦄ {R : Core p → Type 0} ⦃inv : IsInvariant R⦄ where
  answer_apdu-Stays :
      (message : p.NdefMessage) (response : List ℕ) → Stays R (answer_apdu message response)
  unfolding answer_apdu
  answer_apdu-Stays message response =
      search
        (
          stays_rules, is_apdu-IsQuiet, starts_apdu-IsQuiet, answer_read-IsQuiet,
          answer_write-IsQuiet,
        )
        depth 24

  answer_if-Stays :
      (message : Option p.NdefMessage) (response : List ℕ)
      → Stays {A = List ℕ} R (elim message [ none ↦ pure [] | some x ↦ answer_apdu x response ])
  answer_if-Stays none response = Stays-pure []
  answer_if-Stays (some x) response = answer_apdu-Stays x response

  get_response-Stays : (response : List ℕ) → Stays R (card_emu_t4t_get_response response)
  unfolding card_emu_t4t_get_response
  get_response-Stays response =
      Stays-get _ (λ d w. answer_if-Stays d.card_emulation_message response)

  pub process_data_message-Stays : (rx : List ℕ) → Stays R (process_data_message rx)
  unfolding process_data_message
  process_data_message-Stays rx =
      search (stays_rules, get_response-Stays, send_reply-IsQuiet) depth 10
