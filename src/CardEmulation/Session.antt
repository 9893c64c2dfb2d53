-- ===== src/CardEmulation/Session.antt =====
-- How a reader moves through the emulated tag.
use esphome_pn.Driver.Reads.{range-ok}
use esphome_pn.CardEmulation.Equal.{is_prefix, equal_lem}
use esphome_pn.Driver.{State, ok, card_emu_ndef_app_selected, range}
use esphome_pn.Prelude.{
  List, ℕ, length, ◌≡◌, true, ◌++◌, length-append, refl, ap, arith, ◌∙◌, sym, drop-append, take_all,
}
use esphome_pn.CardEmulation.{answer_apdu, card_emu_t4t_app_select, card_emu_t4t_ok, is_apdu}
use esphome_pn.Platform.{Platform}

module _ ⦃p : Platform⦄ where
  -- the payload that a comparison looks at
  payload_lem :
      (header payload : List ℕ) (s : State p)
      → range (header ++ payload) (length header) (length (header ++ payload)) s ≡ ok payload s
  payload_lem header payload s =
      ap (λ k. range (header ++ payload) (length header) k s) (length-append header payload)
      ∙ range-ok (header ++ payload) (length header) s (length payload)
          (omega (arith, length-append header payload))
      ∙ rw (drop-append header payload) (rw (take_all (length payload) payload (omega arith)) refl)

  -- A packet whose header has the size of a header and whose payload is any beginning of the
  -- command that selects the application, also an empty one, selects the application and is
  -- answered by 90 00, in every state of the card.
  pub select_by_prefix :
      (message : p.NdefMessage) (header payload : List ℕ) (s : State p)
      → length header ≡ p.nci_pkt_header_size
      → is_prefix payload card_emu_t4t_app_select ≡ true
      → answer_apdu message (header ++ payload) s
        ≡ ok card_emu_t4t_ok
            (record s { dev = record s.dev { ce_state = card_emu_ndef_app_selected } })
  unfolding answer_apdu is_apdu
  select_by_prefix message header payload s e prefix =
      let bytes =
        ap (λ k. range (header ++ payload) k (length (header ++ payload)) s) (sym e)
        ∙ payload_lem header payload s in
      rw bytes (rw (equal_lem payload card_emu_t4t_app_select) (rw prefix refl))
