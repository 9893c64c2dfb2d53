-- ===== src/Tests/Card.antt =====
-- The emulated card.
use esphome_pn.CardEmulation.Session.{select_by_prefix}
use esphome_pn.CardEmulation.Files.{read_cc_cases, read_ndef_start, read_ndef_rest}
use esphome_pn.Tests.Sim.{sim, start}
use esphome_pn.Prelude.{[], ◌∷◌, ◌≡◌, arith, refl}
use esphome_pn.Driver.{State, ok, fault, rfst_listen_active, card_emu_ndef_app_selected}
use esphome_pn.CardEmulation.{answer_apdu, read_cc, read_ndef, card_emu_t4t_ok}

abbrev selected : State sim
selected = start rfst_listen_active []

-- the read of one byte more than the capability container has
read_cc_cases_example : read_cc ⦃p = sim⦄ (0, 16) selected ≡ fault
read_cc_cases_example = read_cc_cases ⦃p = sim⦄ 0 16 selected

read_ndef_start_example :
    read_ndef ⦃p = sim⦄ (0xD0 ∷ 0 ∷ 0 ∷ []) (0, 2) selected ≡ ok (0 ∷ 3 ∷ 0x90 ∷ 0 ∷ []) selected
read_ndef_start_example =
    read_ndef_start ⦃p = sim⦄ (0xD0 ∷ 0 ∷ 0 ∷ []) 0 2 selected (omega arith) (omega arith)
      (omega arith) (omega arith)

-- the last byte of the message is asked for, and the first is given
read_ndef_rest_example :
    read_ndef ⦃p = sim⦄ (0xD0 ∷ 0 ∷ 7 ∷ []) (4, 1) selected ≡ ok (0xD0 ∷ 0x90 ∷ 0 ∷ []) selected
read_ndef_rest_example =
    read_ndef_rest ⦃p = sim⦄ (0xD0 ∷ 0 ∷ 7 ∷ []) 4 1 selected (omega arith) (omega arith)
      (omega arith)

select_by_prefix_example :
    answer_apdu ⦃p = sim⦄ [] (0 ∷ 0 ∷ 0 ∷ []) selected
    ≡ ok card_emu_t4t_ok
        (record selected { dev = record selected.dev { ce_state = card_emu_ndef_app_selected } })
select_by_prefix_example = select_by_prefix ⦃p = sim⦄ [] (0 ∷ 0 ∷ 0 ∷ []) [] selected refl refl
