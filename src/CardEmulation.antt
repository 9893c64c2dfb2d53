-- ===== src/CardEmulation.antt =====
-- The emulated type 4 tag: `card_emu_t4t_get_response_` and `process_data_message_` of
-- components/pn7160/pn7160.cpp, and the byte strings of components/pn7160/pn7160.h.
pub mod Equal
pub mod Files
pub mod Session
pub mod Quiet
pub mod Stays
use esphome_pn.Transceive.{transceive, nfcc_default_timeout}
use esphome_pn.Platform.{Platform, emulated_tag_scan}
use esphome_pn.Driver.{
  CardEmulationState, M, pass, ◌>>=◌, fault, card_emu_idle, get_dev, card_emu_ndef_selected, range,
  card_emu_cc_selected, element, card_emu_discovered, pure, card_emu_ndef_app_selected, put_dev,
  card_emu_t4t_select_ndef_app, ◌>>◌, card_emu_t4t_select_ndef_file, emit, card_emu_t4t_read_size,
  card_emu_t4t_read_data,
}
use esphome_pn.Prelude.{
  List, Bool, ℕ, Option, ◌∷◌, if◌then◌else◌, length, ◌==◌, some, true, ◌%◌, leb, [], ltb, ◌+◌, none,
  ◌++◌, ◌/◌, ◌*◌, ◌-◌, false,
}

abbrev pub card_emu_t4t_app_select : List ℕ
card_emu_t4t_app_select =
    0x00 ∷ 0xA4 ∷ 0x04 ∷ 0x00 ∷ 0x07 ∷ 0xD2 ∷ 0x76 ∷ 0x00 ∷ 0x00 ∷ 0x85 ∷ 0x01 ∷ 0x01 ∷ 0x00 ∷ []

abbrev pub card_emu_t4t_cc : List ℕ
card_emu_t4t_cc =
    0x00 ∷ 0x0F ∷ 0x20 ∷ 0x00 ∷ 0xFF ∷ 0x00 ∷ 0xFF ∷ 0x04 ∷ 0x06 ∷ 0xE1 ∷ 0x04 ∷ 0x00 ∷ 0xFF ∷ 0x00
    ∷ 0x00 ∷ []

abbrev pub card_emu_t4t_cc_select : List ℕ
card_emu_t4t_cc_select = 0x00 ∷ 0xA4 ∷ 0x00 ∷ 0x0C ∷ 0x02 ∷ 0xE1 ∷ 0x03 ∷ []

abbrev pub card_emu_t4t_ndef_select : List ℕ
card_emu_t4t_ndef_select = 0x00 ∷ 0xA4 ∷ 0x00 ∷ 0x0C ∷ 0x02 ∷ 0xE1 ∷ 0x04 ∷ []

abbrev pub card_emu_t4t_read : List ℕ
card_emu_t4t_read = 0x00 ∷ 0xB0 ∷ []

abbrev pub card_emu_t4t_write : List ℕ
card_emu_t4t_write = 0x00 ∷ 0xD6 ∷ []

abbrev pub card_emu_t4t_ok : List ℕ
card_emu_t4t_ok = 0x90 ∷ 0x00 ∷ []

-- `a == b` of two states, by their numbers in the enumeration
abbrev pub ce_number : CardEmulationState → ℕ
ce_number card_emu_idle = 0
ce_number card_emu_discovered = 1
ce_number card_emu_ndef_app_selected = 2
ce_number card_emu_cc_selected = 3
ce_number card_emu_ndef_selected = 4
ce_number card_emu_t4t_select_ndef_app = 5
ce_number card_emu_t4t_select_ndef_file = 6
ce_number card_emu_t4t_read_size = 7
ce_number card_emu_t4t_read_data = 8

abbrev pub ce_eq : CardEmulationState → CardEmulationState → Bool
ce_eq a b = ce_number a == ce_number b

-- `std::equal(first, last, second)`: it goes through the first range, and is undefined (`none`)
-- where it has to read behind the end of the second.
unfoldable pub equal : List ℕ → List ℕ → Option Bool
equal [] ys = some true
equal (x ∷ xs) [] = none
equal (x ∷ xs) (y ∷ ys) = elim (x == y) [ true ↦ equal xs ys | false ↦ some false ]

module _ ⦃p : Platform⦄ where
  abbrev pub h : ℕ
  h = p.nci_pkt_header_size

  abbrev defined : Option Bool → M p Bool
  defined none = λ s. fault
  defined (some b) = pure b

  -- the payload against a whole command, and its start against the two bytes of a command
  unfoldable pub is_apdu : List ℕ → List ℕ → M p Bool
  unfolding equal
  is_apdu response apdu = do
    payload ← range response h (length response)
    defined (equal payload apdu)

  unfoldable pub starts_apdu : List ℕ → List ℕ → M p Bool
  unfolding equal
  starts_apdu response apdu = do
    start ← range response h (h + length apdu)
    defined (equal start apdu)

  abbrev set_ce_state : CardEmulationState → M p (Unit {0})
  set_ce_state ce = do d ← get_dev; put_dev (record d { ce_state = ce })

  -- the offset and the length that a read command names
  unfoldable pub read_window : List ℕ → M p (ℕ × ℕ)
  read_window response = do
    hi ← element response (h + 2)
    lo ← element response (h + 3)
    n ← element response (h + 4)
    pure ((hi * 256 + lo) % 65536, n)

  unfoldable pub read_cc : ℕ × ℕ → M p (List ℕ)
  read_cc (offset, n) =
      if leb n (length card_emu_t4t_cc + offset + 2)
      then (do part ← range card_emu_t4t_cc offset (offset + n); pure (part ++ card_emu_t4t_ok))
      else pure []

  -- the bytes of the NDEF file that the branches on `offset` put into the answer
  unfoldable pub ndef_part : List ℕ → ℕ → ℕ → M p (List ℕ)
  ndef_part ndef_message offset n =
      let size = length ndef_message % 65536 in
      if offset == 0
      then if ltb 2 n
        then (do part ← range ndef_message 0 (n - 2); pure (size / 256 ∷ size % 256 ∷ part))
        else pure (size / 256 ∷ size % 256 ∷ [])
      else if offset == 1
      then if ltb 1 n
        then (do part ← range ndef_message 0 (n - 1); pure (size % 256 ∷ part))
        else pure (size % 256 ∷ [])
      else range ndef_message 0 n

  unfoldable pub read_ndef : List ℕ → ℕ × ℕ → M p (List ℕ)
  read_ndef ndef_message (offset, n) =
      let size = length ndef_message % 65536 in
      if leb n (size + offset + 2)
      then (do
        part ← ndef_part ndef_message offset n
        (if leb (size + 2) (offset + n) then emit emulated_tag_scan else pass)
        pure (part ++ card_emu_t4t_ok))
      else pure []

  unfoldable pub answer_read : CardEmulationState → p.NdefMessage → List ℕ → M p (List ℕ)
  unfolding read_window read_cc read_ndef
  answer_read ce message response =
      if ce_eq ce card_emu_cc_selected
      then read_window response >>= read_cc
      else if ce_eq ce card_emu_ndef_selected
      then read_window response >>= read_ndef (p.encode_ndef message)
      else pure []

  -- What is written is read out of the command, logged and dropped.
  unfoldable pub answer_write : CardEmulationState → List ℕ → M p (List ℕ)
  answer_write ce response =
      if ce_eq ce card_emu_ndef_selected
      then (do
        n ← element response (h + 4)
        range response (h + 5) (h + 5 + n)
        pure card_emu_t4t_ok)
      else pure []

  unfoldable pub answer_apdu : p.NdefMessage → List ℕ → M p (List ℕ)
  answer_apdu message response = do
    d ← get_dev
    app ← is_apdu response card_emu_t4t_app_select
    if app then set_ce_state card_emu_ndef_app_selected >> pure card_emu_t4t_ok else do
      cc ← is_apdu response card_emu_t4t_cc_select
      if cc
          then if ce_eq d.ce_state card_emu_ndef_app_selected
            then set_ce_state card_emu_cc_selected >> pure card_emu_t4t_ok
            else pure []
          else do
            ndef ← is_apdu response card_emu_t4t_ndef_select
            if ndef then set_ce_state card_emu_ndef_selected >> pure card_emu_t4t_ok else do
              reading ← starts_apdu response card_emu_t4t_read
              if reading then answer_read d.ce_state message response else do
                writing ← starts_apdu response card_emu_t4t_write
                if writing then answer_write d.ce_state response else pure []

  -- `ndef_response` as the call leaves it, from an empty vector
  unfoldable pub card_emu_t4t_get_response : List ℕ → M p (List ℕ)
  unfolding answer_apdu
  card_emu_t4t_get_response response = do
    d ← get_dev
    elim d.card_emulation_message [ none ↦ pure [] | some message ↦ answer_apdu message response ]

  -- the reply as a data packet; an empty one is not sent
  unfoldable pub send_reply : List ℕ → List ℕ → M p (Unit {0})
  send_reply rx [] = pass
  send_reply rx (x ∷ xs) =
      let size = length (x ∷ xs) % 65536 in
      if size == 0
      then pass
      else transceive (p.nci_pkt_mt_data ∷ size / 256 ∷ size % 256 ∷ x ∷ xs) rx nfcc_default_timeout
          false
        >> pass

  unfoldable pub process_data_message : List ℕ → M p (Unit {0})
  unfolding card_emu_t4t_get_response send_reply
  process_data_message rx = card_emu_t4t_get_response rx >>= send_reply rx
