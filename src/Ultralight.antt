-- ===== src/Ultralight.antt =====
-- Reading and writing MIFARE Ultralight tags: components/pn7160/pn7160_mifare_ultralight.cpp.
pub mod Quiet
pub mod Encoding
pub mod Ends
pub mod Pages
pub mod Memory
-- the message wrapped as the tag stores it; the bytes of a long length go in at the same place
use esphome_pn.Config.{ok_or_failed}
use esphome_pn.Transceive.{transceive, nfcc_default_timeout, nfcc_tag_write_timeout}
use esphome_pn.Driver.{M, pure, hang, ◌>>=◌, element, range}
use esphome_pn.Prelude.{
  List, ℕ, ◌*◌, ◌+◌, ◌∷◌, length, suc, ◌/◌, Option, Bool, replicate, ◌-◌, ltb, if◌then◌else◌, ◌%◌,
  insert_at, some, [], resize, not, ◌==◌, leb, ◌++◌, true, zero, none, false, ◌||◌, set_back,
}
use esphome_pn.Platform.{Platform}

unfoldable pub encode_ultralight : List ℕ → List ℕ
encode_ultralight message =
    let n = length message in
    let typed = insert_at message 0 0x03 in
    (if ltb n 255
      then insert_at typed 1 (n % 256)
      else insert_at (insert_at (insert_at typed 1 0xFF) 2 (n / 256 % 256)) 2 (n % 256))
    ++ 0xFE ∷ []

module _ ⦃p : Platform⦄ where
  abbrev pub read_increment : ℕ
  read_increment = p.mifare_ultralight_read_size * p.mifare_ultralight_page_size % 256

  abbrev pub read_request : ℕ → List ℕ
  read_request page = p.data_message p.nci_pkt_mt_data (p.mifare_cmd_read ∷ page ∷ [])

  -- `do ... while (rx.get_payload_size() < read_increment)`, which nothing bounds
  unfoldable pub read_until_full : ℕ → List ℕ → List ℕ → M p (ℕ × List ℕ)
  read_until_full zero tx rx = λ s. hang
  read_until_full (suc fuel) tx rx = do
    (status, rx') ← transceive tx rx nfcc_default_timeout true
    if not (status == p.status_ok)
        then pure (p.status_failed, rx')
        else let again = read_until_full fuel tx rx' in
          if ltb (p.get_payload_size rx') read_increment then again else pure (p.status_ok, rx')

  -- What a round keeps of the answer: from behind the header up to the status byte, or up to the
  -- last byte that is asked for. `cut` is how far the end stands before the end of the message.
  unfoldable pub keep_pages : ℕ → ℕ → List ℕ → List ℕ → M p (List ℕ)
  keep_pages i num_bytes rx pages =
      let bytes_offset = (i + 1) * read_increment % 65536 in
      let cut = if leb bytes_offset num_bytes then 1 else bytes_offset - num_bytes + 1 in
      if ltb cut (length rx)
      then (do kept ← range rx p.nci_pkt_header_size (length rx - cut); pure (pages ++ kept))
      else pure pages

  -- `for (size_t i = 0; i * read_increment < num_bytes; i++)` on fuel
  unfoldable pub read_rounds : ℕ → ℕ → ℕ → ℕ → List ℕ → List ℕ → M p (ℕ × List ℕ)
  unfolding read_until_full keep_pages
  read_rounds zero i start_page num_bytes rx pages = λ s. hang
  read_rounds (suc fuel) i start_page num_bytes rx pages =
      if not (ltb (i * read_increment) num_bytes) then pure (p.status_ok, pages) else do
        (status, rx') ←
            read_until_full p.patience
              (set_back (read_request start_page)
                ((i * p.mifare_ultralight_read_size + start_page) % 256))
              rx
        if not (status == p.status_ok) then pure (p.status_failed, pages) else do
          pages' ← keep_pages i num_bytes rx' pages
          read_rounds fuel (i + 1) start_page num_bytes rx' pages'

  -- the status, and `pages` with what was read behind it
  unfoldable pub read_mifare_ultralight_bytes : ℕ → ℕ → List ℕ → M p (ℕ × List ℕ)
  unfolding read_rounds
  read_mifare_ultralight_bytes start_page num_bytes pages =
      read_rounds (suc num_bytes) 0 start_page num_bytes p.new_message pages

  unfoldable pub is_mifare_ultralight_formatted : List ℕ → M p Bool
  is_mifare_ultralight_formatted page_3_to_6 =
      let p4_offset = p.mifare_ultralight_page_size in
      if not (ltb (p4_offset + 3) (length page_3_to_6)) then pure false else do
        b0 ← element page_3_to_6 p4_offset
        b1 ← element page_3_to_6 (p4_offset + 1)
        b2 ← element page_3_to_6 (p4_offset + 2)
        b3 ← element page_3_to_6 (p4_offset + 3)
        pure (not (b0 == 0xFF) || not (b1 == 0xFF) || not (b2 == 0xFF) || not (b3 == 0xFF))

  -- the message's length and start, none for `STATUS_FAILED`
  unfoldable pub find_mifare_ultralight_ndef : List ℕ → M p (Option (ℕ × ℕ))
  find_mifare_ultralight_ndef page_3_to_6 =
      let p4_offset = p.mifare_ultralight_page_size in
      if not (ltb (p4_offset + 5) (length page_3_to_6)) then pure none else do
        b0 ← element page_3_to_6 p4_offset
        if b0 == 0x03 then (do n ← element page_3_to_6 (p4_offset + 1); pure (some (n, 2))) else do
          b5 ← element page_3_to_6 (p4_offset + 5)
          if b5 == 0x03
              then (do n ← element page_3_to_6 (p4_offset + 6); pure (some (n, 7)))
              else pure none

  -- the first pages are read already; the rest, and the message from all of them
  unfoldable pub read_message : p.NfcTag → List ℕ → Option (ℕ × ℕ) → M p (ℕ × p.NfcTag)
  read_message tag pages none = pure (p.status_failed, tag)
  read_message tag pages (some (message_length, start)) =
      if message_length == 0
      then pure (p.status_failed, tag)
      else let read_length =
          if ltb 12 (message_length + start) then (message_length + start - 12) % 256 else 0 in
        do
          (status, pages') ←
              (if not (read_length == 0)
                then read_mifare_ultralight_bytes ((p.mifare_ultralight_data_start_page + 3) % 256)
                    read_length pages
                else pure (p.status_ok, pages))
          if not (status == p.status_ok) then pure (p.status_failed, tag) else do
            message ← range pages' (start + p.mifare_ultralight_page_size) (length pages')
            pure (p.status_ok, p.set_ndef_message (p.decode_ndef message) tag)

  unfoldable pub read_mifare_ultralight_tag : p.NfcTag → M p (ℕ × p.NfcTag)
  unfolding is_mifare_ultralight_formatted find_mifare_ultralight_ndef read_message
  read_mifare_ultralight_tag tag = do
    (status, pages) ←
        read_mifare_ultralight_bytes 3
          (p.mifare_ultralight_page_size * p.mifare_ultralight_read_size) []
    if not (status == p.status_ok) then pure (p.status_failed, tag) else do
      formatted ← is_mifare_ultralight_formatted pages
      if not formatted
          then pure (p.status_failed, tag)
          else do found ← find_mifare_ultralight_ndef pages; read_message tag pages found

  unfoldable pub read_mifare_ultralight_capacity : M p ℕ
  read_mifare_ultralight_capacity = do
    (status, pages) ← read_mifare_ultralight_bytes 3 p.mifare_ultralight_page_size []
    if status == p.status_ok then (do size ← element pages 2; pure (size * 8)) else pure 0

  unfoldable pub write_mifare_ultralight_page : ℕ → List ℕ → M p ℕ
  write_mifare_ultralight_page page_num write_data = do
    (status, rx) ←
        transceive
          (p.data_message p.nci_pkt_mt_data (p.mifare_cmd_write_ultralight ∷ page_num ∷ write_data))
          p.new_message nfcc_tag_write_timeout true
    ok_or_failed (status, rx)

  -- `while (index < buffer_length)` on fuel
  unfoldable pub write_pages : ℕ → ℕ → ℕ → ℕ → List ℕ → M p ℕ
  write_pages zero index buffer_length page encoded = λ s. hang
  write_pages (suc fuel) index buffer_length page encoded =
      if not (ltb index buffer_length) then pure p.status_ok else do
        page_data ← range encoded index (index + p.mifare_ultralight_page_size)
        status ← write_mifare_ultralight_page page page_data
        if not (status == p.status_ok)
            then pure p.status_failed
            else write_pages fuel (index + p.mifare_ultralight_page_size) buffer_length
                ((page + 1) % 256) encoded

  unfoldable pub write_mifare_ultralight_tag : p.NdefMessage → M p ℕ
  unfolding write_pages encode_ultralight
  write_mifare_ultralight_tag message = do
    capacity ← read_mifare_ultralight_capacity
    let encoded = p.encode_ndef message
    let buffer_length = p.get_mifare_ultralight_buffer_size (length encoded)
    if ltb capacity buffer_length
        then pure p.status_failed
        else write_pages (suc buffer_length) 0 buffer_length p.mifare_ultralight_data_start_page
            (resize (encode_ultralight encoded) buffer_length)

  -- the last page and one; `pages` is a `uint8_t`
  abbrev pub end_page : ℕ → ℕ
  end_page capacity =
      (capacity / p.mifare_ultralight_page_size + p.mifare_ultralight_data_start_page) % 256

  -- `for (int i = start; i < pages; i++)`, with the rounds left
  unfoldable pub clean_pages : ℕ → ℕ → M p ℕ
  clean_pages zero page = pure p.status_ok
  clean_pages (suc n) page = do
    status ← write_mifare_ultralight_page page (replicate 4 0x00)
    if not (status == p.status_ok) then pure p.status_failed else clean_pages n (page + 1)

  unfoldable pub clean_mifare_ultralight : M p ℕ
  unfolding clean_pages
  clean_mifare_ultralight = do
    capacity ← read_mifare_ultralight_capacity
    clean_pages (end_page capacity - p.mifare_ultralight_data_start_page)
        p.mifare_ultralight_data_start_page
