-- ===== src/Ultralight/Pages.antt =====
-- The pages of a MIFARE Ultralight tag that are written.
use esphome_pn.Driver.Quiet.{Keeps}
use esphome_pn.Transceive.Sends.{transceive-Sends}
use esphome_pn.Ultralight.{
  read_until_full, read_request, read_mifare_ultralight_bytes, write_mifare_ultralight_page,
  read_rounds, read_mifare_ultralight_capacity, keep_pages, write_pages, clean_pages,
  write_mifare_ultralight_tag, clean_mifare_ultralight, end_page, encode_ultralight,
}
use esphome_pn.Driver.{M, State, ◌>>=◌, range, pure}
use esphome_pn.Prelude.{
  List, ℕ, set_back, ◌≤◌, ◌∷◌, suc, zero, ◌≡◌, ◌*◌, ◌+◌, ◌%◌, ◌<◌, dec_lt, arith, ltb, false, true,
  length, resize, ◌-◌, if◌then◌else◌, not, ◌==◌, replicate,
}
use esphome_pn.Platform.{Platform}
use esphome_pn.Driver.Sends.{
  IsLog, Sends, Sends-hang, sends_rules, Sends-pure, Sent, Sends-bind, Sends-if,
}

module _ ⦃p : Platform⦄ where
  -- a message that reads pages, or writes one that holds no lock bits and no serial number
  pub data IsHarmless : List ℕ → Type 0 where
    reads : (page last : ℕ) → IsHarmless (set_back (read_request page) last)
    writes :
        (page : ℕ) (page_data : List ℕ)
        → 4 ≤ page
        → page ≤ 255
        → IsHarmless
            (p.data_message p.nci_pkt_mt_data (p.mifare_cmd_write_ultralight ∷ page ∷ page_data))

module _ ⦃p : Platform⦄ {log : p.Env → List (List ℕ)} (logs : IsLog log) where
  abbrev Harmless : {A : Type 0} → M p A → Type 0
  Harmless m = Sends log IsHarmless m

  read_until_full-Harmless :
      (fuel page last : ℕ) (rx : List ℕ)
      → Harmless (read_until_full fuel (set_back (read_request page) last) rx)
  unfolding read_until_full
  read_until_full-Harmless zero page last rx = Sends-hang
  read_until_full-Harmless (suc fuel) page last rx =
      search (sends_rules, transceive-Sends logs, reads, read_until_full-Harmless fuel) depth 14

  keep_pages-Harmless :
      (i num_bytes : ℕ) (rx pages : List ℕ) → Harmless (keep_pages i num_bytes rx pages)
  unfolding keep_pages
  keep_pages-Harmless i num_bytes rx pages = search sends_rules depth 12

  read_rounds-Harmless :
      (fuel i start_page num_bytes : ℕ) (rx pages : List ℕ)
      → Harmless (read_rounds fuel i start_page num_bytes rx pages)
  unfolding read_rounds
  read_rounds-Harmless zero i start_page num_bytes rx pages = Sends-hang
  read_rounds-Harmless (suc fuel) i start_page num_bytes rx pages =
      search (sends_rules, read_until_full-Harmless, keep_pages-Harmless, read_rounds-Harmless fuel)
        depth 12

  read_bytes-Harmless :
      (start_page num_bytes : ℕ) (pages : List ℕ)
      → Harmless (read_mifare_ultralight_bytes start_page num_bytes pages)
  unfolding read_mifare_ultralight_bytes
  read_bytes-Harmless start_page num_bytes pages = search read_rounds-Harmless

  read_capacity-Harmless : Harmless read_mifare_ultralight_capacity
  unfolding read_mifare_ultralight_capacity
  read_capacity-Harmless = search (sends_rules, read_bytes-Harmless) depth 12

  write_page-Harmless :
      (page : ℕ) (page_data : List ℕ)
      → 4 ≤ page
      → page ≤ 255
      → Harmless (write_mifare_ultralight_page page page_data)
  unfolding write_mifare_ultralight_page
  write_page-Harmless page page_data low high =
      search (sends_rules, transceive-Sends logs, writes) depth 12

  write_round-Harmless :
      (index page : ℕ) (encoded : List ℕ) (rest : M p ℕ)
      → 4 ≤ page
      → page ≤ 255
      → Harmless rest
      → Harmless (do
        page_data ← range encoded index (index + p.mifare_ultralight_page_size)
        status ← write_mifare_ultralight_page page page_data
        if not (status == p.status_ok) then pure p.status_failed else rest)
  write_round-Harmless index page encoded rest low high then_ =
      search (sends_rules, write_page-Harmless) depth 12

  -- the page is the one that the index lies in, which does not wrap below 1008 bytes
  write_pages-Harmless :
      (fuel index buffer_length page : ℕ) (encoded : List ℕ)
      → p.mifare_ultralight_page_size ≡ 4
      → buffer_length ≤ 1008
      → (index < buffer_length → page * 4 ≡ index + 16)
      → Harmless (write_pages fuel index buffer_length page encoded)
  unfolding write_pages
  write_pages-Harmless zero index buffer_length page encoded size small at = Sends-hang
  write_pages-Harmless (suc fuel) index buffer_length page encoded size small at =
      elim (dec_lt index buffer_length) [
        | no ended ↦
            let stop : ltb index buffer_length ≡ false = ground arith in
            rw stop (Sends-pure p.status_ok)
        | yes inside ↦
            let go : ltb index buffer_length ≡ true = ground arith in
            let here = at inside in
            let next =
              write_pages-Harmless fuel (index + p.mifare_ultralight_page_size) buffer_length
                ((page + 1) % 256) encoded size small (λ l. omega arith) in
            rw go (write_round-Harmless index page encoded _ (omega arith) (omega arith) next)
      ]

  clean_pages-Harmless : (n page : ℕ) → 4 ≤ page → n + page ≤ 256 → Harmless (clean_pages n page)
  unfolding clean_pages
  clean_pages-Harmless zero page low high = Sends-pure p.status_ok
  clean_pages-Harmless (suc n) page low high =
      Sends-bind (write_mifare_ultralight_page page (replicate 4 0x00)) _
        (write_page-Harmless page (replicate 4 0x00) low (omega arith))
        (λ status.
          Sends-if (not (status == p.status_ok)) (pure p.status_failed) (clean_pages n (page + 1))
            (Sends-pure p.status_failed)
            (clean_pages-Harmless n (page + 1) (omega arith) (omega arith)))

  write_tag-Harmless :
      (message : p.NdefMessage)
      → p.mifare_ultralight_page_size ≡ 4
      → p.mifare_ultralight_data_start_page ≡ 4
      → p.get_mifare_ultralight_buffer_size (length (p.encode_ndef message)) ≤ 1008
      → Harmless (write_mifare_ultralight_tag message)
  unfolding write_mifare_ultralight_tag
  write_tag-Harmless message size start small =
      let n = p.get_mifare_ultralight_buffer_size (length (p.encode_ndef message)) in
      let written =
        write_pages-Harmless (suc n) 0 n p.mifare_ultralight_data_start_page
          (resize (encode_ultralight (p.encode_ndef message)) n) size small (λ l. omega arith) in
      Sends-bind read_mifare_ultralight_capacity _ read_capacity-Harmless (λ capacity.
        Sends-if (ltb capacity n) (pure p.status_failed) _ (Sends-pure p.status_failed) written)

  clean-Harmless : p.mifare_ultralight_data_start_page ≡ 4 → Harmless clean_mifare_ultralight
  unfolding clean_mifare_ultralight
  clean-Harmless start =
      Sends-bind read_mifare_ultralight_capacity _ read_capacity-Harmless (λ capacity.
        clean_pages-Harmless (end_page capacity - p.mifare_ultralight_data_start_page)
          p.mifare_ultralight_data_start_page (omega arith) (omega arith))

  -- Where a page has 4 bytes and the data starts at page 4: whatever the tag answers, all that
  -- `write_mifare_ultralight_tag_` writes on the bus for a message whose buffer is at most 1008
  -- bytes, and all that `clean_mifare_ultralight_` writes on the bus for any tag, are requests to
  -- read, and requests to write one of the pages 4 to 255, never the serial number, the lock bits or
  -- the capability container in front of them.
  pub writes_data_pages :
      (message : p.NdefMessage) (s : State p)
      → p.mifare_ultralight_page_size ≡ 4
      → p.mifare_ultralight_data_start_page ≡ 4
      → p.get_mifare_ultralight_buffer_size (length (p.encode_ndef message)) ≤ 1008
      → Keeps (λ s'. Sent log IsHarmless s.env s'.env) (write_mifare_ultralight_tag message s)
        × Keeps (λ s'. Sent log IsHarmless s.env s'.env) (clean_mifare_ultralight s)
  writes_data_pages message s size start small =
      ((write_tag-Harmless message size start small).at s, (clean-Harmless start).at s)
