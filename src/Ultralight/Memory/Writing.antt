-- ===== src/Ultralight/Memory/Writing.antt =====
-- Writes of a tag's pages put the bytes into its memory.
use esphome_pn.Driver.Reaches.{Reaches-pure, Reaches-bind, Reaches-map}
use esphome_pn.Ultralight.Memory.Reading.{read_mifare_ultralight_bytes_lem}
use esphome_pn.Driver.Reads.{range-ok, get_elem?-slice}
use esphome_pn.Transceive.{nfcc_tag_write_timeout}
use esphome_pn.Transceive.Answered.{exchanged, same_status}
use esphome_pn.Driver.{State}
use esphome_pn.Ultralight.{
  write_mifare_ultralight_page, write_pages, write_mifare_ultralight_tag,
  read_mifare_ultralight_capacity, encode_ultralight,
}
use esphome_pn.Ultralight.Memory.{IsTag, Leaves}
use esphome_pn.Prelude.{
  List, ℕ, ◌≡◌, length, ◌≤◌, ◌*◌, ◌+◌, ◌<◌, put, drop, arith, suc, ◌∙◌, ltb, ap, false, refl,
  drop_all, drop, take, length, length-take, put-nil, length-drop, true, put-put, ◌%◌, ◌++◌,
  length-put, sym, drop-drop, take_append_drop, zero, length, take, drop, get_elem?, some, resize,
  [], length-resize,
}
use esphome_pn.Platform.{Platform}

-- a page, and the pages behind it
put_pages :
    (page index : ℕ) (encoded bytes : List ℕ)
    → index + 4 ≤ length encoded
    → put
        (put bytes (page * 4) (take 4 (drop index encoded)))
        ((page + 1) * 4)
        (drop (index + 4) encoded)
      ≡ put bytes (page * 4) (drop index encoded)
put_pages page index encoded bytes l =
    let from = drop index encoded in
    let four : length (take 4 from) ≡ 4 =
      length-take 4 from (omega (arith, length-drop index encoded)) in
    put-put bytes (page * 4) ((page + 1) * 4) (take 4 from) (drop (index + 4) encoded) (omega arith)
    ∙ ap (λ xs. put bytes (page * 4) (take 4 from ++ xs)) (sym (drop-drop 4 index encoded))
    ∙ ap (put bytes (page * 4)) (take_append_drop 4 from)

module _ ⦃p : Platform⦄ {memory : p.Env → List ℕ} (tag : IsTag memory) where
  write_page_lem :
      (page : ℕ) (page_data bytes : List ℕ) (s : State p)
      → memory s.env ≡ bytes
      → 4 ≤ page
      → length page_data ≡ 4
      → page * 4 + 4 ≤ length bytes
      → Leaves memory
          (put bytes (page * 4) page_data)
          p.status_ok
          s
          (write_mifare_ultralight_page page page_data s)
  unfolding write_mifare_ultralight_page
  write_page_lem page page_data bytes s h low four fits =
      let w = tag.writing page page_data s.env low four (rw h fits) in
      rw (exchanged p.new_message nfcc_tag_write_timeout s w.exchange) (
        rw same_status (record {
          board = w.board;
          returns = refl;
          holds = w.changed ∙ ap (λ xs. put xs (page * 4) page_data) h;
        }))

  -- the pages that are left, one after the other
  write_pages_lem :
      (fuel index buffer_length page rows : ℕ) (encoded bytes : List ℕ) (s : State p)
      → memory s.env ≡ bytes
      → length encoded ≡ buffer_length
      → buffer_length ≡ index + 4 * rows
      → rows < fuel
      → 4 ≤ page
      → page * 4 + 4 * rows ≤ length bytes
      → length bytes < 1024
      → Leaves memory
          (put bytes (page * 4) (drop index encoded))
          p.status_ok
          s
          (write_pages fuel index buffer_length page encoded s)
  unfolding write_pages
  write_pages_lem zero index buffer_length page rows encoded bytes s h size to f low fits many =
      absurd (omega arith)
  write_pages_lem (suc fuel) index buffer_length page zero encoded bytes s h size to f low fits
        many =
      let stop : ltb index buffer_length ≡ false = ground arith in
      let none_left = drop_all index encoded (omega arith) in
      rw stop (rw none_left (rw (put-nil bytes (page * 4)) (Reaches-pure h)))
  write_pages_lem (suc fuel) index buffer_length page (suc rows) encoded bytes s h size to f low
        fits many =
      let go : ltb index buffer_length ≡ true = ground arith in
      let page_data = take 4 (drop index encoded) in
      let four : length page_data ≡ 4 =
        length-take 4 (drop index encoded) (omega (arith, length-drop index encoded)) in
      let next : (page + 1) % 256 ≡ page + 1 = omega arith in
      let w = write_page_lem page page_data bytes s h low four (omega arith) in
      let rest =
        write_pages_lem fuel (index + 4) buffer_length (page + 1) rows encoded
          (put bytes (page * 4) page_data) (record s { env = w.board }) w.holds size (omega arith)
          (omega arith) (omega arith) (omega (arith, length-put bytes (page * 4) page_data))
          (omega (arith, length-put bytes (page * 4) page_data)) in
      rw go (
        rw tag.page_size (
          rw next (
            rw (range-ok encoded index s 4 (omega arith)) (
              Reaches-bind _ w (
                rw same_status (
                  Reaches-map (λ e h. h ∙ put_pages page index encoded bytes (omega arith))
                    rest))))))

  -- the capacity that the third byte of page 3 gives
  pub capacity_lem :
      (size : ℕ) (bytes : List ℕ) (s : State p)
      → memory s.env ≡ bytes
      → 16 ≤ length bytes
      → length bytes ≤ 1024
      → get_elem? bytes 14 ≡ some size
      → Leaves memory bytes (size * 8) s (read_mifare_ultralight_capacity s)
  unfolding read_mifare_ultralight_capacity
  capacity_lem size bytes s h few many e =
      let r = read_mifare_ultralight_bytes_lem tag 3 4 [] bytes s h (omega arith) few many in
      rw tag.page_size (
        Reaches-bind _ r (
          rw same_status
            (rw (get_elem?-slice 12 4 2 14 bytes (omega arith) refl ∙ e) (Reaches-pure r.holds))))

  pub write_mifare_ultralight_tag_lem :
      (message : p.NdefMessage) (rows size : ℕ) (bytes : List ℕ) (s : State p)
      → memory s.env ≡ bytes
      → p.get_mifare_ultralight_buffer_size (length (p.encode_ndef message)) ≡ 4 * rows
      → 4 * rows + 16 ≤ length bytes
      → length bytes < 1024
      → get_elem? bytes 14 ≡ some size
      → 4 * rows ≤ size * 8
      → Leaves memory
          (put bytes 16 (resize (encode_ultralight (p.encode_ndef message)) (4 * rows)))
          p.status_ok
          s
          (write_mifare_ultralight_tag message s)
  unfolding write_mifare_ultralight_tag
  write_mifare_ultralight_tag_lem message rows size bytes s h buffer fits many e capacity =
      let encoded = resize (encode_ultralight (p.encode_ndef message)) (4 * rows) in
      let c = capacity_lem size bytes s h (omega arith) (omega arith) e in
      let enough : ltb (size * 8) (4 * rows) ≡ false = ground arith in
      let start = tag.data_start in
      rw buffer (
        Reaches-bind _ c (
          rw enough (
            Reaches-map (λ e held. held ∙ ap (λ page. put bytes (page * 4) encoded) start)
              (write_pages_lem (suc (4 * rows)) 0 (4 * rows) p.mifare_ultralight_data_start_page
                rows encoded bytes (record s { env = c.board }) c.holds
                (length-resize (encode_ultralight (p.encode_ndef message)) (4 * rows)) (omega arith)
                (omega arith) (omega arith) (omega arith) many))))
