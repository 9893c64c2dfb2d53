-- ===== src/Ultralight/Memory/Tag.antt =====
-- A tag that holds a message in one block, from its first data page on, is read as that message.
use esphome_pn.Ultralight.Memory.Block.{IsBlock, ten, four_lem, no_shorter, continues, begins}
use esphome_pn.Driver.Reaches.{Reaches-pure, Reaches-bind, Reaches-value}
use esphome_pn.Driver.Reads.{range-ok}
use esphome_pn.Transceive.Answered.{same_status}
use esphome_pn.Ultralight.Memory.Reading.{read_mifare_ultralight_bytes_lem}
use esphome_pn.Ultralight.Memory.{IsTag, Leaves}
use esphome_pn.Driver.{State, ok, pure, range}
use esphome_pn.Ultralight.{
  is_mifare_ultralight_formatted, find_mifare_ultralight_ndef, read_message,
  read_mifare_ultralight_bytes, read_mifare_ultralight_tag,
}
use esphome_pn.Prelude.{
  List, ℕ, ◌≡◌, ◌+◌, length, ◌≤◌, ◌∷◌, take, drop, ◌-◌, [], some, ◌++◌, arith, true, ltb, ap, refl,
  length-take, ◌∙◌, length-drop, take_all, get_elem?, ◌<◌, if◌then◌else◌, ◌==◌, not, false, ◌%◌,
  take_append_drop, dec_lt, append-nil, ◌*◌,
}
use esphome_pn.Platform.{Platform}

module _ ⦃p : Platform⦄ (page_size : p.mifare_ultralight_page_size ≡ 4) where
  formatted_lem :
      (a b c d n m0 m1 : ℕ) (more : List ℕ) (s : State p)
      → is_mifare_ultralight_formatted (a ∷ b ∷ c ∷ d ∷ 0x03 ∷ n ∷ m0 ∷ m1 ∷ more) s ≡ ok true s
  unfolding is_mifare_ultralight_formatted
  formatted_lem a b c d n m0 m1 more s =
      let pages = a ∷ b ∷ c ∷ d ∷ 0x03 ∷ n ∷ m0 ∷ m1 ∷ more in
      let size : ltb (p.mifare_ultralight_page_size + 3) (length pages) ≡ true = ground arith in
      let e0 : get_elem? pages p.mifare_ultralight_page_size ≡ some 0x03 = rw page_size refl in
      let e1 : get_elem? pages (p.mifare_ultralight_page_size + 1) ≡ some n = rw page_size refl in
      let e2 : get_elem? pages (p.mifare_ultralight_page_size + 2) ≡ some m0 = rw page_size refl in
      let e3 : get_elem? pages (p.mifare_ultralight_page_size + 3) ≡ some m1 = rw page_size refl in
      rw size (rw e0 (rw e1 (rw e2 (rw e3 refl))))

  find_lem :
      (a b c d n : ℕ) (more : List ℕ) (s : State p)
      → 4 ≤ length more
      → find_mifare_ultralight_ndef (a ∷ b ∷ c ∷ d ∷ 0x03 ∷ n ∷ more) s ≡ ok (some (n, 2)) s
  unfolding find_mifare_ultralight_ndef
  find_lem a b c d n more s l =
      let pages = a ∷ b ∷ c ∷ d ∷ 0x03 ∷ n ∷ more in
      let size : ltb (p.mifare_ultralight_page_size + 5) (length pages) ≡ true = ground arith in
      let e0 : get_elem? pages p.mifare_ultralight_page_size ≡ some 0x03 = rw page_size refl in
      let e1 : get_elem? pages (p.mifare_ultralight_page_size + 1) ≡ some n = rw page_size refl in
      rw size (rw e0 (rw e1 refl))

  formatted_message :
      (a b c d n : ℕ) (message : List ℕ) (s : State p)
      → 10 ≤ length message
      → is_mifare_ultralight_formatted (a ∷ b ∷ c ∷ d ∷ 0x03 ∷ n ∷ take 10 message) s ≡ ok true s
  formatted_message a b c d n [] s l = absurd (omega arith)
  formatted_message a b c d n (m0 ∷ []) s l = absurd (omega arith)
  formatted_message a b c d n (m0 ∷ m1 ∷ more) s l = formatted_lem a b c d n m0 m1 (take 8 more) s

  range_lem :
      (a b c d n : ℕ) (message : List ℕ) (s : State p)
      → range
          (a ∷ b ∷ c ∷ d ∷ 0x03 ∷ n ∷ message)
          (2 + p.mifare_ultralight_page_size)
          (length (a ∷ b ∷ c ∷ d ∷ 0x03 ∷ n ∷ message))
          s
        ≡ ok message s
  range_lem a b c d n message s =
      let pages = a ∷ b ∷ c ∷ d ∷ 0x03 ∷ n ∷ message in
      let six : 2 + p.mifare_ultralight_page_size ≡ 6 = rw page_size refl in
      let size : length pages ≡ 6 + length message = omega arith in
      ap (λ i. range pages i (length pages) s) six
      ∙ ap (λ j. range pages 6 j s) size
      ∙ range-ok pages 6 s (length message) (omega arith)
      ∙ ap (λ xs. ok xs s) (take_all (length message) message (omega arith))

module _ ⦃p : Platform⦄ {memory : p.Env → List ℕ} (tag : IsTag memory) where
  -- the bytes that the first read did not give
  rest_lem :
      (n : ℕ) (pages bytes : List ℕ) (s : State p)
      → memory s.env ≡ bytes
      → n < 255
      → 28 ≤ length bytes
      → 18 + n ≤ length bytes
      → length bytes ≤ 1024
      → Leaves memory bytes
          (p.status_ok, pages ++ take (n - 10) (drop 28 bytes))
          s
          ((if not (n - 10 == 0)
              then read_mifare_ultralight_bytes
                  ((p.mifare_ultralight_data_start_page + 3) % 256)
                  (n - 10)
                  pages
              else pure (p.status_ok, pages))
            s)
  rest_lem n pages bytes s h short few fits many =
      let seven : (p.mifare_ultralight_data_start_page + 3) % 256 ≡ 7 = rw tag.data_start refl in
      elim (dec_lt 10 n) [
        | yes more ↦
            let go : (n - 10 == 0) ≡ false = ground arith in
            rw go (
              rw seven (
                read_mifare_ultralight_bytes_lem tag 7 (n - 10) pages bytes s h (omega arith)
                  (omega arith) many))
        | no all ↦
            let ten_ : n - 10 ≡ 0 = omega arith in rw ten_ (rw (append-nil pages) (Reaches-pure h))
      ]

  read_message_lem :
      (t : p.NfcTag) (a b c d n : ℕ) (content bytes : List ℕ) (s : State p)
      → memory s.env ≡ bytes
      → IsBlock n content bytes
      → length bytes ≤ 1024
      → Leaves memory bytes
          (p.status_ok, p.set_ndef_message (p.decode_ndef content) t)
          s
          (read_message t (a ∷ b ∷ c ∷ d ∷ 0x03 ∷ n ∷ take 10 content) (some (n, 2)) s)
  unfolding read_message
  read_message_lem t a b c d n content bytes s h block many =
      let some_ : (n == 0) ≡ false = ground (arith, block.some_bytes) in
      let left : (if ltb 12 (n + 2) then (n + 2 - 12) % 256 else 0) ≡ n - 10 =
        ground (arith, block.short) in
      let pages = a ∷ b ∷ c ∷ d ∷ 0x03 ∷ n ∷ take 10 content in
      let rest =
        rest_lem n pages bytes s h block.short (omega (arith, block.room, ten block))
          (omega (arith, block.room, no_shorter block)) many in
      let message_lem : take 10 content ++ take (n - 10) (drop 28 bytes) ≡ content =
        ap (λ xs. take 10 content ++ xs) (continues block) ∙ take_append_drop 10 content in
      rw some_ (
        rw left (
          Reaches-bind _ rest (
            rw same_status (
              rw message_lem (
                rw (range_lem tag.page_size a b c d n content (record s { env = rest.board }))
                  (Reaches-pure rest.holds))))))

  -- what follows the first read
  after_first :
      (t : p.NfcTag) (a b c d n : ℕ) (content bytes : List ℕ) (s : State p)
      → IsBlock n content bytes
      → length bytes ≤ 1024
      → Leaves memory bytes
          (p.status_ok, a ∷ b ∷ c ∷ d ∷ 0x03 ∷ n ∷ take 10 content)
          s
          (read_mifare_ultralight_bytes 3 16 [] s)
      → Leaves memory bytes
          (p.status_ok, p.set_ndef_message (p.decode_ndef content) t)
          s
          (read_mifare_ultralight_tag t s)
  unfolding read_mifare_ultralight_tag
  after_first t a b c d n content bytes s block many first =
      let sizes : p.mifare_ultralight_page_size * p.mifare_ultralight_read_size ≡ 16 =
        rw tag.page_size (rw tag.read_size refl) in
      let s1 = record s { env = first.board } in
      let found : 4 ≤ length (take 10 content) =
        omega (arith, length-take 10 content (ten block)) in
      rw sizes (
        Reaches-bind _ first (
          rw same_status (
            rw (formatted_message tag.page_size a b c d n content s1 (ten block)) (
              rw (find_lem tag.page_size a b c d n (take 10 content) s1 found)
                (read_message_lem t a b c d n content bytes s1 first.holds block many)))))

  -- For a tag of at most 1024 bytes that keeps to its data sheet, and whose first data page begins a
  -- block with a message of 1 to 254 bytes: a read returns OK, and the tag with what is decoded from
  -- the bytes of the message, and for a message of fewer than 10 bytes from the bytes behind it too,
  -- up to ten bytes. The memory and the members of the driver are as before.
  pub read_mifare_ultralight_tag_lem :
      (t : p.NfcTag) (n : ℕ) (content bytes : List ℕ) (s : State p)
      → memory s.env ≡ bytes
      → IsBlock n content bytes
      → length bytes ≤ 1024
      → Leaves memory bytes
          (p.status_ok, p.set_ndef_message (p.decode_ndef content) t)
          s
          (read_mifare_ultralight_tag t s)
  read_mifare_ultralight_tag_lem t n content bytes s h block many =
      let first =
        read_mifare_ultralight_bytes_lem tag 3 16 [] bytes s h
          (omega (arith, block.room, ten block)) (omega (arith, block.room, ten block)) many in
      let (a, b, c, d, e) = four_lem (take 4 (drop 12 bytes)) (
        length-take 4 (drop 12 bytes)
          (omega (arith, length-drop 12 bytes, block.room, ten block))) in
      let pages = begins block ∙ ap (λ xs. xs ++ (0x03 ∷ n ∷ take 10 content)) e in
      after_first t a b c d n content bytes s block many
        (Reaches-value (ap (λ xs. (p.status_ok, xs)) pages) first)
