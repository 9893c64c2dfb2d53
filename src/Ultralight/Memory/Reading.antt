-- ===== src/Ultralight/Memory/Reading.antt =====
-- Reads of a tag's pages give the bytes that its memory holds.
use esphome_pn.Ultralight.Memory.Rounds.{
  take-sixteen, read_until_full_lem, keep_pages_lem, length-sixteen,
}
use esphome_pn.Driver.Reaches.{Reaches-pure, Reaches-value, Reaches-bind}
use esphome_pn.Transceive.Answered.{same_status}
use esphome_pn.Driver.{State, ok}
use esphome_pn.Ultralight.{
  read_until_full, read_rounds, read_increment, read_request, read_mifare_ultralight_bytes,
}
use esphome_pn.Ultralight.Memory.{IsTag, Leaves, IsRead, sixteen}
use esphome_pn.Platform.{Platform}
use esphome_pn.Prelude.{
  ℕ, List, ◌*◌, ◌≤◌, ◌≡◌, ◌+◌, length, ltb, ◌<◌, take, refl, drop, ◌++◌, false, ◌∷◌, arith, ◌-◌,
  ◌∙◌, [], dec_lt, suc, set_back, ◌%◌, true, ap, sym, drop-drop, zero, take-split, append-nil,
  append_assoc,
}

-- what a round adds, and what is left
round_bytes :
    (n from page : ℕ) (bytes : List ℕ)
    → page * 4 ≡ from
    → from + n ≤ length bytes
    → take n (sixteen bytes page) ++ take (n - 16) (drop (from + 16) bytes)
      ≡ take n (drop from bytes)
round_bytes n from page bytes e l =
    let here : take n (sixteen bytes page) ≡ take n (take 16 (drop from bytes)) =
      take-sixteen n page bytes (omega arith) ∙ ap (λ k. take n (take 16 (drop k bytes))) e in
    let later = sym (drop-drop 16 from bytes) in
    rw here (rw later (take-split n 16 (drop from bytes)))

round_pages :
    (i start_page num_bytes : ℕ) (pages bytes held : List ℕ)
    → held ≡ bytes
    → start_page * 4 + num_bytes ≤ length bytes
    → i * 16 < num_bytes
    → pages
        ++ take (num_bytes - i * 16) (sixteen held (i * 4 + start_page))
        ++ take (num_bytes - (i + 1) * 16) (drop (start_page * 4 + (i + 1) * 16) bytes)
      ≡ pages ++ take (num_bytes - i * 16) (drop (start_page * 4 + i * 16) bytes)
round_pages i start_page num_bytes pages bytes held h l more =
    let n = num_bytes - i * 16 in
    let from = start_page * 4 + i * 16 in
    let page = i * 4 + start_page in
    let left : num_bytes - (i + 1) * 16 ≡ n - 16 = omega arith in
    let next : start_page * 4 + (i + 1) * 16 ≡ from + 16 = omega arith in
    rw h (
      rw left (
        rw next (
          append_assoc pages (take n (sixteen bytes page)) (take (n - 16) (drop (from + 16) bytes))
          ∙ ap (λ xs. pages ++ xs) (round_bytes n from page bytes (omega arith) (omega arith)))))

module _ ⦃p : Platform⦄ {memory : p.Env → List ℕ} (tag : IsTag memory) where
  increment_lem : read_increment ≡ 16
  increment_lem = rw tag.page_size (rw tag.read_size refl)

  -- the answer to the request of a round
  round_lem :
      (start_page last : ℕ) (rx : List ℕ) (s : State p) (r : IsRead memory start_page last s.env)
      → read_until_full p.patience (set_back (read_request start_page) last) rx s
        ≡ ok
            (p.status_ok, r.header ++ (sixteen (memory s.env) last ++ r.status ∷ []))
            (record s { env = r.board })
  round_lem start_page last rx s r =
      let full : ltb
            (p.get_payload_size (r.header ++ (sixteen (memory s.env) last ++ r.status ∷ [])))
            read_increment
          ≡ false =
        rw r.full (rw increment_lem refl) in
      read_until_full_lem p.patience rx s tag.patient r.exchange full

  read_rounds_lem :
      (fuel i start_page num_bytes : ℕ) (rx pages bytes : List ℕ) (s : State p)
      → memory s.env ≡ bytes
      → num_bytes + 1 ≤ fuel + i
      → i ≤ num_bytes
      → start_page * 4 + num_bytes ≤ length bytes
      → 16 ≤ length bytes
      → length bytes ≤ 1024
      → Leaves memory bytes
          (p.status_ok, pages ++ take (num_bytes - i * 16) (drop (start_page * 4 + i * 16) bytes))
          s
          (read_rounds fuel i start_page num_bytes rx pages s)
  unfolding read_rounds
  read_rounds_lem zero i start_page num_bytes rx pages bytes s h f g l few many =
      absurd (omega arith)
  read_rounds_lem (suc fuel) i start_page num_bytes rx pages bytes s h f g l few many =
      let incr = increment_lem in
      elim (dec_lt (i * 16) num_bytes) [
        | no ended ↦
            let stop : ltb (i * read_increment) num_bytes ≡ false = rw incr (ground arith) in
            let all : num_bytes - i * 16 ≡ 0 = omega arith in
            rw stop (rw all (rw (append-nil pages) (Reaches-pure h)))
        | yes more ↦
            let go : ltb (i * read_increment) num_bytes ≡ true = rw incr (ground arith) in
            let page : (i * p.mifare_ultralight_read_size + start_page) % 256 ≡ i * 4 + start_page =
              ap (λ k. (i * k + start_page) % 256) tag.read_size ∙ omega arith in
            let r = tag.reading start_page (i * 4 + start_page) s.env (rw h (omega arith)) in
            rw go (
              rw page (
                Reaches-bind {P = λ e. memory e ≡ bytes} _
                  (record {
                    board = r.board;
                    returns = round_lem start_page (i * 4 + start_page) rx s r;
                    holds = r.same ∙ h;
                  })
                  (rw same_status (
                    Reaches-bind {P = λ e. memory e ≡ bytes} _
                      (record {
                        board = r.board;
                        returns =
                            keep_pages_lem i num_bytes r.header
                              (sixteen (memory s.env) (i * 4 + start_page)) r.status pages
                              (record s { env = r.board }) tag.page_size tag.read_size r.sized
                              (length-sixteen (memory s.env) (i * 4 + start_page) (rw h few)) more
                              (omega arith);
                        holds = r.same ∙ h;
                      })
                      (Reaches-value
                        (ap (λ xs. (p.status_ok, xs))
                          (round_pages i start_page num_bytes pages bytes (memory s.env) h l more))
                        (read_rounds_lem fuel (i + 1) start_page num_bytes _ _ bytes
                          (record s { env = r.board }) (r.same ∙ h) (omega arith) (omega arith) l
                          few many))))))
      ]

  -- For a tag of 16 to 1024 bytes that keeps to its data sheet: reading `num_bytes` bytes from a
  -- page on, not more than the tag has behind it, returns OK with these bytes of its memory behind
  -- the bytes that the vector had, however many rounds it takes. The memory and the members of the
  -- driver are as before.
  pub read_mifare_ultralight_bytes_lem :
      (start_page num_bytes : ℕ) (pages bytes : List ℕ) (s : State p)
      → memory s.env ≡ bytes
      → start_page * 4 + num_bytes ≤ length bytes
      → 16 ≤ length bytes
      → length bytes ≤ 1024
      → Leaves memory bytes
          (p.status_ok, pages ++ take num_bytes (drop (start_page * 4) bytes))
          s
          (read_mifare_ultralight_bytes start_page num_bytes pages s)
  unfolding read_mifare_ultralight_bytes
  read_mifare_ultralight_bytes_lem start_page num_bytes pages bytes s h l few many =
      let all : num_bytes - 0 * 16 ≡ num_bytes = omega arith in
      let from : start_page * 4 + 0 * 16 ≡ start_page * 4 = omega arith in
      Reaches-value
        (ap (λ n. (p.status_ok, pages ++ take n (drop (start_page * 4 + 0 * 16) bytes))) all
          ∙ ap (λ n. (p.status_ok, pages ++ take num_bytes (drop n bytes))) from)
        (read_rounds_lem (suc num_bytes) 0 start_page num_bytes p.new_message pages bytes s h
          (omega arith) (omega arith) l few many)
