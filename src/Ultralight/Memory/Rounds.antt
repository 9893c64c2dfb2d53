-- ===== src/Ultralight/Memory/Rounds.antt =====
-- One round of the reading of a tag: the answer, and what is kept of it.
use esphome_pn.Transceive.{nfcc_default_timeout}
use esphome_pn.Driver.Reads.{range-ok}
use esphome_pn.Transceive.Answered.{IsExchange, exchanged, same_status}
use esphome_pn.Driver.{State, range, ok, ◌>>=◌, pure, and_then}
use esphome_pn.Ultralight.{keep_pages, read_until_full, read_increment}
use esphome_pn.Ultralight.Memory.{sixteen}
use esphome_pn.Platform.{Platform}
use esphome_pn.Prelude.{
  ℕ, List, ◌*◌, ◌≤◌, ◌≡◌, ◌+◌, length, if◌then◌else◌, ltb, ◌<◌, take, refl, drop, ◌++◌, false,
  length-take, ◌∷◌, length-drop, arith, ◌-◌, ◌∙◌, length-append, [], dec_lt, suc, ◌%◌, true,
  take-take, ap, take-append, drop-append, sym, dec_le, leb, zero, take_all,
}

pub length-sixteen :
    (bytes : List ℕ) (page : ℕ) → 16 ≤ length bytes → length (sixteen bytes page) ≡ 16
length-sixteen bytes page l =
    length-take 16 (drop (page * 4) bytes ++ bytes)
      (omega (arith, length-append (drop (page * 4) bytes) bytes))

-- as many bytes as there are up to the last page
pub take-sixteen :
    (n page : ℕ) (bytes : List ℕ)
    → page * 4 + n ≤ length bytes
    → take n (sixteen bytes page) ≡ take n (take 16 (drop (page * 4) bytes))
take-sixteen n page bytes l =
    let from = drop (page * 4) bytes in
    let size = length-drop (page * 4) bytes in
    elim (dec_lt n 16) [
      | yes h ↦
          take-take n 16 (from ++ bytes) (omega arith)
          ∙ take-append n from bytes (omega (arith, size))
          ∙ sym (take-take n 16 from (omega arith))
      | no h ↦ ap (take n) (take-append 16 from bytes (omega (arith, size)))
    ]

module _ ⦃p : Platform⦄ where
  pub read_until_full_lem :
      (fuel : ℕ) {tx m : List ℕ} {e : p.Env} (rx : List ℕ) (s : State p)
      → 1 ≤ fuel
      → IsExchange tx m s.env e
      → ltb (p.get_payload_size m) read_increment ≡ false
      → read_until_full fuel tx rx s ≡ ok (p.status_ok, m) (record s { env = e })
  unfolding read_until_full
  read_until_full_lem zero rx s patient x full = absurd (omega arith)
  read_until_full_lem (suc fuel) {tx = tx} rx s patient x full =
      rw (exchanged rx nfcc_default_timeout s x) (rw same_status (rw full refl))

  kept_bytes :
      (n : ℕ) (header bytes : List ℕ) (status : ℕ) (s : State p)
      → length bytes ≡ 16
      → n ≤ 16
      → range (header ++ (bytes ++ status ∷ [])) (length header) (length header + n) s
        ≡ ok (take n bytes) s
  kept_bytes n header bytes status s full small =
      let ends = length-append bytes (status ∷ []) in
      let size = length-append header (bytes ++ status ∷ []) in
      range-ok (header ++ (bytes ++ status ∷ [])) (length header) s n (omega (arith, ends, size))
      ∙ rw (drop-append header (bytes ++ status ∷ []))
          (ap (λ xs. ok xs s) (take-append n bytes (status ∷ []) (omega arith)))

  kept_lem :
      (n k : ℕ) (header bytes : List ℕ) (status : ℕ) (pages : List ℕ) (s : State p)
      → length header ≡ p.nci_pkt_header_size
      → length bytes ≡ 16
      → n ≤ 16
      → k + n ≡ 17
      → 1 ≤ n
      → (if ltb k (length (header ++ (bytes ++ status ∷ [])))
            then (do
              kept ←
                  range
                    (header ++ (bytes ++ status ∷ []))
                    p.nci_pkt_header_size
                    (length (header ++ (bytes ++ status ∷ [])) - k)
              pure (pages ++ kept))
            else pure pages)
          s
        ≡ ok (pages ++ take n bytes) s
  kept_lem n k header bytes status pages s sized full small cut some_ =
      let m = header ++ (bytes ++ status ∷ []) in
      let ends = length-append bytes (status ∷ []) in
      let size = length-append header (bytes ++ status ∷ []) in
      let inside : ltb k (length m) ≡ true = ground (arith, ends, size) in
      let stop : length m - k ≡ length header + n = omega (arith, ends, size) in
      let first = ap (λ j. range m j (length m - k) s) (sym sized) in
      let last = ap (λ j. range m (length header) j s) stop in
      rw inside (
        ap (λ o. and_then o (λ kept. pure (pages ++ kept)))
          (first ∙ last ∙ kept_bytes n header bytes status s full small))

  pub keep_pages_lem :
      (i num_bytes : ℕ) (header bytes : List ℕ) (status : ℕ) (pages : List ℕ) (s : State p)
      → p.mifare_ultralight_page_size ≡ 4
      → p.mifare_ultralight_read_size ≡ 4
      → length header ≡ p.nci_pkt_header_size
      → length bytes ≡ 16
      → i * 16 < num_bytes
      → num_bytes ≤ 1024
      → keep_pages i num_bytes (header ++ (bytes ++ status ∷ [])) pages s
        ≡ ok (pages ++ take (num_bytes - i * 16) bytes) s
  unfolding keep_pages
  keep_pages_lem i num_bytes header bytes status pages s page_size read_size sized full more small =
      let wraps : (i + 1) * 16 % 65536 ≡ (i + 1) * 16 = omega arith in
      elim (dec_le ((i + 1) * 16) num_bytes) [
        | yes h ↦
            let inside : leb ((i + 1) * 16) num_bytes ≡ true = ground arith in
            let all =
              take_all 16 bytes (omega arith)
              ∙ sym (take_all (num_bytes - i * 16) bytes (omega arith)) in
            rw page_size (
              rw read_size (
                rw wraps (
                  rw inside (
                    kept_lem 16 1 header bytes status pages s sized full (omega arith) refl
                      (omega arith)
                    ∙ ap (λ xs. ok (pages ++ xs) s) all))))
        | no h ↦
            let outside : leb ((i + 1) * 16) num_bytes ≡ false = ground arith in
            rw page_size (
              rw read_size (
                rw wraps (
                  rw outside (
                    kept_lem (num_bytes - i * 16) ((i + 1) * 16 - num_bytes + 1) header bytes status
                      pages s sized full (omega arith) (omega arith) (omega arith)))))
      ]
