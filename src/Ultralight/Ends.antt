-- ===== src/Ultralight/Ends.antt =====
-- The loop that writes a MIFARE Ultralight tag has rounds enough.
use esphome_pn.Transceive.Ends.{transceive-Ends}
use esphome_pn.Driver.Ends.{Ends, ends_rules, Ended, Ends-pure}
use esphome_pn.Driver.{State}
use esphome_pn.Prelude.{ℕ, List, ◌≤◌, ◌<◌, ◌+◌, suc, arith, Bool-cases, ltb, inl, inr, zero}
use esphome_pn.Ultralight.{write_mifare_ultralight_page, write_pages}
use esphome_pn.Platform.{Platform}

module _ ⦃p : Platform⦄ where
  write_page-Ends :
      (page : ℕ) (write_data : List ℕ) → Ends (write_mifare_ultralight_page page write_data)
  unfolding write_mifare_ultralight_page
  write_page-Ends page write_data = search (ends_rules, transceive-Ends) depth 12

  write_pages-Ends :
      (fuel index size page : ℕ) (encoded : List ℕ)
      → 1 ≤ p.mifare_ultralight_page_size
      → 1 ≤ fuel
      → size < index + fuel
      → Ends (write_pages fuel index size page encoded)
  unfolding write_pages
  write_pages-Ends zero index size page encoded step some_fuel enough = absurd (omega arith)
  write_pages-Ends (suc fuel) index size page encoded step some_fuel enough =
      elim (Bool-cases (ltb index size)) [
        | inl more ↦
            let rest : (q : ℕ)
                → Ends (write_pages fuel (index + p.mifare_ultralight_page_size) size q encoded) =
              λ q.
                write_pages-Ends fuel (index + p.mifare_ultralight_page_size) size q encoded step
                  (ground arith) (omega arith) in
            rw more (search (ends_rules, write_page-Ends, rest) depth 14)
        | inr done ↦ rw done (Ends-pure p.status_ok)
      ]

  -- With a page size of at least one, the loop that writes the pages of a MIFARE Ultralight tag, run
  -- with one round more than there are bytes, ends before it uses them up: it returns, or reads
  -- outside the buffer.
  write_pages-Ended :
      (size page : ℕ) (encoded : List ℕ) (s : State p)
      → 1 ≤ p.mifare_ultralight_page_size
      → Ended (write_pages (suc size) 0 size page encoded s)
  write_pages-Ended size page encoded s step =
      (write_pages-Ends (suc size) 0 size page encoded step (omega arith) (omega arith)).at s
