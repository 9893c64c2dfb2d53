-- ===== src/CardEmulation/Files.antt =====
-- What a reader gets of the two files of the emulated tag.
use esphome_pn.Driver.Reads.{range-ok, range-fault}
use esphome_pn.Driver.{State, ok, fault, range}
use esphome_pn.Prelude.{
  ℕ, ◌≡◌, if◌then◌else◌, leb, ◌+◌, take, drop, ◌++◌, [], Bool-cases, inl, true, arith, inr, false,
  refl, List, length, ◌/◌, ◌<◌, ◌≤◌, ◌∷◌, ◌%◌, suc, zero, ◌==◌, ◌-◌, ap, ltb, ◌∙◌,
}
use esphome_pn.CardEmulation.{read_cc, card_emu_t4t_cc, card_emu_t4t_ok, read_ndef, ndef_part}
use esphome_pn.Platform.{Platform, emulated_tag_scan}

module _ ⦃p : Platform⦄ where
  -- A read of the capability container is right as long as it ends within the fifteen bytes. Past
  -- them it is refused only if it is longer than the offset and seventeen bytes; any other is a
  -- read behind the end of the array.
  pub read_cc_cases :
      (offset n : ℕ) (s : State p)
      → read_cc (offset, n) s ≡ (
          if leb (offset + n) 15
          then ok (take n (drop offset card_emu_t4t_cc) ++ card_emu_t4t_ok) s
          else if leb n (offset + 17)
          then fault
          else ok [] s)
  unfolding read_cc
  read_cc_cases offset n s = elim (Bool-cases (leb (offset + n) 15)) [
    | inl inside ↦
        let fits : leb n (15 + offset + 2) ≡ true = ground arith in
        rw inside (rw fits (rw (range-ok card_emu_t4t_cc offset s n (ground arith)) refl))
    | inr outside ↦ elim (Bool-cases (leb n (offset + 17))) [
      | inl allowed ↦
          let fits : leb n (15 + offset + 2) ≡ true = ground arith in
          rw outside (
            rw allowed (
              rw fits (rw (range-fault card_emu_t4t_cc offset s (offset + n) (ground arith)) refl)))
      | inr refused ↦
          let long : leb n (15 + offset + 2) ≡ false = ground arith in
          rw outside (rw refused (rw long refl))
    ]
  ]

  -- the NDEF file: the length of the message in two bytes, and the message
  abbrev pub ndef_file : List ℕ → List ℕ
  ndef_file ndef_message = length ndef_message / 256 ∷ length ndef_message % 256 ∷ ndef_message

  -- the board after a read of `n` bytes at `offset`: a read up to the end of the file is reported
  abbrev pub after_read : List ℕ → ℕ → ℕ → State p → State p
  after_read ndef_message offset n s =
      if leb (length ndef_message + 2) (offset + n)
      then record s { env = p.emit emulated_tag_scan s.env }
      else s

  -- the length of a message that fits, as the code computes it
  size_lem :
      (ndef_message : List ℕ)
      → length ndef_message < 65536
      → length ndef_message % 65536 ≡ length ndef_message
  size_lem ndef_message l = omega arith

  ndef_part_start :
      (ndef_message : List ℕ) (offset n : ℕ) (s : State p)
      → length ndef_message < 65536
      → offset ≤ 1
      → 2 ≤ n
      → offset + n ≤ length ndef_message + 2
      → ndef_part ndef_message offset n s ≡ ok (take n (drop offset (ndef_file ndef_message))) s
  unfolding ndef_part
  ndef_part_start m zero (suc (suc zero)) s l o t e = rw (size_lem m l) refl
  ndef_part_start m zero (suc (suc (suc n))) s l o t e =
      let size : suc (suc (suc n)) - 2 ≡ 0 + suc n = omega arith in
      let more : ltb 2 (suc (suc (suc n))) ≡ true = ground arith in
      rw (size_lem m l) (rw more (rw size (rw (range-ok m 0 s (suc n) (omega arith)) refl)))
  ndef_part_start m (suc zero) (suc (suc n)) s l o t e =
      let size : suc (suc n) - 1 ≡ 0 + suc n = omega arith in
      let more : ltb 1 (suc (suc n)) ≡ true = ground arith in
      rw (size_lem m l) (rw more (rw size (rw (range-ok m 0 s (suc n) (omega arith)) refl)))
  ndef_part_start m (suc (suc offset)) n s l o t e = absurd (omega arith)
  ndef_part_start m zero zero s l o t e = absurd (omega arith)
  ndef_part_start m zero (suc zero) s l o t e = absurd (omega arith)
  ndef_part_start m (suc zero) zero s l o t e = absurd (omega arith)
  ndef_part_start m (suc zero) (suc zero) s l o t e = absurd (omega arith)

  ndef_part_rest :
      (ndef_message : List ℕ) (offset n : ℕ) (s : State p)
      → 2 ≤ offset
      → n ≤ length ndef_message
      → ndef_part ndef_message offset n s ≡ ok (take n ndef_message) s
  unfolding ndef_part
  ndef_part_rest m offset n s o e =
      let size : n ≡ 0 + n = omega arith in
      let first : (offset == 0) ≡ false = ground arith in
      let second : (offset == 1) ≡ false = ground arith in
      rw first (rw second (ap (λ k. range m 0 k s) size ∙ range-ok m 0 s n (omega arith)))

  -- the tests around the part that is read
  read_ndef_of_part :
      (ndef_message part : List ℕ) (offset n : ℕ) (s : State p)
      → length ndef_message < 65536
      → n ≤ length ndef_message + offset + 2
      → ndef_part ndef_message offset n s ≡ ok part s
      → read_ndef ndef_message (offset, n) s
        ≡ ok (part ++ card_emu_t4t_ok) (after_read ndef_message offset n s)
  unfolding read_ndef
  read_ndef_of_part m part offset n s l e read =
      let allowed : leb n (length m + offset + 2) ≡ true = ground arith in
      rw (size_lem m l) (
        rw allowed (
          rw read (elim (Bool-cases (leb (length m + 2) (offset + n))) [
            | inl end ↦ rw end refl
            | inr inner ↦ rw inner refl
          ])))

  -- For a message of fewer than 65536 bytes, a read of at least two bytes of the NDEF file that
  -- begins at its first or second byte and ends within the file returns that part of the file and
  -- 90 00, and is reported to the firmware exactly if it goes up to the end.
  pub read_ndef_start :
      (ndef_message : List ℕ) (offset n : ℕ) (s : State p)
      → length ndef_message < 65536
      → offset ≤ 1
      → 2 ≤ n
      → offset + n ≤ length ndef_message + 2
      → read_ndef ndef_message (offset, n) s
        ≡ ok
            (take n (drop offset (ndef_file ndef_message)) ++ card_emu_t4t_ok)
            (after_read ndef_message offset n s)
  read_ndef_start ndef_message offset n s l o t e =
      read_ndef_of_part ndef_message (take n (drop offset (ndef_file ndef_message))) offset n s l
        (omega arith) (ndef_part_start ndef_message offset n s l o t e)

  -- For a message of fewer than 65536 bytes, a read of the NDEF file from its third byte on, of no
  -- more bytes than the message has, returns the first bytes of the message and 90 00, wherever it
  -- begins; it is reported if it goes up to the end.
  pub read_ndef_rest :
      (ndef_message : List ℕ) (offset n : ℕ) (s : State p)
      → length ndef_message < 65536
      → 2 ≤ offset
      → n ≤ length ndef_message
      → read_ndef ndef_message (offset, n) s
        ≡ ok (take n ndef_message ++ card_emu_t4t_ok) (after_read ndef_message offset n s)
  read_ndef_rest ndef_message offset n s l o e =
      read_ndef_of_part ndef_message (take n ndef_message) offset n s l (omega arith)
        (ndef_part_rest ndef_message offset n s o e)
