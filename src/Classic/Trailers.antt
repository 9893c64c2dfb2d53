-- ===== src/Classic/Trailers.antt =====
-- Formatting a MIFARE Classic tag: the trailers of its sectors.
use esphome_pn.Classic.Blocks.{IsTraffic, write_block-Sends, auth_block-Sends}
use esphome_pn.Driver.Quiet.{Keeps}
use esphome_pn.Classic.{
  ndef_trailer, block_3_trailer, write_mifare_classic_block, block_1_data, trailer_buffer,
  block_2_data, blank_block, auth_mifare_classic_block, empty_ndef_message,
}
use esphome_pn.Driver.{M, State, pure}
use esphome_pn.Classic.Format.{
  format_mifare_classic_mifare, ndef_loop, format_mifare_classic_ndef, write_and_note, mifare_loop,
  format_sector,
}
use esphome_pn.Platform.{Platform}
use esphome_pn.Prelude.{
  List, ℕ, ◌≤◌, ◌%◌, ◌≡◌, some, none, ◌*◌, arith, ◌+◌, ◌⊎◌, suc, ◌<◌, inl, if◌then◌else◌, inr, ◌==◌,
  refl, false, not, true, dec_lt, zero,
}
use esphome_pn.Driver.Sends.{IsLog, Sends-bind, Sends, Sent, Sends-pure, sends_rules, Sends-if}

-- A block of the first 16 sectors, not the manufacturer's block 0; the last block of a sector is
-- written with a trailer.
abbrev pub OnFormat : (List ℕ → Type 0) → ℕ → List ℕ → Type 0
OnFormat Trailer block block_data =
    (1 ≤ block) × (block ≤ 63) × (block % 4 ≡ 3 → Trailer block_data)

module _ ⦃p : Platform⦄ {log : p.Env → List (List ℕ)} (logs : IsLog log)
    (Trailer : List ℕ → Type 0) where
  abbrev OnTag : {A : Type 0} → M p A → Type 0
  OnTag m = Sends log (IsTraffic (OnFormat Trailer)) m

  write_and_note-OnTag :
      (block : ℕ) (block_data : List ℕ) (status : ℕ)
      → OnFormat Trailer block block_data
      → OnTag (write_and_note block block_data status)
  unfolding write_and_note
  write_and_note-OnTag block block_data status q =
      Sends-bind (write_mifare_classic_block block block_data) _
        (write_block-Sends logs block block_data q) (λ written. Sends-pure _)

  -- the sector without its first block
  format_none-OnTag :
      (block : ℕ) (trailer : List ℕ) (status : ℕ)
      → block % 4 ≡ 0
      → block ≤ 60
      → Trailer trailer
      → OnTag (format_sector block none trailer status)
  unfolding format_sector
  format_none-OnTag block trailer status start inside fits =
      Sends-bind (write_and_note (block + 1) blank_block status) _
        (write_and_note-OnTag (block + 1) blank_block status
          (omega arith, omega arith, λ h. absurd (omega arith)))
        (λ status₁.
          Sends-bind (write_and_note (block + 2) blank_block status₁) _
            (write_and_note-OnTag (block + 2) blank_block status₁
              (omega arith, omega arith, λ h. absurd (omega arith)))
            (λ status₂.
              write_and_note-OnTag (block + 3) trailer status₂
                (omega arith, omega arith, λ h. fits)))

  format_some-OnTag :
      (block : ℕ) (first trailer : List ℕ) (status : ℕ)
      → block % 4 ≡ 0
      → 1 ≤ block
      → block ≤ 60
      → Trailer trailer
      → OnTag (format_sector block (some first) trailer status)
  unfolding format_sector
  format_some-OnTag block first trailer status start later inside fits =
      Sends-bind (write_and_note block first status) _
        (write_and_note-OnTag block first status (later, omega arith, λ h. absurd (omega arith)))
        (λ status₀. format_none-OnTag block trailer status₀ start inside fits)

  mifare_loop-OnTag :
      (n block status : ℕ)
      → block % 4 ≡ 0
      → n * 4 + block ≤ 64
      → Trailer trailer_buffer
      → OnTag (mifare_loop n block status)
  unfolding mifare_loop
  mifare_loop-OnTag zero block status start inside fits = Sends-pure status
  mifare_loop-OnTag (suc n) block status start inside fits =
      let next =
        λ (status' : ℕ). mifare_loop-OnTag n (block + 4) status' (omega arith) (omega arith) fits in
      Sends-bind (auth_mifare_classic_block (block + 3) p.mifare_cmd_auth_b (some p.default_key)) _
        (auth_block-Sends logs (block + 3) p.mifare_cmd_auth_b (some p.default_key))
        (λ auth.
          Sends-if (not (auth == p.status_ok)) (mifare_loop n (block + 4) status) _ (next status)
            (Sends-bind _ (mifare_loop n (block + 4)) (sector (dec_lt 0 block)) next))
    where
      sector :
          Dec (0 < block)
          → OnTag (
              format_sector block
                (if block == 0 then none else some blank_block)
                trailer_buffer
                status)
      sector (yes later) =
          let other : (block == 0) ≡ false = ground arith in
          rw other (
            format_some-OnTag block blank_block trailer_buffer status start later (omega arith)
              fits)
      sector (no first) =
          let zeroth : (block == 0) ≡ true = ground arith in
          rw zeroth (format_none-OnTag block trailer_buffer status start (omega arith) fits)

  ndef_loop-OnTag :
      (n block status : ℕ)
      → block % 4 ≡ 0
      → 1 ≤ block
      → n * 4 + block ≤ 64
      → Trailer ndef_trailer
      → OnTag (ndef_loop n block status)
  unfolding ndef_loop
  ndef_loop-OnTag zero block status start later inside fits = Sends-pure status
  ndef_loop-OnTag (suc n) block status start later inside fits =
      Sends-bind (auth_mifare_classic_block (block + 3) p.mifare_cmd_auth_b (some p.default_key)) _
        (auth_block-Sends logs (block + 3) p.mifare_cmd_auth_b (some p.default_key))
        (λ auth.
          Sends-if (not (auth == p.status_ok)) (pure p.status_failed) _ (Sends-pure p.status_failed)
            (Sends-bind _ (ndef_loop n (block + 4))
              (format_some-OnTag block (if block == 4 then empty_ndef_message else blank_block)
                ndef_trailer status start later (omega arith) fits)
              (λ status'.
                ndef_loop-OnTag n (block + 4) status' (omega arith) (omega arith) (omega arith)
                  fits)))

  format_ndef-OnTag :
      Trailer ndef_trailer → Trailer block_3_trailer → OnTag format_mifare_classic_ndef
  unfolding format_mifare_classic_ndef
  format_ndef-OnTag fits fits_3 =
      let first : OnTag (write_mifare_classic_block 1 block_1_data) =
        write_block-Sends logs 1 block_1_data
          (omega arith, omega arith, λ h. absurd (omega arith)) in
      let second : OnTag (write_mifare_classic_block 2 block_2_data) =
        write_block-Sends logs 2 block_2_data
          (omega arith, omega arith, λ h. absurd (omega arith)) in
      let third : OnTag (write_mifare_classic_block 3 block_3_trailer) =
        write_block-Sends logs 3 block_3_trailer (omega arith, omega arith, λ h. fits_3) in
      let rest : OnTag (ndef_loop 15 4 p.status_ok) =
        ndef_loop-OnTag 15 4 p.status_ok refl (omega arith) (omega arith) fits in
      search (sends_rules, auth_block-Sends logs) depth 20

module _ ⦃p : Platform⦄ {log : p.Env → List (List ℕ)} (logs : IsLog log) where
  -- Whatever the tag answers, all that the two ways to format a tag write on the bus are
  -- authentications, and the two parts of writes of the blocks 1 to 63, among which the last block of
  -- a sector is written with a trailer: `format_mifare_classic_mifare_` with its `trailer_buffer`,
  -- `format_mifare_classic_ndef_` with its `block_3_trailer` or its `ndef_trailer`.
  pub formats_write_trailers :
      (s : State p)
      → Keeps
          (λ s'. Sent log (IsTraffic (OnFormat (λ xs. xs ≡ trailer_buffer))) s.env s'.env)
          (format_mifare_classic_mifare s)
        × Keeps
            (λ s'.
              Sent log
                (IsTraffic (OnFormat (λ xs. (xs ≡ ndef_trailer) ⊎ (xs ≡ block_3_trailer))))
                s.env
                s'.env)
            (format_mifare_classic_ndef s)
  unfolding format_mifare_classic_mifare
  formats_write_trailers s = (
    (mifare_loop-OnTag logs (λ xs. xs ≡ trailer_buffer) 16 0 p.status_ok refl (omega arith) refl).at
        s,
    (format_ndef-OnTag logs (λ xs. (xs ≡ ndef_trailer) ⊎ (xs ≡ block_3_trailer)) (inl refl)
          (inr refl)).at
        s,
  )
