-- ===== src/Classic/Sectors.antt =====
-- The sector that a block of a MIFARE Classic tag belongs to.
-- the first block of a sector: 32 sectors of 4 blocks, then sectors of 16
use esphome_pn.Classic.{sect_to_auth}
use esphome_pn.Prelude.{
  ℕ, if◌then◌else◌, ltb, ◌≡◌, ◌*◌, ◌<◌, ◌≤◌, ◌+◌, ◌-◌, arith, Bool-cases, leb, inl, ◌/◌, ◌%◌, false,
  inr, true,
}
use esphome_pn.Platform.{Platform}

abbrev pub first_block : ℕ → ℕ
first_block sector = if ltb sector 32 then 4 * sector else 128 + 16 * (sector - 32)

-- the end of a sector, the last of the small ones too
next :
    {block : ℕ} (sector : ℕ)
    → sector < 32
    → block < 4 * sector + 4
    → block < first_block (sector + 1)
next sector l b = ground arith

module _ ⦃p : Platform⦄ where
  -- With 4 blocks in each of the first 32 sectors and 16 blocks in the others, the sector that
  -- `sect_to_auth_` names for a block below 256 is the one that the block lies in.
  sect_to_auth_lem :
      (block : ℕ)
      → p.mifare_classic_blocks_per_sect_low ≡ 4
      → p.mifare_classic_blocks_per_sect_high ≡ 16
      → p.mifare_classic_16block_sect_start ≡ 32
      → block < 256
      → (first_block (sect_to_auth block) ≤ block) × (block < first_block (sect_to_auth block + 1))
  unfolding sect_to_auth
  sect_to_auth_lem block low high start fits = rw low (
      rw high (
        rw start (elim (Bool-cases (leb 128 block)) [
          | inl large ↦
              let sector : ((block - 128) / 16 + 32) % 256 ≡ (block - 128) / 16 + 32 =
                omega arith in
              let high_sector : ltb ((block - 128) / 16 + 32) 32 ≡ false = ground arith in
              let next_sector : ltb ((block - 128) / 16 + 32 + 1) 32 ≡ false = ground arith in
              let from : 128 ≤ block = ground arith in
              rw large (rw sector (rw high_sector (rw next_sector (omega arith, omega arith))))
          | inr small ↦
              let below : block < 128 = ground arith in
              let sector : block / 4 % 256 ≡ block / 4 = omega arith in
              let low_sector : ltb (block / 4) 32 ≡ true = ground arith in
              rw small (
                rw sector
                  (rw low_sector (omega arith, next (block / 4) (omega arith) (omega arith))))
        ])))
