-- ===== src/Classic/Card/Access.antt =====
-- Authentication, and one block read or written, on a card that answers.
use esphome_pn.Driver.Reads.{range-ok}
use esphome_pn.Transceive.{nfcc_default_timeout, nfcc_tag_write_timeout}
use esphome_pn.Transceive.Answered.{exchanged, same_status}
use esphome_pn.Driver.Reaches.{Reaches, Reaches-pure}
use esphome_pn.Classic.Tag.{next_block, auth_if_first}
use esphome_pn.Driver.{State, range, ok}
use esphome_pn.Classic.{
  auth_mifare_classic_block, read_mifare_classic_block, write_mifare_classic_block,
}
use esphome_pn.Classic.Card.{IsCard, update}
use esphome_pn.Prelude.{
  ℕ, List, ◌≡◌, ◌<◌, false, length, ◌+◌, [], some, Bool-cases, ◌%◌, inl, ◌==◌, ◌++◌, ◌∷◌, true,
  arith, inr, false≢true, eq→==, ◌-◌, ap, sym, ◌∙◌, length-append, refl, append-nil, drop,
  drop-append, take, take-append, take_all,
}
use esphome_pn.Platform.{Platform}

module _ ⦃p : Platform⦄ {memory : p.Env → ℕ → List ℕ} {opened : p.Env → ℕ → Type 0}
    (card : IsCard memory opened) where
  -- A board on which a block may be accessed, at the latest after `auth_if_first`.
  pub record IsAt (block : ℕ) (e : p.Env) : Type 0 where
    pub off_trailer : p.mifare_classic_is_trailer_block block ≡ false
    pub ready : p.mifare_classic_is_first_block block ≡ false → opened e block

  -- the board as it is after an access to the block
  abbrev pub Holding : (ℕ → List ℕ) → ℕ → p.Env → Type 0
  Holding m block e = (memory e ≡ m) × opened e block

  pub auth_lem :
      (block : ℕ) (m : ℕ → List ℕ) (s : State p)
      → memory s.env ≡ m
      → Reaches
          (Holding m block)
          p.status_ok
          s
          (auth_mifare_classic_block block p.mifare_cmd_auth_a (some p.ndef_key) s)
  unfolding auth_mifare_classic_block
  auth_lem block m s h =
      let o = card.authenticating block s.env in
      rw (exchanged p.new_message nfcc_default_timeout s o.exchange) (
        rw same_status (
          rw o.is_answer (
            rw o.granted (
              rw same_status
                (record { board = o.board; returns = refl; holds = (o.same ∙ h, o.opens) })))))

  pub auth_if_first_lem :
      (block : ℕ) (m : ℕ → List ℕ) (s : State p)
      → memory s.env ≡ m
      → IsAt block s.env
      → Reaches (Holding m block) p.status_ok s (auth_if_first block s)
  unfolding auth_if_first
  auth_if_first_lem block m s h at_ = elim (Bool-cases (p.mifare_classic_is_first_block block)) [
    | inl first ↦ rw first (auth_lem block m s h)
    | inr inside ↦ rw inside (Reaches-pure (h, at_.ready inside))
  ]

  block_bytes :
      (header bytes : List ℕ) (status : ℕ) (s : State p)
      → length header ≡ 4
      → range (header ++ (bytes ++ status ∷ [])) 4 (length (header ++ (bytes ++ status ∷ [])) - 1) s
        ≡ ok bytes s
  block_bytes header bytes status s sized =
      let m = header ++ (bytes ++ status ∷ []) in
      let ends = length-append bytes (status ∷ []) in
      let size = length-append header (bytes ++ status ∷ []) in
      let stop : length m - 1 ≡ 4 + length bytes = omega (arith, ends, size) in
      let from : drop 4 m ≡ bytes ++ status ∷ [] =
        ap (λ k. drop k m) (sym sized) ∙ drop-append header (bytes ++ status ∷ []) in
      ap (λ j. range m 4 j s) stop
      ∙ range-ok m 4 s (length bytes) (omega (arith, ends, size))
      ∙ ap (λ xs. ok (take (length bytes) xs) s) from
      ∙ ap (λ xs. ok xs s)
          (take-append (length bytes) bytes (status ∷ []) (omega arith)
            ∙ take_all (length bytes) bytes (omega arith))

  pub read_block_lem :
      (block : ℕ) (m : ℕ → List ℕ) (s : State p)
      → Holding m block s.env
      → Reaches (Holding m block) (p.status_ok, m block) s (read_mifare_classic_block block [] s)
  unfolding read_mifare_classic_block
  read_block_lem block m s h =
      let r = card.reading block s.env h.1 in
      let bytes = memory s.env block in
      let s1 = record s { env = r.board } in
      rw (exchanged p.new_message nfcc_default_timeout s r.exchange) (
        rw same_status (
          rw r.is_answer (
            rw r.full (
              rw (block_bytes r.header bytes r.status s1 r.sized) (record {
                board = r.board;
                returns =
                    ap (λ xs. ok (p.status_ok, xs) s1)
                      (append-nil bytes ∙ ap (λ held. held block) h.0);
                holds = (r.same ∙ h.0, r.stays);
              })))))

  pub write_block_lem :
      (block : ℕ) (block_data : List ℕ) (m : ℕ → List ℕ) (s : State p)
      → Holding m block s.env
      → p.mifare_classic_is_trailer_block block ≡ false
      → length block_data ≡ 16
      → Reaches
          (Holding (update m block block_data) block)
          p.status_ok
          s
          (write_mifare_classic_block block block_data s)
  unfolding write_mifare_classic_block
  write_block_lem block block_data m s h off size =
      let w = card.writing block block_data s.env h.1 off size in
      let ack : (p.mifare_cmd_ack == p.mifare_cmd_ack) ≡ true = eq→== refl in
      rw (exchanged p.new_message nfcc_default_timeout s w.request) (
        rw same_status (
          rw (exchanged w.accepted nfcc_tag_write_timeout (record s { env = w.between }) w.exchange)
            (rw same_status (
              rw w.is_answer (
                rw w.acknowledged (
                  rw ack (record {
                    board = w.board;
                    returns = refl;
                    holds = (w.changed ∙ ap (λ held. update held block block_data) h.0, w.stays);
                  })))))))

  -- the board is fit for the block after this one
  pub next_block-IsAt :
      (block : ℕ) (e : p.Env) → block < 254 → opened e block → IsAt (next_block block) e
  unfolding next_block
  next_block-IsAt block e l o =
      let one : (block + 1) % 256 ≡ block + 1 = omega arith in
      let two : (block + 1 + 1) % 256 ≡ block + 1 + 1 = omega arith in
      elim (Bool-cases (p.mifare_classic_is_trailer_block (block + 1))) [
        | inl trailer ↦
            let (first, off) = card.behind_trailer (block + 1) trailer in
            rw one (
              rw trailer (
                rw two (record {
                  off_trailer = off;
                  ready = λ inside. absurd (false≢true (sym inside ∙ first));
                })))
        | inr off ↦
            rw one (rw off (record { off_trailer = off; ready = card.same_sector block e o }))
      ]
