-- ===== src/Classic/Card.antt =====
-- The blocks of a MIFARE Classic card: what it answers, and the blocks that a message lies in.
pub mod Access
pub mod Loops
pub mod RoundTrip
use esphome_pn.Classic.{auth_request, xchg_data_oid, is_data_answer, mfc_authenticate_oid}
use esphome_pn.Transceive.Answered.{IsExchange}
use esphome_pn.Prelude.{
  ℕ, List, ◌<◌, ◌+◌, suc, ◌≤◌, length, [], ◌≡◌, if◌then◌else◌, arith, drop, false, ◌*◌, ◌++◌, ◌==◌,
  zero, ◌∷◌, true, some, take, eq→==, ◌∙◌, get_elem?, length-drop, refl, ap, take_append_drop,
}
use esphome_pn.Classic.Tag.{next_block}
use esphome_pn.Platform.{Platform}

-- a memory with other bytes in one block
abbrev pub update : (ℕ → List ℕ) → ℕ → List ℕ → ℕ → List ℕ
update m block block_data other = if other == block then block_data else m other

module _ ⦃p : Platform⦄ where
  -- The answer to an authentication with the first key and the key of NFC Forum cards.
  pub record IsOpened (memory : p.Env → ℕ → List ℕ) (opened : p.Env → ℕ → Type 0) (block : ℕ)
      (e : p.Env) : Type 0 where
    pub message : List ℕ
    pub board : p.Env
    pub exchange :
        IsExchange (auth_request block p.mifare_cmd_auth_a (some p.ndef_key)) message e board
    pub is_answer : is_data_answer mfc_authenticate_oid message ≡ true
    pub granted : get_elem? message 4 ≡ some p.status_ok
    pub same : memory board ≡ memory e
    pub opens : opened board block

  -- The answer to a request to read a block: its bytes between a header and a status.
  pub record IsBlockRead (memory : p.Env → ℕ → List ℕ) (opened : p.Env → ℕ → Type 0) (block : ℕ)
      (e : p.Env) : Type 0 where
    pub header : List ℕ
    pub status : ℕ
    pub board : p.Env
    pub sized : length header ≡ 4
    pub exchange :
        IsExchange
          (p.data_message p.nci_pkt_mt_data (xchg_data_oid ∷ p.mifare_cmd_read ∷ block ∷ []))
          (header ++ (memory e block ++ status ∷ []))
          e
          board
    pub is_answer : is_data_answer xchg_data_oid (header ++ (memory e block ++ status ∷ [])) ≡ true
    pub full : p.message_length_is (header ++ (memory e block ++ status ∷ [])) 18 ≡ true
    pub same : memory board ≡ memory e
    pub stays : opened board block

  -- The answers to a request to write a block and to its data.
  pub record IsBlockWritten (memory : p.Env → ℕ → List ℕ) (opened : p.Env → ℕ → Type 0) (block : ℕ)
      (block_data : List ℕ) (e : p.Env) : Type 0 where
    pub accepted : List ℕ
    pub between : p.Env
    pub request :
        IsExchange
          (p.data_message p.nci_pkt_mt_data (xchg_data_oid ∷ p.mifare_cmd_write ∷ block ∷ []))
          accepted
          e
          between
    pub message : List ℕ
    pub board : p.Env
    pub exchange :
        IsExchange
          (p.set_payload
              (p.data_message p.nci_pkt_mt_data (xchg_data_oid ∷ p.mifare_cmd_write ∷ block ∷ []))
              (xchg_data_oid ∷ [])
            ++ block_data)
          message
          between
          board
    pub is_answer : is_data_answer xchg_data_oid message ≡ true
    pub acknowledged : get_elem? message 4 ≡ some p.mifare_cmd_ack
    pub changed : memory board ≡ update (memory e) block block_data
    pub stays : opened board block

  -- A card of blocks of 16 bytes, formatted for NDEF messages, in the field of a controller that
  -- answers. `opened` are the blocks that the last authentication allows to access, which goes for
  -- a sector; the block behind a trailer is the first of a sector.
  pub record IsCard (memory : p.Env → ℕ → List ℕ) (opened : p.Env → ℕ → Type 0) : Type 0 where
    pub block_size : p.mifare_classic_block_size ≡ 16
    pub authenticating : (block : ℕ) (e : p.Env) → IsOpened memory opened block e
    pub reading : (block : ℕ) (e : p.Env) → opened e block → IsBlockRead memory opened block e
    pub writing :
        (block : ℕ) (block_data : List ℕ) (e : p.Env)
        → opened e block
        → p.mifare_classic_is_trailer_block block ≡ false
        → length block_data ≡ 16
        → IsBlockWritten memory opened block block_data e
    pub same_sector :
        (block : ℕ) (e : p.Env)
        → opened e block
        → p.mifare_classic_is_first_block (block + 1) ≡ false
        → opened e (block + 1)
    pub behind_trailer :
        (block : ℕ)
        → p.mifare_classic_is_trailer_block block ≡ true
        → (p.mifare_classic_is_first_block (block + 1) ≡ true)
          × (p.mifare_classic_is_trailer_block (block + 1) ≡ false)
    pub begins :
        (p.mifare_classic_is_first_block 4 ≡ true) × (p.mifare_classic_is_trailer_block 4 ≡ false)

  -- the bytes of as many data blocks, one behind the other
  abbrev pub gather : ℕ → ℕ → (ℕ → List ℕ) → List ℕ
  gather zero block m = []
  gather (suc rows) block m = m block ++ gather rows (next_block block) m

  -- the bytes laid into as many data blocks, one behind the other
  abbrev pub scatter : ℕ → ℕ → List ℕ → (ℕ → List ℕ) → ℕ → List ℕ
  scatter zero block bytes m = m
  scatter (suc rows) block bytes m =
      scatter rows (next_block block) (drop 16 bytes) (update m block (take 16 bytes))

  pub next_block-after :
      (block : ℕ) → block < 254 → (block < next_block block) × (next_block block ≤ block + 2)
  unfolding next_block
  next_block-after block l = ground arith

  -- what is laid behind a block leaves it
  scatter-before :
      (rows block other : ℕ) (bytes : List ℕ) (m : ℕ → List ℕ)
      → other < block
      → block + 2 * rows < 255
      → scatter rows block bytes m other ≡ m other
  scatter-before zero block other bytes m l small = refl
  scatter-before (suc rows) block other bytes m l small =
      let (after, near) = next_block-after block (omega arith) in
      let apart : (other == block) ≡ false = ground arith in
      scatter-before rows (next_block block) other (drop 16 bytes) (update m block (take 16 bytes))
        (omega arith) (omega arith)
      ∙ rw apart refl

  -- the first of the blocks
  pub scatter-first :
      (rows block : ℕ) (bytes : List ℕ) (m : ℕ → List ℕ)
      → 1 ≤ rows
      → block + 2 * rows < 255
      → scatter rows block bytes m block ≡ take 16 bytes
  scatter-first zero block bytes m l small = absurd (omega arith)
  scatter-first (suc rows) block bytes m l small =
      let (after, near) = next_block-after block (omega arith) in
      let same : (block == block) ≡ true = eq→== refl in
      scatter-before rows (next_block block) block (drop 16 bytes) (update m block (take 16 bytes))
        after (omega arith)
      ∙ rw same refl

  -- what was laid into the blocks is what they hold
  pub gather-scatter :
      (rows block : ℕ) (bytes : List ℕ) (m : ℕ → List ℕ)
      → block + 2 * rows < 255
      → length bytes ≡ 16 * rows
      → gather rows block (scatter rows block bytes m) ≡ bytes
  gather-scatter zero block [] m small size = refl
  gather-scatter zero block (x ∷ bytes) m small size = absurd (omega arith)
  gather-scatter (suc rows) block bytes m small size =
      let (after, near) = next_block-after block (omega arith) in
      let rest =
        gather-scatter rows (next_block block) (drop 16 bytes) (update m block (take 16 bytes))
          (omega arith) (omega (arith, length-drop 16 bytes)) in
      rw (scatter-first (suc rows) block bytes m (omega arith) small)
        (ap (λ xs. take 16 bytes ++ xs) rest)
      ∙ take_append_drop 16 bytes
