-- ===== src/Ultralight/Memory.antt =====
-- The memory of a MIFARE Ultralight tag: what it answers, and what a call leaves.
mod Rounds
pub mod Block
pub mod Reading
pub mod Writing
pub mod Tag
pub mod RoundTrip
use esphome_pn.Driver.Reaches.{Reaches}
use esphome_pn.Transceive.{nfcc_default_timeout}
use esphome_pn.Driver.Reads.{range-ok}
use esphome_pn.Driver.{State, range, ok, ◌>>=◌, pure, and_then, Outcome, M}
use esphome_pn.Transceive.Answered.{IsExchange, exchanged, same_status}
use esphome_pn.Prelude.{
  ℕ, List, ◌≤◌, ◌≡◌, length, take, ◌*◌, ◌∷◌, ◌++◌, ltb, length-take, ◌+◌, drop, ◌<◌, length-drop,
  put, [], if◌then◌else◌, arith, false, dec_lt, length-append, set_back, ◌-◌, take-take, suc, ◌%◌,
  ◌∙◌, true, take-append, drop-append, ap, sym, zero, refl, dec_le, leb, take_all, subst, drop,
  take, resize, length, length, resize, take, drop,
}
use esphome_pn.Ultralight.{read_until_full, keep_pages, read_increment, read_request}
use esphome_pn.Platform.{Platform}

-- the bytes of the pages from `page` on; behind the last page the tag goes on with the first
abbrev pub sixteen : List ℕ → ℕ → List ℕ
sixteen bytes page = take 16 (drop (page * 4) bytes ++ bytes)

module _ ⦃p : Platform⦄ where
  -- The tag's answer to a request to read the pages from `last` on: the bytes of four pages between
  -- a header and a status. It leaves the memory as it is.
  pub record IsRead (memory : p.Env → List ℕ) (page last : ℕ) (e : p.Env) : Type 0 where
    pub header : List ℕ
    pub status : ℕ
    pub board : p.Env
    pub sized : length header ≡ p.nci_pkt_header_size
    pub full : p.get_payload_size (header ++ (sixteen (memory e) last ++ status ∷ [])) ≡ 17
    pub exchange :
        IsExchange
          (set_back (read_request page) last)
          (header ++ (sixteen (memory e) last ++ status ∷ []))
          e
          board
    pub same : memory board ≡ memory e

  -- The tag's answer to a request to write a page.
  pub record IsWritten (memory : p.Env → List ℕ) (page : ℕ) (page_data : List ℕ) (e : p.Env)
      : Type 0 where
    pub message : List ℕ
    pub board : p.Env
    pub exchange :
        IsExchange
          (p.data_message p.nci_pkt_mt_data (p.mifare_cmd_write_ultralight ∷ page ∷ page_data))
          message
          e
          board
    pub changed : memory board ≡ put (memory e) (page * 4) page_data

  -- A tag of 4 bytes a page, four pages of which are read at once, in the field of a controller
  -- that answers. The data starts at page 4.
  pub record IsTag (memory : p.Env → List ℕ) : Type 0 where
    pub page_size : p.mifare_ultralight_page_size ≡ 4
    pub read_size : p.mifare_ultralight_read_size ≡ 4
    pub data_start : p.mifare_ultralight_data_start_page ≡ 4
    pub patient : 1 ≤ p.patience
    pub reading :
        (page last : ℕ) (e : p.Env) → last * 4 < length (memory e) → IsRead memory page last e
    pub writing :
        (page : ℕ) (page_data : List ℕ) (e : p.Env)
        → 4 ≤ page
        → length page_data ≡ 4
        → page * 4 + 4 ≤ length (memory e)
        → IsWritten memory page page_data e

  -- A call that returns `a`, changes no member of the driver, and leaves `bytes` in the tag.
  abbrev pub Leaves :
      {A : Type 0} (memory : p.Env → List ℕ) (bytes : List ℕ) (a : A) (s : State p)
      → Outcome p A
      → Type 0
  Leaves memory bytes a s o = Reaches (λ e. memory e ≡ bytes) a s o
