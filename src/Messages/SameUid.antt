-- ===== src/Messages/SameUid.antt =====
-- Reading a tag does not change its UID.
use esphome_pn.Driver.Gives.{Gives, gives_rules}
use esphome_pn.Messages.{read_endpoint_data}
use esphome_pn.Classic.Tag.{read_mifare_classic_tag, finish_read, read_announced}
use esphome_pn.Ultralight.{read_mifare_ultralight_tag, read_message}
use esphome_pn.Prelude.{◌≡◌, ℕ, List, Option, some, none}
use esphome_pn.Platform.{Platform}

module _ ⦃p : Platform⦄
    (same_uid : (m : p.NdefMessage) (tag : p.NfcTag)
      → p.get_uid (p.set_ndef_message m tag) ≡ p.get_uid tag) where
  abbrev pub SameUid : p.NfcTag → ℕ × p.NfcTag → Type 0
  SameUid tag (status, tag') = p.get_uid tag' ≡ p.get_uid tag

  finish_read-SameUid :
      (tag : p.NfcTag) (start : ℕ) (r : ℕ × List ℕ)
      → Gives {p = p} (SameUid tag) (finish_read tag start r)
  unfolding finish_read
  finish_read-SameUid tag start (status, buffer) = search (gives_rules, same_uid)

  read_announced-SameUid :
      (tag : p.NfcTag) (found : Option (ℕ × ℕ))
      → Gives {p = p} (SameUid tag) (read_announced tag found)
  unfolding read_announced
  read_announced-SameUid tag none = search gives_rules
  read_announced-SameUid tag (some (n, start)) = search (gives_rules, finish_read-SameUid)

  classic-SameUid : (tag : p.NfcTag) → Gives {p = p} (SameUid tag) (read_mifare_classic_tag tag)
  unfolding read_mifare_classic_tag
  classic-SameUid tag = search (gives_rules, read_announced-SameUid) depth 14

  read_message-SameUid :
      (tag : p.NfcTag) (pages : List ℕ) (found : Option (ℕ × ℕ))
      → Gives {p = p} (SameUid tag) (read_message tag pages found)
  unfolding read_message
  read_message-SameUid tag pages none = search gives_rules
  read_message-SameUid tag pages (some (n, start)) = search (gives_rules, same_uid) depth 14

  ultralight-SameUid :
      (tag : p.NfcTag) → Gives {p = p} (SameUid tag) (read_mifare_ultralight_tag tag)
  unfolding read_mifare_ultralight_tag
  ultralight-SameUid tag = search (gives_rules, read_message-SameUid) depth 14

  pub read_endpoint_data-SameUid :
      (tag : p.NfcTag) → Gives {p = p} (SameUid tag) (read_endpoint_data tag)
  unfolding read_endpoint_data
  read_endpoint_data-SameUid tag =
      search (gives_rules, classic-SameUid, ultralight-SameUid) depth 10
