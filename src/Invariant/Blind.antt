-- ===== src/Invariant/Blind.antt =====
-- A property that is not about the table of endpoints is kept by what works on the table.
use esphome_pn.Driver.Stays.{Stays, Stays-pass, stays_rules}
use esphome_pn.Classic.Quiet.{halt_mifare_classic_tag-IsQuiet}
use esphome_pn.Driver.Quiet.{IsQuiet-millis, IsQuiet-element, IsQuiet-emit}
use esphome_pn.Endpoints.Quiet.{find_tag_uid-IsQuiet, emit_all-IsQuiet}
use esphome_pn.Messages.Quiet.{
  read_endpoint_data-IsQuiet, clean_endpoint-IsQuiet, format_endpoint-IsQuiet,
  write_endpoint-IsQuiet,
}
use esphome_pn.Driver.{Task, ep_clean, ep_format, ep_write, ep_read, Device}
use esphome_pn.Messages.{
  work_on_tag, run_task, write_task, read_task, remember_endpoint, refresh_or_add,
}
use esphome_pn.Endpoints.{Endpoint}
use esphome_pn.Prelude.{List, ℕ, Option, some, none}
use esphome_pn.Driver.Core.{Core, core}
use esphome_pn.Platform.{Platform}

module _ ⦃p : Platform⦄ {R : Core p → Type 0}
    (blind : (d : Device p) (xs : List Endpoint)
      → R (core d)
      → R (core (record d { discovered_endpoint = xs }))) where
  refresh_or_add-Stays :
      (i protocol : ℕ) (tag : p.NfcTag) (found : Option ℕ)
      → Stays R (refresh_or_add i protocol tag found)
  unfolding refresh_or_add
  refresh_or_add-Stays i protocol tag none = search (stays_rules, IsQuiet-millis) depth 10
  refresh_or_add-Stays i protocol tag (some loc) =
      search (stays_rules, IsQuiet-millis, IsQuiet-element) depth 10

  pub remember_endpoint-Stays :
      (i protocol : ℕ) (tag : p.NfcTag) → Stays R (remember_endpoint i protocol tag)
  unfolding remember_endpoint
  remember_endpoint-Stays i protocol tag =
      search (stays_rules, find_tag_uid-IsQuiet, refresh_or_add-Stays) depth 10

  write_task-Stays :
      (uid : List ℕ) (message : Option p.NdefMessage) → Stays R (write_task uid message)
  unfolding write_task
  write_task-Stays uid none = Stays-pass
  write_task-Stays uid (some message) =
      search (stays_rules, format_endpoint-IsQuiet, write_endpoint-IsQuiet, IsQuiet-emit) depth 14

  read_task-Stays : (loc : ℕ) (x : Endpoint) → Stays R (read_task loc x)
  unfolding read_task
  read_task-Stays loc x =
      search (stays_rules, blind, read_endpoint_data-IsQuiet, emit_all-IsQuiet) depth 16

  run_task-Stays : (task : Task) (loc : ℕ) (x : Endpoint) → Stays R (run_task task loc x)
  unfolding run_task
  run_task-Stays ep_clean loc x = search (stays_rules, clean_endpoint-IsQuiet) depth 10
  run_task-Stays ep_format loc x = search (stays_rules, format_endpoint-IsQuiet) depth 10
  run_task-Stays ep_write loc x = search (stays_rules, write_task-Stays) depth 10
  run_task-Stays ep_read loc x = search (stays_rules, read_task-Stays) depth 10

  pub work_on_tag-Stays :
      (i protocol : ℕ) (tag : Option p.NfcTag) → Stays R (work_on_tag i protocol tag)
  unfolding work_on_tag
  work_on_tag-Stays i protocol none = Stays-pass
  work_on_tag-Stays i protocol (some tag) =
      search
        (
          stays_rules, remember_endpoint-Stays, run_task-Stays, IsQuiet-element,
          halt_mifare_classic_tag-IsQuiet,
        )
        depth 20
