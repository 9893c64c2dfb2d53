-- ===== src/Modes.antt =====
-- What a user calls: the emulation and polling switches, the task of the next tag, the messages and
-- `set_test_mode` of components/pn7160/pn7160.cpp.
pub mod Tracked
pub mod Stays
use esphome_pn.Transceive.{transceive, nfcc_init_timeout}
use esphome_pn.Config.{reset_core, init_core}
use esphome_pn.States.{nci_fsm_set_state, nci_fsm_set_error_state}
use esphome_pn.Driver.{
  Device, M, ep_format, ep_clean, ◌>>=◌, ep_write, nfcc_reset, ◌>>◌, pure, nfcc_init, test, range,
}
use esphome_pn.Prelude.{
  Option, ℕ, Bool, List, if◌then◌else◌, false, some, true, not, none, ◌==◌, [], length,
}
use esphome_pn.Platform.{Platform}

pub data TestMode : Type 0 where
  test_none test_prbs test_antenna test_get_register : TestMode

abbrev pub is_some : {A : Type 0} → Option A → Bool
is_some none = false
is_some (some a) = true

-- `!x.has_value() || x.value()`
abbrev pub true_or_absent : Option Bool → Bool
true_or_absent none = true
true_or_absent (some b) = b

abbrev pub test_oid : TestMode → ℕ
test_oid test_antenna = 0x3D
test_oid test_get_register = 0x33
test_oid _ = 0x30

module _ ⦃p : Platform⦄ where
  unfoldable pub set_tag_emulation_off : Device p → Device p
  set_tag_emulation_off d =
      if d.listening_enabled
      then record d { listening_enabled = false; config_refresh_pending = true }
      else d

  unfoldable pub set_tag_emulation_on : Device p → Device p
  set_tag_emulation_on d =
      if not (is_some d.card_emulation_message)
      then d
      else if not d.listening_enabled
      then record d { listening_enabled = true; config_refresh_pending = true }
      else d

  unfoldable pub set_polling_off : Device p → Device p
  set_polling_off d =
      if d.polling_enabled
      then record d { polling_enabled = false; config_refresh_pending = true }
      else d

  unfoldable pub set_polling_on : Device p → Device p
  set_polling_on d =
      if not d.polling_enabled
      then record d { polling_enabled = true; config_refresh_pending = true }
      else d

  unfoldable pub clean_mode : Device p → Device p
  clean_mode d = record d { next_task = ep_clean }

  unfoldable pub format_mode : Device p → Device p
  format_mode d = record d { next_task = ep_format }

  unfoldable pub write_mode : Device p → Device p
  write_mode d =
      if not (is_some d.next_task_message_to_write) then d else record d { next_task = ep_write }

  -- the message of a text, with the record that starts the phone's app unless it is not wanted
  abbrev pub message_of : List ℕ → Option Bool → p.NdefMessage
  message_of text include_android_app_record =
      let ndef_message = p.add_uri_record text p.empty_ndef in
      if true_or_absent include_android_app_record
      then p.add_record p.tnf_external_type p.ha_tag_id_ext_record_type
          p.ha_tag_id_ext_record_payload ndef_message
      else ndef_message

  unfoldable pub set_tag_emulation_message : Option (List ℕ) → Option Bool → Device p → Device p
  set_tag_emulation_message none include_app d = d
  set_tag_emulation_message (some text) include_app d = record d {
    card_emulation_message = some (message_of text include_app);
  }

  unfoldable pub set_tag_write_message : Option (List ℕ) → Option Bool → Device p → Device p
  set_tag_write_message none include_app d = d
  set_tag_write_message (some text) include_app d = record d {
    next_task_message_to_write = some (message_of text include_app);
  }

  -- the overloads that take a message, or a text that is always there
  unfoldable pub set_tag_emulation_ndef : Option p.NdefMessage → Device p → Device p
  set_tag_emulation_ndef message d = record d { card_emulation_message = message }

  unfoldable pub set_tag_emulation_text : List ℕ → Bool → Device p → Device p
  unfolding set_tag_emulation_message
  set_tag_emulation_text message include_app d =
      set_tag_emulation_message (some message) (some include_app) d

  unfoldable pub set_tag_write_ndef : Option p.NdefMessage → Device p → Device p
  set_tag_write_ndef message d = record d { next_task_message_to_write = message }

  -- The status, and what the call leaves in `result`.
  unfoldable pub start_test : TestMode → List ℕ → List ℕ → M p (ℕ × List ℕ)
  start_test test_mode payload result = do
    reset ← reset_core true true
    if not (reset == p.status_ok)
        then (nci_fsm_set_error_state nfcc_reset >> pure (p.status_failed, []))
        else (do
          nci_fsm_set_state nfcc_init
          init ← init_core
          if not (init == p.status_ok)
              then (nci_fsm_set_error_state nfcc_init >> pure (p.status_failed, []))
              else (do
                nci_fsm_set_state test
                (status, rx) ←
                    transceive
                      (p.ctrl_message p.nci_pkt_mt_ctrl_command p.nci_proprietary_gid
                        (test_oid test_mode) payload)
                      p.new_message nfcc_init_timeout true
                if not (status == p.status_ok)
                    then (nci_fsm_set_state nfcc_reset >> pure (status, []))
                    else (do answer ← range rx 4 (length rx); pure (status, answer))))

  unfoldable pub set_test_mode : TestMode → List ℕ → List ℕ → M p (ℕ × List ℕ)
  unfolding start_test
  set_test_mode test_none payload result =
      nci_fsm_set_state nfcc_reset >> pure (p.status_ok, result)
  set_test_mode test_mode payload result = start_test test_mode payload result
