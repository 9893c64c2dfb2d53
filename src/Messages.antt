-- ===== src/Messages.antt =====
-- The messages of the controller: `process_message_` and the `process_rf_*_oid_` handlers of
-- components/pn7160/pn7160.cpp, with the choice of the tag's type in `read_endpoint_data_`,
-- `clean_endpoint_`, `format_endpoint_` and `write_endpoint_`.
pub mod Dispatch
pub mod Selecting
pub mod Quiet
pub mod SameUid
pub mod Stays
use esphome_pn.Classic.{halt_mifare_classic_tag}
use esphome_pn.Ultralight.{
  clean_mifare_ultralight, write_mifare_ultralight_tag, read_mifare_ultralight_tag,
}
use esphome_pn.States.{nci_fsm_set_state, state_eq}
use esphome_pn.Classic.Format.{format_mifare_classic_mifare, format_mifare_classic_ndef}
use esphome_pn.Classic.Tag.{read_mifare_classic_tag, write_mifare_classic_tag}
use esphome_pn.Discovery.{stop_discovery}
use esphome_pn.Endpoints.{Endpoint, find_tag_uid, build_tag, emit_all}
use esphome_pn.Prelude.{
  ℕ, Bool, List, Option, if◌then◌else◌, length, true, ◌==◌, false, some, not, bit_and, none, ◌++◌,
  ◌-◌, bytes_eq, ◌||◌, ◌∷◌, [], set,
}
use esphome_pn.Driver.{
  Task, M, NciState, ◌>>=◌, pass, ◌>>◌, get_dev, millis, range, element, rfst_discovery, put_dev,
  ep_clean, ep_read, card_emu_idle, rfst_idle, nfcc_reset, ep_format, emit, rfst_listen_active,
  pure, ep_deactivating, rfst_w4_host_select, ep_write, rfst_poll_active, rfst_listen_sleep,
}
use esphome_pn.Platform.{Platform, on_tag, finished_write, tag_on}

abbrev pub rf_txldo_error_oid : ℕ
rf_txldo_error_oid = 0x23

abbrev pub is_read_task : Task → Bool
is_read_task ep_read = true
is_read_task _ = false

module _ ⦃p : Platform⦄ where
  unfoldable pub read_endpoint_data : p.NfcTag → M p (ℕ × p.NfcTag)
  read_endpoint_data tag =
      let type = p.guess_tag_type (length (p.get_uid tag)) in
      if type == p.tag_type_mifare_classic
      then read_mifare_classic_tag tag
      else if type == p.tag_type_2
      then read_mifare_ultralight_tag tag
      else pure (p.status_failed, tag)

  unfoldable pub clean_endpoint : List ℕ → M p ℕ
  clean_endpoint uid =
      let type = p.guess_tag_type (length uid) in
      if type == p.tag_type_mifare_classic
      then format_mifare_classic_mifare
      else if type == p.tag_type_2
      then clean_mifare_ultralight
      else pure p.status_failed

  unfoldable pub format_endpoint : List ℕ → M p ℕ
  format_endpoint uid =
      let type = p.guess_tag_type (length uid) in
      if type == p.tag_type_mifare_classic
      then format_mifare_classic_ndef
      else if type == p.tag_type_2
      then clean_mifare_ultralight
      else pure p.status_failed

  unfoldable pub write_endpoint : List ℕ → p.NdefMessage → M p ℕ
  write_endpoint uid message =
      let type = p.guess_tag_type (length uid) in
      if type == p.tag_type_mifare_classic
      then write_mifare_classic_tag message
      else if type == p.tag_type_2
      then write_mifare_ultralight_tag message
      else pure p.status_failed

  -- The entry of a tag is refreshed, or made; the result is its index.
  unfoldable pub refresh_or_add : ℕ → ℕ → p.NfcTag → Option ℕ → M p ℕ
  refresh_or_add discovery_id protocol tag none = do
    now ← millis
    d ← get_dev
    put_dev (record d {
      discovered_endpoint =
          d.discovered_endpoint
          ++ record {
            id = discovery_id;
            protocol = protocol;
            last_seen = now;
            tag = tag;
            trig_called = false;
          }
            ∷ [];
    })
    pure (length d.discovered_endpoint)
  refresh_or_add discovery_id protocol tag (some loc) = do
    now ← millis
    d ← get_dev
    x ← element d.discovered_endpoint loc
    put_dev (record d {
      discovered_endpoint =
          set d.discovered_endpoint loc
            (record x { id = discovery_id; protocol = protocol; last_seen = now });
    })
    pure loc

  unfoldable pub remember_endpoint : ℕ → ℕ → p.NfcTag → M p ℕ
  unfolding refresh_or_add
  remember_endpoint discovery_id protocol tag =
      find_tag_uid (p.get_uid tag) >>= refresh_or_add discovery_id protocol tag

  -- `case EP_WRITE`
  unfoldable pub write_task : List ℕ → Option p.NdefMessage → M p (Unit {0})
  write_task uid none = pass
  write_task uid (some message) = do
    formatted ← format_endpoint uid
    if not (formatted == p.status_ok) then pass else do
      write_endpoint uid message
      d ← get_dev
      put_dev (record d { next_task_message_to_write = none })
      emit finished_write

  -- `case EP_READ`, on an endpoint whose triggers were not called yet
  unfoldable pub read_task : ℕ → Endpoint → M p (Unit {0})
  read_task loc x = do
    (status, tag) ← read_endpoint_data x.tag
    d ← get_dev
    emit_all (λ trigger. on_tag trigger tag) d.triggers_ontag
    emit_all (λ listener. tag_on listener tag) d.tag_listeners
    put_dev (record d {
      discovered_endpoint =
          set d.discovered_endpoint loc (record x { tag = tag; trig_called = true });
    })

  -- the `switch` on `next_task_`
  unfoldable pub run_task : Task → ℕ → Endpoint → M p (Unit {0})
  unfolding write_task read_task
  run_task ep_clean loc x = clean_endpoint (p.get_uid x.tag) >> pass
  run_task ep_format loc x = format_endpoint (p.get_uid x.tag) >> pass
  run_task ep_write loc x = do
    d ← get_dev
    write_task (p.get_uid x.tag) d.next_task_message_to_write
  run_task ep_read loc x = if not x.trig_called then read_task loc x else pass

  -- what is done with the tag that was activated, none if it could not be built
  unfoldable pub work_on_tag : ℕ → ℕ → Option p.NfcTag → M p (Unit {0})
  unfolding remember_endpoint run_task
  work_on_tag discovery_id protocol none = pass
  work_on_tag discovery_id protocol (some tag) = do
    loc ← remember_endpoint discovery_id protocol tag
    d ← get_dev
    x ← element d.discovered_endpoint loc
    run_task d.next_task loc x
    d' ← get_dev
    x' ← element d'.discovered_endpoint loc
    if bytes_eq (p.get_tag_type x'.tag) p.mifare_classic
        then halt_mifare_classic_tag >> pass
        else pass

  unfoldable pub read_mode : M p (Unit {0})
  read_mode = do d ← get_dev; put_dev (record d { next_task = ep_read })

  -- the end of the handler
  unfoldable pub release_tag : M p (Unit {0})
  unfolding read_mode
  release_tag = do
    d ← get_dev
    (if not (is_read_task d.next_task) then read_mode else pass)
    status ← stop_discovery
    if not (status == p.status_ok)
        then nci_fsm_set_state nfcc_reset
        else nci_fsm_set_state ep_deactivating

  unfoldable pub process_rf_intf_activated_oid : List ℕ → M p (Unit {0})
  unfolding work_on_tag release_tag
  process_rf_intf_activated_oid rx =
      let discovery_id = p.get_message_byte rx p.rf_intf_activated_ntf_discovery_id in
      let protocol = p.get_message_byte rx p.rf_intf_activated_ntf_protocol in
      let mode_tech = p.get_message_byte rx p.rf_intf_activated_ntf_mode_tech in
      if not (bit_and mode_tech p.mode_listen_mask == 0)
      then nci_fsm_set_state rfst_listen_active
      else do
        nci_fsm_set_state rfst_poll_active
        bytes ← range rx 10 (length rx)
        incoming_tag ← build_tag mode_tech bytes
        work_on_tag discovery_id protocol incoming_tag
        release_tag

  abbrev remember_option : ℕ → ℕ → Option p.NfcTag → M p (Unit {0})
  remember_option discovery_id protocol none = pass
  remember_option discovery_id protocol (some tag) =
      remember_endpoint discovery_id protocol tag >> pass

  unfoldable pub process_rf_discover_oid : List ℕ → M p (Unit {0})
  unfolding remember_endpoint
  process_rf_discover_oid rx = do
    bytes ← range rx 7 (length rx)
    incoming_tag ← build_tag (p.get_message_byte rx p.rf_discover_ntf_mode_tech) bytes
    remember_option (p.get_message_byte rx p.rf_discover_ntf_discovery_id)
        (p.get_message_byte rx p.rf_discover_ntf_protocol) incoming_tag
    more ← element rx (length rx - 1)
    if not (more == p.rf_discover_ntf_nt_more) then nci_fsm_set_state rfst_w4_host_select else pass

  -- where a deactivation leads from a state, by its type
  abbrev pub deactivated : NciState → ℕ → Option NciState
  deactivated from type =
      if type == p.deactivation_type_discovery
      then some rfst_discovery
      else if type == p.deactivation_type_idle
      then some rfst_idle
      else if type == p.deactivation_type_sleep || type == p.deactivation_type_sleep_af
      then some (
          if state_eq from rfst_listen_active
          then rfst_listen_sleep
          else if state_eq from rfst_poll_active
          then rfst_w4_host_select
          else rfst_idle)
      else none

  abbrev set_option : Option NciState → M p (Unit {0})
  set_option none = pass
  set_option (some new_state) = nci_fsm_set_state new_state

  unfoldable pub process_rf_deactivate_oid : List ℕ → M p (Unit {0})
  process_rf_deactivate_oid rx = do
    d ← get_dev
    put_dev (record d { ce_state = card_emu_idle })
    set_option (deactivated d.nci_state (p.get_simple_status_response rx))
