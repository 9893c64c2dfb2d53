-- ===== src/Config/Refresh.antt =====
-- The refresh of the core configuration.
use esphome_pn.Transceive.{nfcc_default_timeout, nfcc_tag_write_timeout}
use esphome_pn.Transceive.Laws.{transceive-Answers}
use esphome_pn.States.{state_eq, nci_fsm_set_state}
use esphome_pn.Discovery.{refresh_core_config, resend_core_config, stop_discovery, deactivate}
use esphome_pn.Prelude.{
  Bool, not, ◌&&◌, ◌≡◌, ℕ, if◌then◌else◌, false, true, ◌≢◌, ◌==◌, arith, refl, ap, ◌∙◌, sym,
  bool_eq, ◌∷◌, [], Bool-cases, inr, inl,
}
use esphome_pn.Config.{send_core_config, core_config_rw_ce, core_config_solo}
use esphome_pn.Driver.{
  Device, State, ok, rfst_discovery, M, ◌>>=◌, get_dev, nfcc_reset, ◌>>◌, put_dev, pure, rfst_idle,
}
use esphome_pn.Platform.{Platform}

module _ ⦃p : Platform⦄ where
  -- the configuration that the two switches ask for
  abbrev pub wants_solo : Device p → Bool
  wants_solo d = not (d.listening_enabled && d.polling_enabled)

  -- `send_core_config_` always returns, and records the configuration that the switches ask for,
  -- whatever the controller answers; it changes no other member.
  send_core_config_solo :
      (s : State p)
      → (status : ℕ) × (e : p.Env) × (send_core_config s
          ≡ ok status
              (record s { dev = record s.dev { core_config_is_solo = wants_solo s.dev }; env = e }))
  unfolding send_core_config
  send_core_config_solo s =
      let s' = record s { dev = record s.dev { core_config_is_solo = wants_solo s.dev } } in
      let payload =
        if s.listening_enabled && s.polling_enabled then core_config_rw_ce else core_config_solo in
      let tx =
        p.ctrl_message p.nci_pkt_mt_ctrl_command p.nci_core_gid p.nci_core_set_config_oid payload in
      let answer = transceive-Answers tx p.new_message nfcc_default_timeout true s' in
      (
        if answer.value == p.status_ok then p.status_ok else p.status_failed,
        answer.board,
        rw answer.returns refl,
      )

  bool_eq_refl : (b : Bool) → bool_eq b b ≡ true
  bool_eq_refl true = refl
  bool_eq_refl false = refl

  -- the end of a refresh: nothing is pending
  abbrev pub no_longer_pending : M p ℕ
  no_longer_pending = do
    d ← get_dev
    put_dev (record d { config_refresh_pending = false })
    pure p.status_ok

  -- a refresh that sends no core configuration: all it may send is the end of the discovery
  abbrev pub without_config : M p ℕ
  without_config = do
    d ← get_dev
    if state_eq d.nci_state rfst_discovery
        then (do
          status ← stop_discovery
          if not (status == p.status_ok)
              then (nci_fsm_set_state nfcc_reset >> pure p.status_failed)
              else (do nci_fsm_set_state rfst_idle; no_longer_pending))
        else no_longer_pending

  resend_lem :
      (s : State p)
      → s.core_config_is_solo ≡ wants_solo s.dev
      → resend_core_config (wants_solo s.dev) s ≡ no_longer_pending s
  unfolding resend_core_config
  resend_lem s h =
      let same : bool_eq s.core_config_is_solo (wants_solo s.dev) ≡ true =
        rw h (bool_eq_refl (wants_solo s.dev)) in
      rw same refl

  -- what a refresh does that finds the recorded configuration to be the one that is asked for
  refresh_lem :
      (s : State p)
      → s.core_config_is_solo ≡ wants_solo s.dev
      → refresh_core_config s ≡ without_config s
  unfolding refresh_core_config stop_discovery deactivate nci_fsm_set_state
  refresh_lem s h =
      let tx =
        p.ctrl_message p.nci_pkt_mt_ctrl_command p.rf_gid p.rf_deactivate_oid
          (p.deactivation_type_idle ∷ []) in
      let answer = transceive-Answers tx p.new_message nfcc_tag_write_timeout true s in
      elim (Bool-cases (state_eq s.nci_state rfst_discovery)) [
        | inr other ↦ rw other (resend_lem s h)
        | inl discovers ↦ elim (Bool-cases (answer.value == p.status_ok)) [
          | inr failed_ ↦ rw discovers (rw answer.returns (rw failed_ refl))
          | inl fine ↦ rw discovers (rw answer.returns (rw fine (resend_lem _ h)))
        ]
      ]

  -- what a failed refresh leaves behind
  failed_refresh :
      (s s' : State p)
      → state_eq s.nci_state rfst_discovery ≡ false
      → p.status_failed ≢ p.status_ok
      → refresh_core_config s ≡ ok p.status_failed s'
      → s'.dev ≡ record s.dev { core_config_is_solo = wants_solo s.dev }
  unfolding refresh_core_config resend_core_config
  failed_refresh s s' h ne failing =
      let (status, e, sent) = send_core_config_solo s in ground (arith, sent)

  -- A refresh in a state other than RFST_DISCOVERY whose command fails, where FAILED differs from
  -- OK, is never made up for: from any later state in which the recorded configuration and the two
  -- switches are as that refresh left them, the next refresh sends no core configuration. In
  -- RFST_DISCOVERY it only ends the discovery, which may fail; elsewhere it sends nothing, clears
  -- the pending flag and reports that all is well.
  pub failed_refresh_is_dropped :
      (s later : State p) {s' : State p}
      → state_eq s.nci_state rfst_discovery ≡ false
      → p.status_failed ≢ p.status_ok
      → refresh_core_config s ≡ ok p.status_failed s'
      → later.core_config_is_solo ≡ s'.core_config_is_solo
      → later.listening_enabled ≡ s'.listening_enabled
      → later.polling_enabled ≡ s'.polling_enabled
      → refresh_core_config later ≡ without_config later
  failed_refresh_is_dropped s later {s'} h ne failing solo listens polls =
      let left = failed_refresh s s' h ne failing in
      let recorded : s'.core_config_is_solo ≡ wants_solo s'.dev =
        ap (λ d. d.core_config_is_solo) left ∙ sym (ap wants_solo left) in
      refresh_lem later (solo ∙ recorded ∙ sym (rw listens (rw polls refl)))
