-- ===== src/Health/Checks.antt =====
-- What the health check and the loop do about a controller that is stuck.
use esphome_pn.States.Errors.{entered}
use esphome_pn.Endpoints.{sub32}
use esphome_pn.Driver.Quiet.{Returns, returned}
use esphome_pn.States.{nci_fsm_set_state}
use esphome_pn.Prelude.{
  Bool, leb, ◌+◌, ◌≡◌, ◌%◌, true, ◌≤◌, ◌<◌, ◌&&◌, ltb, arith, false, if◌then◌else◌, Bool-cases,
  refl, inr, inl, ap, ℕ, ◌∙◌, ◌⊎◌,
}
use esphome_pn.Fsm.{nci_fsm_transition, transition_from}
use esphome_pn.Driver.{
  State, failed, ok, nfcc_reset, NciState, ep_selecting, nfcc_init, none_state, nfcc_config,
  ep_deactivating, nfcc_set_discover_map, nfcc_set_listen_mode_routing, rfst_idle, rfst_discovery,
  rfst_w4_all_discoveries, rfst_w4_host_select, rfst_poll_active, rfst_listen_active,
  rfst_listen_sleep, test,
}
use esphome_pn.Health.{
  perform_health_check, loop, count_failure, is_stuck, reset_via_ven, is_endpoint_state,
  in_stuck_state, stuck_too_long,
}
use esphome_pn.Platform.{Platform, ven_pin}

module _ ⦃p : Platform⦄ where
  -- In FAILED a health check returns, leaves the state alone and never adds to the count of failed
  -- checks. A transition does nothing at all.
  pub failed_stays :
      (s : State p)
      → s.nci_state ≡ failed
      → Returns
          (λ s'. (s'.nci_state ≡ failed) × (s'.health_fail_count ≤ s.health_fail_count))
          (perform_health_check s)
        × (nci_fsm_transition s ≡ ok tt s)
  unfolding perform_health_check nci_fsm_transition transition_from
  failed_stays s h = (checked, ap (λ x. transition_from x s) h)
    where
      unstuck : (in_stuck_state s.nci_state && stuck_too_long s.dev (p.millis s.env).0) ≡ false
      unstuck = ground arith

      checked :
          Returns
            (λ s'. (s'.nci_state ≡ failed) × (s'.health_fail_count ≤ s.health_fail_count))
            (perform_health_check s)
      checked = elim (Bool-cases s.health_check_enabled) [
        | inr off ↦ rw off (returned (h, omega arith))
        | inl on ↦
            elim (Bool-cases
              (ltb (sub32 (p.millis s.env).0 s.last_health_check) s.health_check_interval)) [
                | inl early ↦ rw on (rw early (returned (h, omega arith)))
                | inr due ↦ rw on (rw due (rw unstuck (returned (h, omega arith))))
              ]
      ]

  -- the states that the controller should pass through soon
  abbrev pub is_passing : NciState → Bool
  is_passing nfcc_reset = true
  is_passing nfcc_init = true
  is_passing nfcc_config = true
  is_passing nfcc_set_discover_map = true
  is_passing nfcc_set_listen_mode_routing = true
  is_passing ep_selecting = true
  is_passing ep_deactivating = true
  is_passing _ = false

  -- how old such a state may be, with an interval between the checks
  abbrev pub age_limit : ℕ → NciState → ℕ
  age_limit interval ep_selecting = 2000
  age_limit interval ep_deactivating = 2000
  age_limit interval _ = interval

  -- the board after the pulse on VEN: low for 10 ms, then high, and 50 ms for the controller to start
  abbrev pub pulsed : p.Env → p.Env
  pulsed e =
      p.delay 50 (p.digital_write ven_pin true (p.delay 10 (p.digital_write ven_pin false e)))

  -- the members after a check that is due, with the failures that are counted now
  abbrev pub checked : ℕ → State p → State p
  checked fails s = record s {
    dev = record s.dev { last_health_check = (p.millis s.env).0; health_fail_count = fails };
    env = (p.millis s.env).1;
  }

  stuck_lem :
      (x : NciState) (interval age : ℕ)
      → (in_stuck_state x && (if is_endpoint_state x then ltb 2000 age else ltb interval age))
        ≡ (is_passing x && ltb (age_limit interval x) age)
  stuck_lem none_state interval age = refl
  stuck_lem nfcc_reset interval age = refl
  stuck_lem nfcc_init interval age = refl
  stuck_lem nfcc_config interval age = refl
  stuck_lem nfcc_set_discover_map interval age = refl
  stuck_lem nfcc_set_listen_mode_routing interval age = refl
  stuck_lem rfst_idle interval age = refl
  stuck_lem rfst_discovery interval age = refl
  stuck_lem rfst_w4_all_discoveries interval age = refl
  stuck_lem rfst_w4_host_select interval age = refl
  stuck_lem rfst_poll_active interval age = refl
  stuck_lem rfst_listen_active interval age = refl
  stuck_lem rfst_listen_sleep interval age = refl
  stuck_lem ep_selecting interval age = refl
  stuck_lem ep_deactivating interval age = refl
  stuck_lem test interval age = refl
  stuck_lem failed interval age = refl

  -- All branches of a health check that is enabled and due. In a state of the set-up, and in
  -- EP_SELECTING and EP_DEACTIVATING, older than its limit (the interval of the checks for the
  -- set-up, two seconds for the two others), a failure is counted, modulo 256. The failure that
  -- reaches the maximum clears the count and, where the reset is enabled, pulls VEN low for 10 ms
  -- and high again, waits for 50 ms and goes to NFCC_RESET. In any other case the count is cleared.
  -- No other member is changed but the time of the check and, by the reset, those of a state change.
  pub health_check_cases :
      (s : State p)
      → s.health_check_enabled ≡ true
      → s.health_check_interval ≤ sub32 (p.millis s.env).0 s.last_health_check
      → perform_health_check s ≡ (
          if is_passing s.nci_state
            && ltb
                (age_limit s.health_check_interval s.nci_state)
                (sub32 (p.millis s.env).0 s.last_nci_state_change)
          then (if leb s.max_failed_checks ((s.health_fail_count + 1) % 256)
              then (if s.auto_reset_on_failure
                  then ok tt (entered nfcc_reset (checked 0 s) (pulsed (p.millis s.env).1))
                  else ok tt (checked 0 s))
              else ok tt (checked ((s.health_fail_count + 1) % 256) s))
          else ok tt (checked 0 s))
  unfolding perform_health_check count_failure reset_via_ven nci_fsm_set_state
  health_check_cases s on due =
      let now : ltb (sub32 (p.millis s.env).0 s.last_health_check) s.health_check_interval ≡ false =
        ground arith in
      let stuck =
        stuck_lem s.nci_state s.health_check_interval
          (sub32 (p.millis s.env).0 s.last_nci_state_change) in
      let limit = age_limit s.health_check_interval s.nci_state in
      let age = sub32 (p.millis s.env).0 s.last_nci_state_change in
      elim (Bool-cases (is_passing s.nci_state && ltb limit age)) [
        | inr well ↦ rw on (rw now (rw (stuck ∙ well) (rw well refl)))
        | inl old ↦ elim (Bool-cases (leb s.max_failed_checks ((s.health_fail_count + 1) % 256))) [
          | inr fewer ↦ rw on (rw now (rw (stuck ∙ old) (rw old (rw fewer refl))))
          | inl enough ↦ elim (Bool-cases s.auto_reset_on_failure) [
            | inl auto ↦ rw on (rw now (rw (stuck ∙ old) (rw old (rw enough (rw auto refl)))))
            | inr manual ↦ rw on (rw now (rw (stuck ∙ old) (rw old (rw enough (rw manual refl)))))
          ]
        ]
      ]

  -- the two states in which an endpoint is selected or let go
  abbrev pub OnEndpoint : NciState → Type 0
  OnEndpoint x = (x ≡ ep_selecting) ⊎ (x ≡ ep_deactivating)

  on_endpoint_lem : (x : NciState) → OnEndpoint x → is_endpoint_state x ≡ true
  on_endpoint_lem x (inl e) = rw e refl
  on_endpoint_lem x (inr e) = rw e refl

  -- one round of the loop, in such a state that is older than two seconds
  pub loop_frees_endpoint :
      (s : State p)
      → OnEndpoint s.nci_state
      → 2000 < sub32 (p.millis s.env).0 s.last_nci_state_change
      → loop s ≡ ok tt (entered nfcc_reset s (p.millis s.env).1)
  unfolding loop is_stuck nci_fsm_set_state
  loop_frees_endpoint s h old =
      let late : ltb 2000 (sub32 (p.millis s.env).0 s.last_nci_state_change) ≡ true =
        ground arith in
      let on = on_endpoint_lem s.nci_state h in rw on (rw late refl)
