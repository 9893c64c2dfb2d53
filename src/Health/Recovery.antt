-- ===== src/Health/Recovery.antt =====
-- The loop brings a controller back that is stuck in the selection of an endpoint.
use esphome_pn.Endpoints.Purge.{same_but_endpoints}
use esphome_pn.Endpoints.Finish.{purge_old_tags-Returns}
use esphome_pn.States.Errors.{entered}
use esphome_pn.Fsm.Boot.{IsUp, boot}
use esphome_pn.Health.Checks.{
  OnEndpoint, health_check_cases, loop_frees_endpoint, is_passing, age_limit,
}
use esphome_pn.Endpoints.{sub32, Endpoint}
use esphome_pn.Health.{perform_health_check, loop, is_stuck}
use esphome_pn.Driver.Quiet.{Returns, Returns-and_then, Returns-map, returned, Returns-if}
use esphome_pn.Fsm.Answering.{IsAnswering, IsNotified, init_request}
use esphome_pn.Driver.{State, nfcc_reset, ◌>>◌, ok, Device}
use esphome_pn.Prelude.{
  List, ℕ, ◌≡◌, get_elem?, Bool-cases, some, inr, inl, ◌+◌, ltb, ◌<◌, length, ◌||◌, arith, true,
  refl, ◌≤◌, false, ◌%◌, ◌&&◌, subst, sym, leb, Bool, ◌∙◌,
}
use esphome_pn.Platform.{Platform}

module _ ⦃p : Platform⦄ where
  -- In NFCC_RESET, with the two switches as they are in the state `s`.
  abbrev InReset : State p → State p → Type 0
  InReset s s' =
      (s'.nci_state ≡ nfcc_reset)
      × (s'.listening_enabled ≡ s.listening_enabled)
      × (s'.polling_enabled ≡ s.polling_enabled)

  due_check-InReset :
      (s : State p)
      → s.nci_state ≡ nfcc_reset
      → s.health_check_enabled ≡ true
      → s.health_check_interval ≤ sub32 (p.millis s.env).0 s.last_health_check
      → Returns (InReset s) (perform_health_check s)
  due_check-InReset s h on due =
      let fails = (s.health_fail_count + 1) % 256 in
      let old =
        is_passing s.nci_state
        && ltb (age_limit s.health_check_interval s.nci_state)
            (sub32 (p.millis s.env).0 s.last_nci_state_change) in
      subst (λ o. Returns (InReset s) o) (sym (health_check_cases s on due))
        (Returns-if old
          (Returns-if (leb s.max_failed_checks fails)
            (Returns-if s.auto_reset_on_failure (returned (refl, refl, refl))
              (returned (h, refl, refl)))
            (returned (h, refl, refl)))
          (returned (h, refl, refl)))

  -- whatever the health check finds
  check-InReset :
      (s : State p) → s.nci_state ≡ nfcc_reset → Returns (InReset s) (perform_health_check s)
  unfolding perform_health_check
  check-InReset s h = elim (Bool-cases s.health_check_enabled) [
    | inr off ↦ rw off (returned (h, refl, refl))
    | inl on ↦
        elim (Bool-cases
          (ltb (sub32 (p.millis s.env).0 s.last_health_check) s.health_check_interval)) [
            | inl early ↦ rw on (rw early (returned (h, refl, refl)))
            | inr due ↦ due_check-InReset s h on (ground arith)
          ]
  ]

  not_stuck : (s : State p) → s.nci_state ≡ nfcc_reset → is_stuck s ≡ ok false s
  unfolding is_stuck
  not_stuck s h = rw h refl

  still-IsUp :
      {listens polls : Bool} (listens' polls' : Bool) {d d' : Device p} {xs : List Endpoint}
      → listens' ≡ listens
      → polls' ≡ polls
      → d' ≡ same_but_endpoints d xs
      → IsUp listens' polls' d
      → IsUp listens polls d'
  still-IsUp listens' polls' l q same up = record {
    state = rw same up.state;
    errors = rw same up.errors;
    no_refresh = rw same up.no_refresh;
    solo = rw same (up.solo ∙ rw l (rw q refl));
  }

  module _ {answer : List ℕ → List ℕ} (answering : IsAnswering answer) {rest : List ℕ} (n : ℕ)
      (note : IsNotified rest) (at_8 : get_elem? (answer init_request) 8 ≡ some n)
      (long : 20 + n < length (answer init_request)) where
    round_from_reset :
        (s : State p)
        → s.nci_state ≡ nfcc_reset
        → (s.listening_enabled || s.polling_enabled) ≡ true
        → Returns (λ s'. IsUp s.listening_enabled s.polling_enabled s'.dev) (loop s)
    unfolding loop
    round_from_reset s h on = rw (not_stuck s h) (
        Returns-and_then (check-InReset s h) (λ _ s1 (reset, listens, polls).
          let on' : (s1.listening_enabled || s1.polling_enabled) ≡ true =
            rw listens (rw polls on) in
          Returns-and_then (boot answering n s1 note at_8 long reset on') (λ _ s2 up.
            Returns-map
              (λ s3 (xs, same).
                still-IsUp s1.listening_enabled s1.polling_enabled listens polls same up)
              (purge_old_tags-Returns s2))))

    -- With a controller that answers every command at once and reports its reset, and whose answer
    -- to CORE_INIT is more than 20 bytes longer than its byte 8 says, and with polling or emulation
    -- enabled: from EP_SELECTING or EP_DEACTIVATING for more than two seconds, two rounds of the
    -- loop return and lead to RFST_DISCOVERY, with no error counted, no refresh pending, and the
    -- recorded configuration the one that the switches ask for, whatever the health check, the clock
    -- and the table are.
    pub loop_recovers :
        (s : State p)
        → OnEndpoint s.nci_state
        → 2000 < sub32 (p.millis s.env).0 s.last_nci_state_change
        → (s.listening_enabled || s.polling_enabled) ≡ true
        → Returns (λ s'. IsUp s.listening_enabled s.polling_enabled s'.dev) ((loop >> loop) s)
    loop_recovers s h old on =
        rw (loop_frees_endpoint s h old)
          (round_from_reset (entered nfcc_reset s (p.millis s.env).1) refl on)
