-- ===== src/Fsm/DeadBus.antt =====
-- A controller that does not answer: every write on the bus fails.
use esphome_pn.Config.PowerUp.{power_up_lem}
use esphome_pn.States.{nci_fsm_set_error_state}
use esphome_pn.States.Errors.{set_error_state_cases}
use esphome_pn.Driver.Quiet.{Returns, returned, Returns-and_then}
use esphome_pn.Fsm.{nci_fsm_transition, from_reset, transition_from}
use esphome_pn.Transceive.{transceive, nfcc_init_timeout}
use esphome_pn.Driver.{M, pass, State, ok, ◌>>◌, nfcc_reset, failed, and_then}
use esphome_pn.Config.{reset_core, reset_request}
use esphome_pn.Prelude.{
  false, List, ℕ, ◌≢◌, Bool, suc, true, ◌≡◌, arith, zero, ◌≤◌, ◌+◌, leb, ne→==, refl, ap, dec_lt,
}
use esphome_pn.Platform.{Platform}

module _ ⦃p : Platform⦄ where
  abbrev pub IsDead : Type 0
  IsDead = (tx : List ℕ) (e : p.Env) → (p.write_nfcc tx e).0 ≢ p.status_ok

  -- `m`, n times
  unfoldable pub repeat : ℕ → M p (Unit {0}) → M p (Unit {0})
  repeat zero m = pass
  repeat (suc n) m = m >> repeat n m

module _ ⦃p : Platform⦄ (dead : IsDead) (ne : p.status_failed ≢ p.status_ok) where
  transceive_dead :
      (tx rx : List ℕ) (timeout : ℕ) (expect_notification : Bool) (s : State p)
      → transceive tx rx timeout expect_notification s
        ≡ ok (p.status_failed, rx) (record s { env = (p.write_nfcc tx s.env).1 })
  unfolding transceive
  transceive_dead tx rx timeout expect_notification s = ground (arith, dead tx s.env)

  reset_core_dead :
      (s : State p)
      → (e : p.Env) × (reset_core true true s ≡ ok p.status_failed (record s { env = e }))
  unfolding reset_core
  reset_core_dead s =
      let (e, up) = power_up_lem s.has_dwl_req_pin true s in
      (
        (p.write_nfcc (reset_request true) e).1,
        ground (
          arith,
          up,
          transceive_dead (reset_request true) p.new_message nfcc_init_timeout true
              (record s { env = e }),
          ne,
        ),
      )

  -- a state of the set-up in which `n` errors were counted
  abbrev HasFailed : ℕ → State p → Type 0
  HasFailed n s = (s.nci_state ≡ nfcc_reset) × (s.error_count ≡ n)

  from_reset_dead :
      (s : State p)
      → (e : p.Env) × (from_reset s
          ≡ and_then (nci_fsm_set_error_state nfcc_reset (record s { env = e })) (λ _. pass))
  unfolding from_reset
  from_reset_dead s = let (e, failing) = reset_core_dead s in (e, rw failing (rw (ne→== ne) refl))

  transition-reset : (s : State p) → s.nci_state ≡ nfcc_reset → nci_fsm_transition s ≡ from_reset s
  unfolding nci_fsm_transition transition_from
  transition-reset s h = ap (λ x. transition_from x s) h

  -- a transition of a set-up that starts over is one error more
  one_failure :
      (n : ℕ) (s : State p)
      → n ≤ 10
      → HasFailed n s
      → Returns (HasFailed (n + 1)) (nci_fsm_transition s)
  one_failure n s l h =
      let (e, step) = from_reset_dead s in
      let few : leb s.error_count 10 ≡ true = ground arith in
      rw (transition-reset s h.0) (
        rw step (
          rw (set_error_state_cases nfcc_reset (record s { env = e }) (omega arith))
            (rw few (returned (h.0, omega arith)))))

  last_failure :
      (s : State p) → HasFailed 11 s → Returns (λ s'. s'.nci_state ≡ failed) (nci_fsm_transition s)
  last_failure s h =
      let (e, step) = from_reset_dead s in
      let many : leb s.error_count 10 ≡ false = ground arith in
      rw (transition-reset s h.0) (
        rw step (
          rw (set_error_state_cases nfcc_reset (record s { env = e }) (omega arith))
            (rw many (returned refl))))

  stays_failed :
      (s : State p)
      → s.nci_state ≡ failed
      → Returns (λ s'. s'.nci_state ≡ failed) (nci_fsm_transition s)
  unfolding nci_fsm_transition transition_from
  stays_failed s h = rw (ap (λ x. transition_from x s) h) (returned h)

  staying :
      (n : ℕ) (s : State p)
      → s.nci_state ≡ failed
      → Returns (λ s'. s'.nci_state ≡ failed) (repeat n nci_fsm_transition s)
  unfolding repeat
  staying zero s h = returned h
  staying (suc n) s h = Returns-and_then (stays_failed s h) (λ _ s' h'. staying n s' h')

  -- While no write on the bus succeeds, and FAILED differs from OK: from NFCC_RESET with m errors
  -- counted, n transitions, with n + m at most 11, return, stay in NFCC_RESET and count n errors
  -- more.
  dead_bus_counts :
      (n m j : ℕ) (s : State p)
      → n + m ≡ j
      → j ≤ 11
      → s.nci_state ≡ nfcc_reset
      → s.error_count ≡ m
      → Returns
          (λ s'. (s'.nci_state ≡ nfcc_reset) × (s'.error_count ≡ j))
          (repeat n nci_fsm_transition s)
  unfolding repeat
  dead_bus_counts zero m j s e l h c = returned (h, omega arith)
  dead_bus_counts (suc n) m j s e l h c =
      Returns-and_then (one_failure m s (omega arith) (h, c))
        (λ _ s' h'. dead_bus_counts n (m + 1) j s' (omega arith) l h'.0 h'.1)

  -- While no write on the bus succeeds, and FAILED differs from OK: from NFCC_RESET with m errors
  -- counted, at most 11, n transitions return and end in FAILED if n + m is at least 12.
  pub dead_bus_fails :
      (n m : ℕ) (s : State p)
      → 12 ≤ n + m
      → m ≤ 11
      → s.nci_state ≡ nfcc_reset
      → s.error_count ≡ m
      → Returns (λ s'. s'.nci_state ≡ failed) (repeat n nci_fsm_transition s)
  unfolding repeat
  dead_bus_fails zero m s e l h c = absurd (omega arith)
  dead_bus_fails (suc n) m s e l h c = elim (dec_lt m 11) [
    | yes few ↦
        Returns-and_then (one_failure m s (omega arith) (h, c))
          (λ _ s' h'. dead_bus_fails n (m + 1) s' (omega arith) (omega arith) h'.0 h'.1)
    | no many ↦ Returns-and_then (last_failure s (h, omega arith)) (λ _ s' h'. staying n s' h')
  ]
