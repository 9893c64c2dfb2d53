-- ===== src/Health/Failed.antt =====
-- FAILED is the end.
use esphome_pn.Endpoints.Quiet.{emit_all-IsQuiet}
use esphome_pn.Driver.Core.{Core, core}
use esphome_pn.Driver.Stays.{Stays, Stays-quiet, stays_rules, Stays-get, Stays-bind}
use esphome_pn.Driver.Quiet.{
  Returns, Keeps, quiet_rules, keeps, IsQuiet-pass, IsQuiet-millis, IsQuiet-element, returned,
}
use esphome_pn.Health.Checks.{failed_stays}
use esphome_pn.Fsm.{nci_fsm_transition}
use esphome_pn.Prelude.{◌≡◌, ℕ, length, false, ◌≤◌, suc, refl, zero}
use esphome_pn.Health.{loop, is_stuck, perform_health_check}
use esphome_pn.Endpoints.{purge_loop, erase_tag, purge_old_tags, purge_round}
use esphome_pn.Driver.{State, failed, Outcome, ok, pass, ◌>>◌}
use esphome_pn.Platform.{Platform}

module _ ⦃p : Platform⦄ where
  abbrev InFailed : Core p → Type 0
  InFailed c = c.state ≡ failed

  erase_tag-Stays : (i : ℕ) → Stays InFailed (erase_tag i)
  unfolding erase_tag
  erase_tag-Stays i = search (stays_rules, quiet_rules, IsQuiet-element, emit_all-IsQuiet) depth 12

  purge_round-Stays : (i : ℕ) → Stays InFailed (purge_round i)
  unfolding purge_round
  purge_round-Stays i =
      search (stays_rules, quiet_rules, IsQuiet-millis, IsQuiet-element, erase_tag-Stays) depth 12

  purge_loop-Stays : (i : ℕ) → Stays InFailed (purge_loop i)
  unfolding purge_loop
  purge_loop-Stays zero = Stays-quiet pass IsQuiet-pass
  purge_loop-Stays (suc i) =
      Stays-bind (purge_round i) (λ _. purge_loop i) (purge_round-Stays i) (λ _. purge_loop-Stays i)

  purge_old_tags-Stays : Stays InFailed purge_old_tags
  unfolding purge_old_tags
  purge_old_tags-Stays =
      Stays-get (λ d. purge_loop (length d.discovered_endpoint))
        (λ d _. purge_loop-Stays (length d.discovered_endpoint))

  transition-Stays : Stays InFailed nci_fsm_transition
  transition-Stays = record {
    at = λ s h. let (_, nothing_done) = failed_stays s h in rw nothing_done (keeps h);
  }

  check-Stays : Stays InFailed perform_health_check
  check-Stays = record { at = λ s h. let (checked, _) = failed_stays s h in in_failed checked }
    where
      in_failed :
          {n : ℕ} {o : Outcome p (Unit {0})}
          → Returns (λ s'. (s'.nci_state ≡ failed) × (s'.health_fail_count ≤ n)) o
          → Keeps (λ s'. InFailed (core s'.dev)) o
      in_failed (returned (h, _)) = keeps h

  not_stuck : (s : State p) → s.nci_state ≡ failed → is_stuck s ≡ ok false s
  unfolding is_stuck
  not_stuck s h = rw h refl

  -- Once in FAILED, the driver stays there: if a round of the loop that begins in FAILED returns, it
  -- ends in FAILED, whatever the controller, the clock and the limits of the health check are.
  pub loop-Keeps-failed :
      (s : State p) → s.nci_state ≡ failed → Keeps (λ s'. s'.nci_state ≡ failed) (loop s)
  unfolding loop
  loop-Keeps-failed s h =
      let round : Stays InFailed (perform_health_check >> (nci_fsm_transition >> purge_old_tags)) =
        search (stays_rules, check-Stays, transition-Stays, purge_old_tags-Stays) depth 10 in
      rw (not_stuck s h) (round.at s h)
