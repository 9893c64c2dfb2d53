-- ===== src/Health/Stays.antt =====
-- A round of the loop keeps an invariant, and `setup` too.
use esphome_pn.Endpoints.Stays.{purge_old_tags-Stays}
use esphome_pn.Fsm.Stays.{nci_fsm_transition-Stays}
use esphome_pn.States.Stays.{set_state-Stays}
use esphome_pn.Driver.Stays.{Stays, stays_rules, Stays-bind, Stays-put, Stays-if, Stays-pass}
use esphome_pn.Prelude.{arith, ℕ, if◌then◌else◌, ◌+◌, leb, ◌%◌, Bool-cases, inl, inr}
use esphome_pn.Driver.{Device, ◌>>◌, put_dev, pass}
use esphome_pn.Invariant.{IsInvariant}
use esphome_pn.Driver.Quiet.{IsQuiet, quiet_rules, IsQuiet-millis, IsQuiet-setup_pin}
use esphome_pn.Driver.Core.{Core, core}
use esphome_pn.Health.{is_stuck, reset_via_ven, setup, count_failure, perform_health_check, loop}
use esphome_pn.Platform.{Platform}

module _ ⦃p : Platform⦄ where
  is_stuck-IsQuiet : IsQuiet is_stuck
  unfolding is_stuck
  is_stuck-IsQuiet = search (quiet_rules, IsQuiet-millis) depth 10

module _ ⦃p : Platform⦄ {R : Core p → Type 0} ⦃inv : IsInvariant R⦄ where
  reset_via_ven-Stays : Stays R reset_via_ven
  unfolding reset_via_ven
  reset_via_ven-Stays = search (stays_rules, quiet_rules, set_state-Stays) depth 14

  -- the count after a failed check
  counted-Stays :
      (d : Device p) (fails : ℕ)
      → R (core d)
      → Stays R (
          if leb d.max_failed_checks fails
          then (do
            put_dev (record d { health_fail_count = 0 })
            if d.auto_reset_on_failure then reset_via_ven else pass)
          else put_dev (record d { health_fail_count = fails }))
  counted-Stays d fails w = elim (Bool-cases (leb d.max_failed_checks fails)) [
    | inl enough ↦ rw enough (
        Stays-bind (put_dev (record d { health_fail_count = 0 }))
          (λ _. if d.auto_reset_on_failure then reset_via_ven else pass)
          (Stays-put (record d { health_fail_count = 0 }) (inv.failing (core d) 0 (omega arith) w))
          (λ _. Stays-if d.auto_reset_on_failure reset_via_ven pass reset_via_ven-Stays Stays-pass))
    | inr few ↦ rw few (
        Stays-put (record d { health_fail_count = fails })
          (inv.failing (core d) fails (ground arith) w))
  ]

  count_failure-Stays : (d : Device p) → R (core d) → Stays R (count_failure d)
  unfolding count_failure
  count_failure-Stays d w = counted-Stays d ((d.health_fail_count + 1) % 256) w

  perform_health_check-Stays : Stays R perform_health_check
  unfolding perform_health_check
  perform_health_check-Stays =
      let cleared : (d : Device p) → R (core d) → R (core (record d { health_fail_count = 0 })) =
        λ d w. inv.failing (core d) 0 (omega arith) w in
      search (stays_rules, IsQuiet-millis, count_failure-Stays, cleared) depth 14

  pub loop-Stays : Stays R loop
  unfolding loop
  loop-Stays =
      search
        (
          stays_rules, is_stuck-IsQuiet, set_state-Stays, perform_health_check-Stays,
          nci_fsm_transition-Stays, purge_old_tags-Stays,
        )
        depth 14

  pub setup-Stays : Stays R setup
  unfolding setup
  setup-Stays = search (stays_rules, IsQuiet-setup_pin, nci_fsm_transition-Stays) depth 14
