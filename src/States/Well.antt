-- ===== src/States/Well.antt =====
-- An error keeps the bounds of the driver's counters.
use esphome_pn.Driver.Stays.{Stays}
use esphome_pn.Driver.Quiet.{keeps}
use esphome_pn.States.Errors.{entered, counted, set_error_state_cases, is_init_state}
use esphome_pn.Driver.Core.{is_live}
use esphome_pn.Prelude.{◌≡◌, true, false, ◌≤◌, arith, inl, inr, refl, Bool-cases, leb}
use esphome_pn.Driver.Well.{IsWell, WellCore}
use esphome_pn.States.{state_eq, nci_fsm_set_error_state}
use esphome_pn.Driver.{NciState, State, none_state, failed, nfcc_reset}
use esphome_pn.Platform.{Platform, marked_failed}

module _ ⦃p : Platform⦄ where
  Well-counted :
      (x : NciState) (s : State p)
      → IsWell s.dev
      → state_eq x none_state ≡ false
      → s.error_count ≤ 10
      → IsWell (counted x s).dev
  Well-counted x s w given few = record {
    live = w.live;
    errors_bounded = omega arith;
    errors_explained = inl given;
    fails_bounded = w.fails_bounded;
  }

  Well-entered :
      (x : NciState) (s : State p) (e : p.Env)
      → IsWell s.dev
      → is_live x ≡ true
      → IsWell (entered x s e).dev
  Well-entered x s e w live = record {
    live = live;
    errors_bounded = omega arith;
    errors_explained = inr refl;
    fails_bounded = w.fails_bounded;
  }

  pub set_error_state-KeepsWell :
      (x : NciState) → state_eq x none_state ≡ false → Stays WellCore (nci_fsm_set_error_state x)
  set_error_state-KeepsWell x given = record {
    at = λ s w.
        rw (set_error_state_cases x s (omega (arith, w.errors_bounded)))
          (elim (Bool-cases (leb s.error_count 10)) [
            | inl few ↦ rw few (keeps (Well-counted x s w given (ground arith)))
            | inr many ↦ elim (Bool-cases (is_init_state x)) [
              | inl i ↦
                  rw many (rw i (keeps (Well-entered failed s (p.emit marked_failed s.env) w refl)))
              | inr i ↦ rw many (rw i (keeps (Well-entered nfcc_reset s s.env w refl)))
            ]
          ]);
  }
