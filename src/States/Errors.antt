-- ===== src/States/Errors.antt =====
-- The error counter of `nci_fsm_set_error_state_`.
use esphome_pn.States.{nci_fsm_set_error_state}
use esphome_pn.Prelude.{
  ◌≡◌, ◌+◌, ◌≤◌, ltb, false, arith, inl, inr, if◌then◌else◌, Bool, leb, true, Bool-cases,
}
use esphome_pn.Platform.{Platform, marked_failed}
use esphome_pn.Driver.{NciState, State, nfcc_reset, none_state, ok, nfcc_init, nfcc_config, failed}

-- the states in which the controller is set up
abbrev pub is_init_state : NciState → Bool
is_init_state nfcc_reset = true
is_init_state nfcc_init = true
is_init_state nfcc_config = true
is_init_state _ = false

module _ ⦃p : Platform⦄ where
  -- the members after an error that is only counted
  abbrev pub counted : NciState → State p → State p
  counted x s = record s {
    dev = record s.dev { nci_state_error = x; error_count = s.error_count + 1 };
  }

  -- the members after `nci_fsm_set_state_`, on the board `e`
  abbrev pub entered : NciState → State p → p.Env → State p
  entered x s e = record s {
    dev = record s.dev {
      nci_state = x;
      nci_state_error = none_state;
      error_count = 0;
      last_nci_state_change = (p.millis e).0;
    };
    env = (p.millis e).1;
  }

  -- With at most 254 errors counted before the call. Where ten or fewer are, so up to the eleventh
  -- error, the error is only counted, and the call returns true exactly for the eleventh. Where
  -- eleven or more are, an error of NFCC_RESET, NFCC_INIT or NFCC_CONFIG marks the component as
  -- failed and leads to FAILED, any other leads to NFCC_RESET; both clear the counter, and the call
  -- returns false.
  pub set_error_state_cases :
      (x : NciState) (s : State p)
      → s.error_count ≤ 254
      → nci_fsm_set_error_state x s ≡ (
          if leb s.error_count 10
          then ok (ltb 10 (s.error_count + 1)) (counted x s)
          else if is_init_state x
          then ok false (entered failed s (p.emit marked_failed s.env))
          else ok false (entered nfcc_reset s s.env))
  unfolding nci_fsm_set_error_state
  set_error_state_cases x s l = elim (Bool-cases (leb s.error_count 10)) [
    | inl few ↦ ground arith
    | inr many ↦ elim (Bool-cases (is_init_state x)) [ inl i ↦ ground arith | inr i ↦ ground arith ]
  ]
