-- ===== src/Invariant/Writing.antt =====
-- `write_mode_` is set by no method.
use esphome_pn.Driver.Quiet.{quiet_rules}
use esphome_pn.Driver.Stays.{Stays, stays_rules}
use esphome_pn.Endpoints.{Endpoint}
use esphome_pn.Invariant.Blind.{remember_endpoint-Stays, work_on_tag-Stays}
use esphome_pn.Prelude.{List, ◌≡◌, false, some}
use esphome_pn.Driver.Core.{Core, core}
use esphome_pn.Invariant.{IsInvariant}
use esphome_pn.States.{nci_fsm_set_error_state, give_up, nci_fsm_set_state}
use esphome_pn.Driver.{Device, NciState}
use esphome_pn.Platform.{Platform}

module _ ⦃p : Platform⦄ where
  abbrev pub NotWriting : Core p → Type 0
  NotWriting c = c.writing ≡ false

  abbrev blind :
      (d : Device p) (xs : List Endpoint)
      → NotWriting (core d)
      → NotWriting (core (record d { discovered_endpoint = xs }))
  blind d xs w = w

  pub error_state-Stays : (x : NciState) → Stays NotWriting (nci_fsm_set_error_state x)
  unfolding nci_fsm_set_error_state give_up nci_fsm_set_state
  error_state-Stays x = search (stays_rules, quiet_rules) depth 20

  instance abbrev pub NotWriting-IsInvariant : IsInvariant NotWriting
  NotWriting-IsInvariant = record {
    new_state = λ c x live w. w;
    error_state = λ x given. error_state-Stays x;
    failing = λ c n l w. w;
    without = λ c i w. w;
    remembering = remember_endpoint-Stays blind;
    working = λ i protocol tag. work_on_tag-Stays blind i protocol (some tag);
  }
