-- ===== src/Invariant.antt =====
-- What makes a property of the members an invariant of the driver: that the few actions which touch
-- these members keep it. The child modules of the components show that all else does, too.
pub mod Blind
pub mod Writing
pub mod Distinct
pub mod Well
use esphome_pn.Driver.Stays.{Stays}
use esphome_pn.Messages.{remember_endpoint, work_on_tag}
use esphome_pn.States.{state_eq, nci_fsm_set_error_state}
use esphome_pn.Prelude.{◌≡◌, true, false, ℕ, ◌≤◌, erase_at, some}
use esphome_pn.Driver.{NciState, none_state, State}
use esphome_pn.Driver.Core.{Core, is_live}
use esphome_pn.Platform.{Platform}

module _ ⦃p : Platform⦄ where
  pub record IsInvariant (R : Core p → Type 0) : Type 0 where
    -- a new state, one that is counted as no error
    pub new_state :
        (c : Core p) (x : NciState)
        → is_live x ≡ true
        → R c
        → R (record c { state = x; error = none_state; errors = 0 })
    -- an error
    pub error_state :
        (x : NciState) → state_eq x none_state ≡ false → Stays R (nci_fsm_set_error_state x)
    -- a health check
    pub failing : (c : Core p) (n : ℕ) → n ≤ c.most → R c → R (record c { fails = n })
    -- an endpoint is erased, found, or worked on
    pub without : (c : Core p) (i : ℕ) → R c → R (record c { endpoints = erase_at c.endpoints i })
    pub remembering : (i protocol : ℕ) (tag : p.NfcTag) → Stays R (remember_endpoint i protocol tag)
    pub working : (i protocol : ℕ) (tag : p.NfcTag) → Stays R (work_on_tag i protocol (some tag))
