-- ===== src/Run/Well.antt =====
-- The bounds of the driver's counters hold in every state that a driver comes to.
use esphome_pn.Invariant.Well.{WellCore-IsInvariant}
use esphome_pn.Settings.Fresh.{IsFresh-IsWell}
use esphome_pn.Run.Stays.{Reach-Stays}
use esphome_pn.Driver.Well.{IsWell, WellCore}
use esphome_pn.Run.{Reach}
use esphome_pn.Driver.{State}
use esphome_pn.Platform.{Platform}

module _ ⦃p : Platform⦄ where
  -- In every state that a configured driver comes to, by `setup`, by rounds of the loop and by the
  -- calls of `Call` in any order, whatever the controller, the clock and the bus do: the
  -- machine is in neither `NONE` nor `RFST_W4_ALL_DISCOVERIES`, the count of errors is at most 11 and
  -- is 0 as long as no error was noted, and the count of failed health checks is at most the limit
  -- that is configured.
  pub Reach-IsWell : {s : State p} → Reach s → IsWell s.dev
  Reach-IsWell = Reach-Stays WellCore (λ d f. IsFresh-IsWell f)
