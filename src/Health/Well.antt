-- ===== src/Health/Well.antt =====
-- A round of the loop, and `setup`, keep the bounds of the driver's counters.
use esphome_pn.Invariant.Well.{WellCore-IsInvariant}
use esphome_pn.Health.Stays.{setup-Stays, loop-Stays}
use esphome_pn.Health.{loop, setup}
use esphome_pn.Driver.Quiet.{Keeps}
use esphome_pn.Driver.Well.{IsWell, WellCore}
use esphome_pn.Driver.{State}
use esphome_pn.Platform.{Platform}

module _ ⦃p : Platform⦄ where
  -- From every state in which the invariant holds, if a round of the loop returns, the invariant
  -- holds after it: the machine is in neither `NONE` nor `RFST_W4_ALL_DISCOVERIES`, the count of
  -- errors is at most 11 and is 0 as long as no error was noted, and the count of failed health
  -- checks is at most the limit that is configured.
  loop-Keeps-IsWell : (s : State p) → IsWell s.dev → Keeps (λ s'. IsWell s'.dev) (loop s)
  loop-Keeps-IsWell s w = (loop-Stays {R = WellCore}).at s w

  -- From every state in which the invariant holds, if `setup` returns, the invariant holds after
  -- it, with the same bounds as for a round of the loop.
  setup-Keeps-IsWell : (s : State p) → IsWell s.dev → Keeps (λ s'. IsWell s'.dev) (setup s)
  setup-Keeps-IsWell s w = (setup-Stays {R = WellCore}).at s w
