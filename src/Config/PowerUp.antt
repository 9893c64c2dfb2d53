-- ===== src/Config/PowerUp.antt =====
-- The pulls of the pins change only the board.
use esphome_pn.Driver.{State, ok}
use esphome_pn.Prelude.{Bool, ◌≡◌, refl}
use esphome_pn.Config.{power_up}
use esphome_pn.Prelude.{true, false}
use esphome_pn.Platform.{Platform}

module _ ⦃p : Platform⦄ where
  pub power_up_lem :
      (has_dwl_req power : Bool) (s : State p)
      → (e : p.Env) × (power_up has_dwl_req power s ≡ ok tt (record s { env = e }))
  unfolding power_up
  power_up_lem true true s = (_, refl)
  power_up_lem true false s = (_, refl)
  power_up_lem false true s = (_, refl)
  power_up_lem false false s = (_, refl)
