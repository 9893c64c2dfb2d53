-- ===== src/Transport.antt =====
-- What the two transports share: `wait_for_irq_` of components/pn7160/pn7160.cpp, and the vector
-- that an answer is read into. The child modules model components/pn7160_spi and
-- components/pn7160_i2c.
pub mod Buffer
pub mod Clock
pub mod Link
pub mod Exchange
pub mod Ends
pub mod Spi
pub mod I2c
use esphome_pn.Endpoints.{sub32}
use esphome_pn.Driver.{M, ok, ◌>>=◌, hang, millis, digital_read, pure}
use esphome_pn.Prelude.{
  List, ℕ, Bool, take, ◌++◌, suc, replicate, ◌-◌, ltb, length, true, bool_eq, zero, false,
}
use esphome_pn.Platform.{Platform, irq_pin}

module _ ⦃p : Platform⦄ where
  -- The `while` loop from `start_time` on, with the rounds that it is granted.
  unfoldable pub wait_round : ℕ → ℕ → ℕ → Bool → M p ℕ
  wait_round zero start timeout pin_state = λ s. hang
  wait_round (suc rounds) start timeout pin_state = do
    now ← millis
    elim (ltb (sub32 now start) timeout) [
      | true ↦ do
        level ← digital_read irq_pin
        elim (bool_eq level pin_state) [
          | true ↦ pure p.status_ok
          | false ↦ wait_round rounds start timeout pin_state
        ]
      | false ↦ pure p.status_failed
    ]

  unfoldable pub wait_for_irq : ℕ → Bool → M p ℕ
  wait_for_irq timeout pin_state = do start ← millis; wait_round p.patience start timeout pin_state

  -- a call on the bus that gives nothing back
  abbrev pub on_board : (p.Env → p.Env) → M p (Unit {0})
  on_board f s = ok tt (record s { env = f s.env })
