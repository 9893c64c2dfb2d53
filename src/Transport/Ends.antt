-- ===== src/Transport/Ends.antt =====
-- The transports' reads come to an end, whatever the controller does.
use esphome_pn.Transceive.{nfcc_default_timeout}
use esphome_pn.Transport.I2c.{i2c_read_nfcc, i2c_read_payload, I2cBus, i2c_read_bytes_raw}
use esphome_pn.Transport.{wait_for_irq, on_board}
use esphome_pn.Driver.Quiet.{returned, Returns, Returns-and_then}
use esphome_pn.Transport.Clock.{IsClock, IsTicking, rounds_in, wait_for_irq-Returns}
use esphome_pn.Prelude.{
  Bool, ℕ, if◌then◌else◌, subst, ◌≡◌, true, ◌^◌, refl, false, ◌-◌, ◌<◌, ◌*◌, List, ◌+◌, ◌≤◌, arith,
}
use esphome_pn.Driver.{M, pure, State, ◌>>=◌}
use esphome_pn.Platform.{Platform}
use esphome_pn.Transport.Spi.{SpiBus, spi_read_nfcc, spi_read_payload, spi_read_array, tdd_spi_read}
use native.Mathlib.Nat.{mul-le-mul_right}

module _ {p : Platform} where
  -- an action that returns and changes nothing but the board
  pub record Settles {A : Type 0} (m : M p A) : Type 0 where
    pub at : (s : State p) → Returns (λ s'. s'.dev ≡ s.dev) (m s)

  Settles-pure : {A : Type 0} (a : A) → Settles (pure a)
  Settles-pure a = record { at = λ s. returned refl }

  Settles-if :
      {A : Type 0} (b : Bool) (m k : M p A) → Settles m → Settles k → Settles (if b then m else k)
  Settles-if true m k hm hk = hm
  Settles-if false m k hm hk = hk

  Settles-bind :
      {A B : Type 0} (m : M p A) (f : A → M p B)
      → Settles m
      → ((a : A) → Settles (f a))
      → Settles (m >>= f)
  Settles-bind m f hm hf = record {
    at = λ s.
        Returns-and_then (hm.at s)
          (λ a s' h. subst (λ d. Returns (λ s''. s''.dev ≡ d) (f a s')) h ((hf a).at s'));
  }

module _ ⦃p : Platform⦄ where
  Settles-on_board : (f : p.Env → p.Env) → Settles (on_board f)
  Settles-on_board f = record { at = λ s. returned refl }

  Settles-spi_read_array :
      (bus : SpiBus p.Env) (buffer : List ℕ) → Settles (spi_read_array bus buffer)
  Settles-spi_read_array bus buffer = record { at = λ s. returned refl }

  Settles-i2c_read_bytes_raw :
      (bus : I2cBus p.Env) (buffer : List ℕ) → Settles (i2c_read_bytes_raw bus buffer)
  Settles-i2c_read_bytes_raw bus buffer = record { at = λ s. returned refl }

ruleset settles_rules = (
  Settles-pure, Settles-if, Settles-bind, Settles-on_board, Settles-spi_read_array,
  Settles-i2c_read_bytes_raw,
)

module _ ⦃p : Platform⦄ where
  i2c_read_payload-Settles :
      (bus : I2cBus p.Env) (header : List ℕ) → Settles (i2c_read_payload bus header)
  unfolding i2c_read_payload
  i2c_read_payload-Settles bus header = search settles_rules depth 14

  i2c_read_nfcc-Settles :
      (bus : I2cBus p.Env) (rx : List ℕ) (timeout : ℕ)
      → Settles (wait_for_irq timeout true)
      → Settles (wait_for_irq nfcc_default_timeout false)
      → Settles (i2c_read_nfcc bus rx timeout)
  unfolding i2c_read_nfcc
  i2c_read_nfcc-Settles bus rx timeout waits clears =
      search (settles_rules, i2c_read_payload-Settles) depth 20

  spi_read_payload-Settles :
      (bus : SpiBus p.Env) (header : List ℕ) → Settles (spi_read_payload bus header)
  unfolding spi_read_payload
  spi_read_payload-Settles bus header = search settles_rules depth 14

  spi_read_nfcc-Settles :
      (bus : SpiBus p.Env) (rx : List ℕ) (timeout : ℕ)
      → Settles (wait_for_irq timeout true)
      → Settles (wait_for_irq nfcc_default_timeout false)
      → Settles (spi_read_nfcc bus rx timeout)
  unfolding spi_read_nfcc
  spi_read_nfcc-Settles bus rx timeout waits clears =
      let enabled : Settles (on_board bus.enable) = Settles-on_board bus.enable in
      let selected : Settles (on_board (bus.write_byte tdd_spi_read)) =
        Settles-on_board (bus.write_byte tdd_spi_read) in
      let disabled : Settles (on_board bus.disable) = Settles-on_board bus.disable in
      search (settles_rules, spi_read_payload-Settles) depth 20

module _ ⦃p : Platform⦄ {clock idle : p.Env → ℕ} {lag most : ℕ} (time : IsClock clock lag)
    (ticking : IsTicking clock idle most) (enough : rounds_in most (2 ^ 16 - 1) most < p.patience)
    (small : lag < 2 ^ 31) where
  wait-Settles :
      (timeout : ℕ) (level : Bool) → timeout < 2 ^ 16 → Settles (wait_for_irq timeout level)
  wait-Settles timeout level short =
      let fewer : timeout * (most + 1) ≤ (2 ^ 16 - 1) * (most + 1) =
        mul-le-mul_right (most + 1) (omega arith) in
      record {
        at = λ s.
            wait_for_irq-Returns time ticking timeout level s (omega arith) (omega (arith, enough));
      }

  -- Over SPI, on a clock as in `IsClock` and `IsTicking` whose reads and rounds take less than 2^31
  -- milliseconds, and with rounds enough for the largest timeout of 16 bits: a read returns,
  -- whatever the line and the bus do, and changes nothing but the board.
  pub spi_read_nfcc-Returns :
      (bus : SpiBus p.Env) (rx : List ℕ) (timeout : ℕ) (s : State p)
      → timeout < 2 ^ 16
      → Returns (λ s'. s'.dev ≡ s.dev) (spi_read_nfcc bus rx timeout s)
  spi_read_nfcc-Returns bus rx timeout s short =
      (spi_read_nfcc-Settles bus rx timeout (wait-Settles timeout true short)
          (wait-Settles 10 false (omega arith))).at
        s

  -- Over I2C, on a clock as in `IsClock` and `IsTicking` whose reads and rounds take less than 2^31
  -- milliseconds, and with rounds enough for the largest timeout of 16 bits: a read returns,
  -- whatever the line and the bus do, and changes nothing but the board.
  pub i2c_read_nfcc-Returns :
      (bus : I2cBus p.Env) (rx : List ℕ) (timeout : ℕ) (s : State p)
      → timeout < 2 ^ 16
      → Returns (λ s'. s'.dev ≡ s.dev) (i2c_read_nfcc bus rx timeout s)
  i2c_read_nfcc-Returns bus rx timeout s short =
      (i2c_read_nfcc-Settles bus rx timeout (wait-Settles timeout true short)
          (wait-Settles 10 false (omega arith))).at
        s
