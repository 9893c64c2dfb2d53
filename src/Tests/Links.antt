-- ===== src/Tests/Links.antt =====
-- The transports on the controller of `Tests/Chip`.
use esphome_pn.Transport.Exchange.{i2c_dead_bus_fails, i2c_command, spi_command}
use esphome_pn.Transceive.{transceive}
use esphome_pn.Fsm.{nci_fsm_transition}
use esphome_pn.Fsm.DeadBus.{repeat}
use esphome_pn.Transport.Ends.{spi_read_nfcc-Returns, i2c_read_nfcc-Returns}
use esphome_pn.Transport.{wait_for_irq, wait_round}
use esphome_pn.Transport.Spi.{spi_read_nfcc, spi_write_nfcc, spi_read_payload}
use esphome_pn.Transport.I2c.{i2c_read_nfcc, i2c_write_nfcc, i2c_read_payload}
use esphome_pn.Driver.Quiet.{Returns}
use esphome_pn.Driver.{State, ok, failed}
use esphome_pn.Transport.Clock.{IsTicking, IsClock}
use esphome_pn.Transport.Spi.Receive.{IsSpiOffer, spi_receives}
use esphome_pn.Prelude.{List, ◌≡◌, refl, arith, ℕ, ◌∷◌, [], inl, true}
use esphome_pn.Transport.Link.{IsPacket, IsOffer}
use esphome_pn.Transport.I2c.Receive.{IsI2cOffer, i2c_receives}
use esphome_pn.Tests.Chip.{
  chip, Chip, spi_bus, at_rest, i2c_bus, cut_bus, chip_over_spi, Read, chip_over, Write, chip_with,
}

chip-IsClock : {r : Read} {w : Write} → IsClock ⦃p = chip_with r w⦄ (λ e. e.now) 1
chip-IsClock = record {
  reads = λ e. refl;
  forward = λ e. omega arith;
  millis_lag = λ e. omega arith;
  onward = λ e. omega arith;
  round_lag = λ e. omega arith;
}

chip-IsTicking : {r : Read} {w : Write} → IsTicking ⦃p = chip_with r w⦄ (λ e. e.now) (λ e. 0) 0
chip-IsTicking = record { bounded = λ e. omega arith; ticks = λ e. inl (omega arith) }

chip-IsOffer : {r : Read} {w : Write} → IsOffer ⦃p = chip_with r w⦄ (λ e. e.bytes)
chip-IsOffer = record { line = λ e. refl; looked = λ e some. refl; clocked = λ e. refl }

chip-IsSpiOffer : {r : Read} {w : Write} → IsSpiOffer ⦃p = chip_with r w⦄ spi_bus (λ e. e.bytes)
chip-IsSpiOffer = record {
  enabled = λ e. refl;
  selected = λ e. refl;
  disabled = λ e. refl;
  gives = λ buffer e l. refl;
  takes = λ buffer e l. refl;
}

chip-IsI2cOffer : {r : Read} {w : Write} → IsI2cOffer ⦃p = chip_with r w⦄ i2c_bus (λ e. e.bytes)
chip-IsI2cOffer = record {
  done = λ buffer e l. refl;
  gives = λ buffer e l. refl;
  takes = λ buffer e l. refl;
}

abbrev message : List ℕ
message = 0x60 ∷ 7 ∷ 2 ∷ 0xA1 ∷ 0 ∷ []

message-IsPacket : IsPacket ⦃p = chip⦄ message
message-IsPacket = record { size = refl; header = omega arith }

abbrev offering : State chip
offering = at_rest {p = chip} (record { now = 5; bytes = message })

spi_receives_example :
    (e : Chip) × (spi_read_nfcc ⦃p = chip⦄ spi_bus [] 10 offering
      ≡ ok (0, message) (record offering { env = e }))
spi_receives_example =
    spi_receives ⦃p = chip⦄ spi_bus chip-IsSpiOffer chip-IsClock chip-IsOffer message [] 10 offering
      (omega arith) (omega arith) (omega arith) (omega arith) message-IsPacket refl

i2c_receives_example :
    (e : Chip) × (i2c_read_nfcc ⦃p = chip⦄ i2c_bus [] 10 offering
      ≡ ok (0, message) (record offering { env = e }))
i2c_receives_example =
    i2c_receives ⦃p = chip⦄ i2c_bus chip-IsI2cOffer chip-IsClock chip-IsOffer message [] 10 offering
      (omega arith) (omega arith) (omega arith) (omega arith) message-IsPacket refl

spi_read_nfcc-Returns_example :
    Returns (λ s'. s'.dev ≡ offering.dev) (spi_read_nfcc ⦃p = chip⦄ spi_bus [] 100 offering)
spi_read_nfcc-Returns_example =
    spi_read_nfcc-Returns ⦃p = chip⦄ chip-IsClock chip-IsTicking (omega arith) (omega arith) spi_bus
      [] 100 offering (omega arith)

i2c_read_nfcc-Returns_example :
    Returns (λ s'. s'.dev ≡ offering.dev) (i2c_read_nfcc ⦃p = chip⦄ cut_bus [] 100 offering)
i2c_read_nfcc-Returns_example =
    i2c_read_nfcc-Returns ⦃p = chip⦄ chip-IsClock chip-IsTicking (omega arith) (omega arith) cut_bus
      [] 100 offering (omega arith)

abbrev command : List ℕ
command = 0x20 ∷ 0 ∷ 1 ∷ 1 ∷ []

abbrev response : List ℕ
response = 0x40 ∷ 0 ∷ 1 ∷ 0 ∷ []

abbrev quiet_spi : State chip_over_spi
quiet_spi = at_rest {p = chip_over_spi} (record { now = 5; bytes = [] })

spi_command_example :
    (e : Chip) × (transceive ⦃p = chip_over_spi⦄ command [] 10 true quiet_spi
      ≡ ok (0, response) (record quiet_spi { env = e }))
unfolding spi_write_nfcc spi_read_nfcc spi_read_payload wait_for_irq wait_round
spi_command_example =
    spi_command ⦃p = chip_over_spi⦄ chip-IsClock chip-IsOffer (omega arith) (omega arith) spi_bus
      chip-IsSpiOffer command [] response 10 quiet_spi refl refl refl (omega arith) (omega arith)
      refl refl (record { size = refl; header = omega arith }) refl

abbrev quiet_i2c : State (chip_over i2c_bus)
quiet_i2c = at_rest {p = chip_over i2c_bus} (record { now = 5; bytes = [] })

i2c_command_example :
    (e : Chip) × (transceive ⦃p = chip_over i2c_bus⦄ command [] 10 true quiet_i2c
      ≡ ok (0, response) (record quiet_i2c { env = e }))
unfolding i2c_write_nfcc i2c_read_nfcc i2c_read_payload wait_for_irq wait_round
i2c_command_example =
    i2c_command ⦃p = chip_over i2c_bus⦄ chip-IsClock chip-IsOffer (omega arith) (omega arith)
      i2c_bus chip-IsI2cOffer command [] response 10 quiet_i2c refl refl refl (omega arith)
      (omega arith) refl refl (record { size = refl; header = omega arith }) refl refl

abbrev cut_off : State (chip_over cut_bus)
cut_off = at_rest {p = chip_over cut_bus} (record { now = 5; bytes = [] })

i2c_dead_bus_fails_example :
    Returns
      (λ s'. s'.nci_state ≡ failed)
      (repeat ⦃p = chip_over cut_bus⦄ 12 (nci_fsm_transition ⦃p = chip_over cut_bus⦄) cut_off)
unfolding i2c_write_nfcc
i2c_dead_bus_fails_example =
    i2c_dead_bus_fails ⦃p = chip_over cut_bus⦄ cut_bus (λ tx s. refl) (λ tx e. refl) (omega arith)
      12 0 cut_off (omega arith) (omega arith) refl refl
