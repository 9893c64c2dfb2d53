-- ===== src/Tests/Chip.antt =====
-- A controller on a bus: it answers every command at once with a message of the same group and
-- opcode, whose payload is the status OK. Each look at the line takes a millisecond.
use esphome_pn.Config.{is_empty}
use esphome_pn.Driver.{Outcome, State, ok, fault, nfcc_reset, hang}
use esphome_pn.Transport.I2c.{I2cBus, i2c_read_nfcc, i2c_write_nfcc}
use esphome_pn.Prelude.{List, ℕ, ◌+◌, false, true, ◌%◌, take, length, ◌∷◌, ◌^◌, [], drop, not}
use esphome_pn.Platform.{Platform}
use esphome_pn.Tests.Sim.{sim, nth, device}
use esphome_pn.Transport.Spi.{SpiBus, spi_read_nfcc, spi_write_nfcc}

pub record Chip : Type 0 where
  pub now : ℕ
  pub bytes : List ℕ

abbrev next_bytes : List ℕ → Chip → List ℕ × Chip
next_bytes buffer e =
    (take (length buffer) e.bytes, record e { bytes = drop (length buffer) e.bytes })

abbrev answer : List ℕ → List ℕ
answer tx = (nth tx 0 + 0x20) ∷ nth tx 1 ∷ 1 ∷ 0 ∷ []

abbrev pub spi_bus : SpiBus Chip
spi_bus = record {
  spi_setup = λ e. e;
  enable = λ e. e;
  disable = λ e. e;
  write_byte = λ b e. e;
  write_array = λ tx e. record e { bytes = answer tx };
  read_array = next_bytes;
}

abbrev pub i2c_bus : I2cBus Chip
i2c_bus = record {
  read_bytes_raw = λ buffer e. (true, (next_bytes buffer e).0, (next_bytes buffer e).1);
  write = λ tx e. (true, record e { bytes = answer tx });
}

-- a bus on which nobody answers
abbrev pub cut_bus : I2cBus Chip
cut_bus = record { read_bytes_raw = λ buffer e. (false, buffer, e); write = λ tx e. (false, e) }

abbrev pub Read : Type 0
Read = List ℕ → ℕ → Chip → ℕ × List ℕ × Chip

abbrev pub Write : Type 0
Write = List ℕ → Chip → ℕ × Chip

-- the board with the virtual calls of a transport
abbrev pub chip_with : Read → Write → Platform
chip_with read write = record sim {
  Env = Chip;
  millis = λ e. (e.now % 2 ^ 32, e);
  delay = λ ms e. record e { now = e.now + ms };
  setup_pin = λ pin e. e;
  digital_write = λ pin level e. e;
  digital_read = λ pin e. (not (is_empty e.bytes), record e { now = e.now + 1 });
  emit = λ event e. e;
  read_nfcc = read;
  write_nfcc = write;
  patience = 65537;
}

-- without a transport
abbrev pub chip : Platform
chip = chip_with (λ rx timeout e. (3, rx, e)) (λ tx e. (3, e))

abbrev pub at_rest : {p : Platform} → p.Env → State p
at_rest {p = p} e = record { dev = device {p = p} nfcc_reset 0 []; env = e }

abbrev from_read : List ℕ → Chip → Outcome chip (ℕ × List ℕ) → ℕ × List ℕ × Chip
from_read rx e (ok (status, rx') s) = (status, rx', s.env)
from_read rx e fault = (3, rx, e)
from_read rx e hang = (3, rx, e)

abbrev from_write : Chip → Outcome chip ℕ → ℕ × Chip
from_write e (ok status s) = (status, s.env)
from_write e fault = (3, e)
from_write e hang = (3, e)

abbrev spi_read : Read
spi_read rx timeout e =
    from_read rx e (spi_read_nfcc ⦃p = chip⦄ spi_bus rx timeout (at_rest {p = chip} e))

abbrev spi_write : Write
spi_write tx e = from_write e (spi_write_nfcc ⦃p = chip⦄ spi_bus tx (at_rest {p = chip} e))

abbrev i2c_read : I2cBus Chip → Read
i2c_read bus rx timeout e =
    from_read rx e (i2c_read_nfcc ⦃p = chip⦄ bus rx timeout (at_rest {p = chip} e))

abbrev pub i2c_write : I2cBus Chip → Write
unfolding i2c_write_nfcc
i2c_write bus tx e = from_write e (i2c_write_nfcc ⦃p = chip⦄ bus tx (at_rest {p = chip} e))

abbrev pub chip_over_spi : Platform
chip_over_spi = chip_with spi_read spi_write

abbrev pub chip_over : I2cBus Chip → Platform
chip_over bus = chip_with (i2c_read bus) (i2c_write bus)
