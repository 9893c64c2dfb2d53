-- ===== src/Transport/Spi.antt =====
-- components/pn7160_spi/pn7160_spi.cpp and its header: the driver on an SPI bus.
pub mod Receive
use esphome_pn.Transceive.{nfcc_default_timeout}
use esphome_pn.Health.{setup}
use esphome_pn.Transport.{wait_for_irq, on_board}
use esphome_pn.Driver.{M, ◌>>=◌, ◌>>◌, ok, pure, digital_write}
use esphome_pn.Prelude.{
  ℕ, List, ◌+◌, true, if◌then◌else◌, not, ltb, false, drop, ◌==◌, take, ◌++◌, resize,
}
use esphome_pn.Platform.{Platform, cs_pin}

-- `spi::SPIDevice`: the calls that the transport makes. `read_array` is given the bytes of the
-- buffer that it fills, and gives the bytes that it leaves there.
pub record SpiBus (Env : Type 0) : Type 0 where
  pub spi_setup : Env → Env
  pub enable : Env → Env
  pub disable : Env → Env
  pub write_byte : ℕ → Env → Env
  pub write_array : List ℕ → Env → Env
  pub read_array : List ℕ → Env → List ℕ × Env

abbrev pub tdd_spi_read : ℕ
tdd_spi_read = 0xFF

abbrev pub tdd_spi_write : ℕ
tdd_spi_write = 0x0A

module _ ⦃p : Platform⦄ (bus : SpiBus p.Env) where
  abbrev pub spi_read_array : List ℕ → M p (List ℕ)
  spi_read_array buffer s =
      let (bytes, e) = bus.read_array buffer s.env in ok bytes (record s { env = e })

  unfoldable pub spi_setup : M p (Unit {0})
  spi_setup = do on_board bus.spi_setup; digital_write cs_pin false; setup

  -- the payload, behind the header that was read
  unfoldable pub spi_read_payload : List ℕ → M p (List ℕ)
  spi_read_payload header =
      let size = p.get_payload_size header in
      let rx = resize header (size + p.nci_pkt_header_size) in
      if ltb 0 size
      then (do
        payload ← spi_read_array (drop p.nci_pkt_header_size rx)
        pure (take p.nci_pkt_header_size rx ++ payload))
      else pure header

  unfoldable pub spi_read_nfcc : List ℕ → ℕ → M p (ℕ × List ℕ)
  spi_read_nfcc rx timeout = do
    waited ← wait_for_irq timeout true
    if not (waited == p.status_ok) then pure (p.status_failed, rx) else do
      on_board bus.enable
      on_board (bus.write_byte tdd_spi_read)
      header ← spi_read_array (resize rx p.nci_pkt_header_size)
      rx' ← spi_read_payload header
      on_board bus.disable
      cleared ← wait_for_irq nfcc_default_timeout false
      pure (if not (cleared == p.status_ok) then p.status_failed else p.status_ok, rx')

  unfoldable pub spi_write_nfcc : List ℕ → M p ℕ
  spi_write_nfcc tx = do
    on_board bus.enable
    on_board (bus.write_byte tdd_spi_write)
    on_board (bus.write_array (p.encode_message tx))
    on_board bus.disable
    pure p.status_ok
