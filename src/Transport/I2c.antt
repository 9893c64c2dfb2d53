-- ===== src/Transport/I2c.antt =====
-- components/pn7160_i2c/pn7160_i2c.cpp: the driver on an I2C bus.
pub mod Receive
use esphome_pn.Transceive.{nfcc_default_timeout}
use esphome_pn.Transport.{wait_for_irq}
use esphome_pn.Driver.{M, ◌>>=◌, ok, pure}
use esphome_pn.Prelude.{
  List, ℕ, Bool, if◌then◌else◌, ◌+◌, true, ltb, drop, not, ◌==◌, take, false, ◌++◌, resize,
}
use esphome_pn.Platform.{Platform}

-- `i2c::I2CDevice`: the calls that the transport makes. `read_bytes_raw` is given the bytes of the
-- buffer that it fills, and gives whether it succeeded and the bytes that it leaves there; `write`
-- gives whether its result is `i2c::ERROR_OK`.
pub record I2cBus (Env : Type 0) : Type 0 where
  pub read_bytes_raw : List ℕ → Env → Bool × List ℕ × Env
  pub write : List ℕ → Env → Bool × Env

module _ ⦃p : Platform⦄ (bus : I2cBus p.Env) where
  abbrev pub i2c_read_bytes_raw : List ℕ → M p (Bool × List ℕ)
  i2c_read_bytes_raw buffer s =
      let (done, bytes, e) = bus.read_bytes_raw buffer s.env in
      ok (done, bytes) (record s { env = e })

  -- the payload, behind the header that was read, and whether it was read as well
  unfoldable pub i2c_read_payload : List ℕ → M p (Bool × List ℕ)
  i2c_read_payload header =
      let size = p.get_payload_size header in
      let rx = resize header (size + p.nci_pkt_header_size) in
      if ltb 0 size
      then (do
        (done, payload) ← i2c_read_bytes_raw (drop p.nci_pkt_header_size rx)
        pure (done, take p.nci_pkt_header_size rx ++ payload))
      else pure (true, header)

  unfoldable pub i2c_read_nfcc : List ℕ → ℕ → M p (ℕ × List ℕ)
  i2c_read_nfcc rx timeout = do
    waited ← wait_for_irq timeout true
    if not (waited == p.status_ok) then pure (p.status_failed, rx) else do
      (done, header) ← i2c_read_bytes_raw (resize rx p.nci_pkt_header_size)
      if not done then pure (p.status_failed, header) else do
        (complete, rx') ← i2c_read_payload header
        if not complete then pure (p.status_failed, rx') else do
          cleared ← wait_for_irq nfcc_default_timeout false
          pure (if not (cleared == p.status_ok) then p.status_failed else p.status_ok, rx')

  unfoldable pub i2c_write_nfcc : List ℕ → M p ℕ
  i2c_write_nfcc tx s =
      let (done, e) = bus.write (p.encode_message tx) s.env in
      ok (if done then p.status_ok else p.status_failed) (record s { env = e })
