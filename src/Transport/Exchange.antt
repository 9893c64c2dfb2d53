-- ===== src/Transport/Exchange.antt =====
-- Commands over the two transports: `transceive_` with the transport's `read_nfcc` and `write_nfcc`
-- behind the virtual calls.
use esphome_pn.Transceive.Answered.{value_of, answered}
use esphome_pn.Fsm.{nci_fsm_transition}
use esphome_pn.Fsm.DeadBus.{repeat, dead_bus_fails}
use esphome_pn.Driver.Quiet.{Returns}
use esphome_pn.Transport.Spi.Receive.{IsSpiOffer, spi_receives}
use esphome_pn.Transport.I2c.Receive.{IsI2cOffer, i2c_receives}
use esphome_pn.Transport.Link.{IsOffer, IsPacket}
use esphome_pn.Transport.Clock.{IsClock}
use esphome_pn.Driver.{State, read_nfcc, write_nfcc, ok, nfcc_reset, failed}
use esphome_pn.Transport.I2c.{I2cBus, i2c_read_nfcc, i2c_write_nfcc}
use esphome_pn.Prelude.{
  List, ℕ, ◌≡◌, false, ◌<◌, ◌≢◌, ◌^◌, ◌≤◌, true, ◌+◌, refl, ◌∙◌, ap, sym, if◌then◌else◌,
}
use esphome_pn.Transceive.{transceive}
use esphome_pn.Platform.{Platform}
use esphome_pn.Transport.Spi.{SpiBus, spi_write_nfcc, spi_read_nfcc}

module _ ⦃p : Platform⦄ where
  -- the board after a command was sent over SPI: the direction byte 0x0A and the encoded command,
  -- under the chip select
  abbrev pub spi_sent : SpiBus p.Env → List ℕ → p.Env → p.Env
  spi_sent bus tx e =
      bus.disable (bus.write_array (p.encode_message tx) (bus.write_byte 0x0A (bus.enable e)))

  -- the status of a write on an I2C bus
  refused :
      (bus : I2cBus p.Env) (s : State p) (tx : List ℕ)
      → write_nfcc tx s ≡ i2c_write_nfcc bus tx s
      → (bus.write (p.encode_message tx) s.env).0 ≡ false
      → (p.write_nfcc tx s.env).0 ≡ p.status_failed
  unfolding i2c_write_nfcc value_of
  refused bus s tx over refuses =
      ap (value_of 0) over ∙ ap (λ b. if b then p.status_ok else p.status_failed) refuses

module _ ⦃p : Platform⦄ {clock : p.Env → ℕ} {lag : ℕ} {offered : p.Env → List ℕ}
    (time : IsClock clock lag) (offer : IsOffer offered) (some_round : 0 < p.patience)
    (quick : lag < 10) where
  -- A command, not a data packet, over SPI. The conditions: the clock, the line and the bus follow
  -- `IsClock`, `IsOffer` and `IsSpiOffer`, a round of a wait takes less than 10 milliseconds and
  -- than the timeout, a wait has at least one round, and the write of the command and the read
  -- after it are those of the transport. Where the controller then, after `spi_sent`, offers a
  -- message of the right size with the group and the opcode of the command, `transceive_` returns
  -- this message with its status, and changes nothing but the board.
  pub spi_command :
      (bus : SpiBus p.Env)
      → IsSpiOffer bus offered
      → (tx rx m : List ℕ) (timeout : ℕ) (s : State p)
      → p.message_type_is tx p.nci_pkt_mt_data ≡ false
      → p.get_gid m ≡ p.get_gid tx
      → p.get_oid m ≡ p.get_oid tx
      → lag < timeout
      → timeout < 2 ^ 16
      → write_nfcc tx s ≡ spi_write_nfcc bus tx s
      → (let s1 = record s { env = spi_sent bus tx s.env } in
          read_nfcc rx timeout s1 ≡ spi_read_nfcc bus rx timeout s1)
      → IsPacket m
      → offered (spi_sent bus tx s.env) ≡ m
      → (e : p.Env) × (transceive tx rx timeout true s
          ≡ ok (p.get_simple_status_response m, m) (record s { env = e }))
  unfolding spi_write_nfcc
  spi_command bus on_bus tx rx m timeout s control same_gid same_oid in_time short wrote got packet
        ready =
      let s1 : State p = record s { env = spi_sent bus tx s.env } in
      let (e, read) =
        spi_receives bus on_bus time offer m rx timeout s1 some_round quick in_time short packet
          ready in
      (
        e,
        answered tx rx m timeout s s1 (record s { env = e }) control same_gid same_oid wrote
            (got ∙ read),
      )

  -- A command, not a data packet, over I2C. The conditions: the clock, the line and the bus follow
  -- `IsClock`, `IsOffer` and `IsI2cOffer`, a round of a wait takes less than 10 milliseconds and
  -- than the timeout, a wait has at least one round, and the write of the command and the read
  -- after it are those of the transport. Where the bus accepts the encoded command and the
  -- controller then offers a message of the right size with the group and the opcode of the
  -- command, `transceive_` returns this message with its status, and changes nothing but the board.
  pub i2c_command :
      (bus : I2cBus p.Env)
      → IsI2cOffer bus offered
      → (tx rx m : List ℕ) (timeout : ℕ) (s : State p)
      → p.message_type_is tx p.nci_pkt_mt_data ≡ false
      → p.get_gid m ≡ p.get_gid tx
      → p.get_oid m ≡ p.get_oid tx
      → lag < timeout
      → timeout < 2 ^ 16
      → write_nfcc tx s ≡ i2c_write_nfcc bus tx s
      → (let s1 = record s { env = (bus.write (p.encode_message tx) s.env).1 } in
          read_nfcc rx timeout s1 ≡ i2c_read_nfcc bus rx timeout s1)
      → IsPacket m
      → (bus.write (p.encode_message tx) s.env).0 ≡ true
      → offered (bus.write (p.encode_message tx) s.env).1 ≡ m
      → (e : p.Env) × (transceive tx rx timeout true s
          ≡ ok (p.get_simple_status_response m, m) (record s { env = e }))
  unfolding i2c_write_nfcc
  i2c_command bus on_bus tx rx m timeout s control same_gid same_oid in_time short wrote got packet
        accepted ready =
      let s1 : State p = record s { env = (bus.write (p.encode_message tx) s.env).1 } in
      let (e, read) =
        i2c_receives bus on_bus time offer m rx timeout s1 some_round quick in_time short packet
          ready in
      (
        e,
        answered tx rx m timeout s s1 (record s { env = e }) control same_gid same_oid
            (wrote ∙ rw accepted refl) (got ∙ read),
      )

module _ ⦃p : Platform⦄ where
  -- Where writes are those of an I2C bus on which none succeeds, and where FAILED differs from OK:
  -- from NFCC_RESET with m errors counted, at most 11, n transitions return and end in FAILED if n
  -- + m is at least 12.
  pub i2c_dead_bus_fails :
      (bus : I2cBus p.Env)
      → ((tx : List ℕ) (s : State p) → write_nfcc tx s ≡ i2c_write_nfcc bus tx s)
      → ((tx : List ℕ) (e : p.Env) → (bus.write tx e).0 ≡ false)
      → p.status_failed ≢ p.status_ok
      → (n m : ℕ) (s : State p) → 12 ≤ n + m
      → m ≤ 11
      → s.nci_state ≡ nfcc_reset
      → s.error_count ≡ m
      → Returns (λ s'. s'.nci_state ≡ failed) (repeat n nci_fsm_transition s)
  i2c_dead_bus_fails bus over refuses ne n m s =
      dead_bus_fails
        (λ tx e h. ne (
          sym (
            refused bus (record s { env = e }) tx (over tx (record s { env = e }))
              (refuses (p.encode_message tx) e))
          ∙ h))
        ne n m s
