-- ===== src/Transport/I2c/Receive.antt =====
-- A message that the controller has ready is what a read over I2C gives.
use esphome_pn.Transceive.{nfcc_default_timeout}
use esphome_pn.Transport.Buffer.{something, length-rest, nothing_left, joined, header_only}
use esphome_pn.Transport.{wait_for_irq}
use esphome_pn.Transport.Link.{IsOffer, IsPacket, wait_up, wait_down}
use esphome_pn.Driver.{State, ok}
use esphome_pn.Transport.Clock.{IsClock}
use esphome_pn.Prelude.{
  List, ℕ, length, ◌≤◌, ◌≡◌, true, ◌<◌, take, drop, ◌^◌, [], arith, resize, ◌∙◌, false, ap, dec_lt,
  ◌==◌, sym, ltb, ◌+◌, eq→==, refl, length-resize, length-drop,
}
use esphome_pn.Transport.I2c.{I2cBus, i2c_read_payload, i2c_read_nfcc}
use esphome_pn.Platform.{Platform}

module _ ⦃p : Platform⦄ (bus : I2cBus p.Env) where
  -- What the bus does with the bytes that are offered: a read succeeds and takes as many of them,
  -- in order, as the buffer has room for.
  pub record IsI2cOffer (offered : p.Env → List ℕ) : Type 0 where
    pub done :
        (buffer : List ℕ) (e : p.Env)
        → length buffer ≤ length (offered e)
        → (bus.read_bytes_raw buffer e).0 ≡ true
    pub gives :
        (buffer : List ℕ) (e : p.Env)
        → length buffer ≤ length (offered e)
        → (bus.read_bytes_raw buffer e).1 ≡ take (length buffer) (offered e)
    pub takes :
        (buffer : List ℕ) (e : p.Env)
        → length buffer ≤ length (offered e)
        → offered (bus.read_bytes_raw buffer e).2 ≡ drop (length buffer) (offered e)

module _ ⦃p : Platform⦄ (bus : I2cBus p.Env) {offered : p.Env → List ℕ}
    (on_bus : IsI2cOffer bus offered) where
  -- a buffer of n bytes
  read_bytes_raw_lem :
      (buffer : List ℕ) (n : ℕ) (e : p.Env)
      → length buffer ≡ n
      → n ≤ length (offered e)
      → ((bus.read_bytes_raw buffer e).0 ≡ true)
        × ((bus.read_bytes_raw buffer e).1 ≡ take n (offered e))
        × (offered (bus.read_bytes_raw buffer e).2 ≡ drop n (offered e))
  read_bytes_raw_lem buffer n e size l =
      let fits : length buffer ≤ length (offered e) = omega arith in
      (
        on_bus.done buffer e fits,
        on_bus.gives buffer e fits ∙ ap (λ k. take k (offered e)) size,
        on_bus.takes buffer e fits ∙ ap (λ k. drop k (offered e)) size,
      )

  -- the payload of a message whose header was read
  read_payload_lem :
      (m : List ℕ) (s : State p)
      → IsPacket m
      → offered s.env ≡ drop p.nci_pkt_header_size m
      → (e : p.Env) × (offered e ≡ [])
        × (i2c_read_payload bus (take p.nci_pkt_header_size m) s
            ≡ ok (true, m) (record s { env = e }))
  unfolding i2c_read_payload
  read_payload_lem m s packet rest =
      let h = p.nci_pkt_header_size in
      let k = p.get_payload_size (take h m) in
      let size = packet.size in
      let ready : length (offered s.env) ≡ k = rw rest (omega (arith, length-drop h m)) in
      elim (dec_lt 0 k) [
        | yes some ↦
            let filled : ltb 0 k ≡ true = ground arith in
            let (done, read, left) =
              read_bytes_raw_lem (drop h (resize (take h m) (k + h))) k s.env
                (length-rest (take h m) h k) (omega arith) in
            (
              _,
              left ∙ ap (λ xs. drop k xs) rest ∙ nothing_left h k m size,
              rw filled (rw done (rw read (rw rest (rw (joined h k m size) refl)))),
            )
        | no none ↦
            let empty : ltb 0 k ≡ false = ground arith in
            (
              s.env,
              rest ∙ nothing_left h 0 m (omega arith),
              rw empty (ap (λ xs. ok (true, xs) s) (header_only h m (omega arith))),
            )
      ]

  -- the parts of a read that succeeds
  assembled :
      (m rx : List ℕ) (timeout : ℕ) (s : State p) (e1 e3 e4 : p.Env)
      → wait_for_irq timeout true s ≡ ok p.status_ok (record s { env = e1 })
      → (bus.read_bytes_raw (resize rx p.nci_pkt_header_size) e1).0 ≡ true
      → (bus.read_bytes_raw (resize rx p.nci_pkt_header_size) e1).1 ≡ take p.nci_pkt_header_size m
      → i2c_read_payload bus
          (take p.nci_pkt_header_size m)
          (record s { env = (bus.read_bytes_raw (resize rx p.nci_pkt_header_size) e1).2 })
        ≡ ok (true, m) (record s { env = e3 })
      → wait_for_irq nfcc_default_timeout false (record s { env = e3 })
        ≡ ok p.status_ok (record s { env = e4 })
      → i2c_read_nfcc bus rx timeout s ≡ ok (p.status_ok, m) (record s { env = e4 })
  unfolding i2c_read_nfcc
  assembled m rx timeout s e1 e3 e4 up done header whole down =
      let same : (p.status_ok == p.status_ok) ≡ true = eq→== refl in
      rw up (rw same (rw done (rw header (rw whole (rw down (rw same refl))))))

  module _ {clock : p.Env → ℕ} {lag : ℕ} (time : IsClock clock lag) (offer : IsOffer offered) where
    -- A message of the right size, header and payload, that the controller offers is what a read
    -- over I2C leaves in `rx`, with the status OK and nothing but the board changed, whatever `rx`
    -- was. The conditions: the clock, the line and the bus follow `IsClock`, `IsOffer` and
    -- `IsI2cOffer`, a round of a wait takes less than 10 milliseconds and than the timeout, which
    -- has 16 bits, and a wait has at least one round.
    pub i2c_receives :
        (m rx : List ℕ) (timeout : ℕ) (s : State p)
        → 0 < p.patience
        → lag < 10
        → lag < timeout
        → timeout < 2 ^ 16
        → IsPacket m
        → offered s.env ≡ m
        → (e : p.Env) × (i2c_read_nfcc bus rx timeout s
            ≡ ok (p.status_ok, m) (record s { env = e }))
    i2c_receives m rx timeout s some_round quick in_time short packet ready =
        let h = p.nci_pkt_header_size in
        let long : h ≤ length m = omega (arith, packet.size) in
        let (e1, same1, up) =
          wait_up time offer some_round timeout s in_time (omega arith)
            (λ none_left. something h m packet.header long (sym ready ∙ none_left)) in
        let all : offered e1 ≡ m = same1 ∙ ready in
        let (done, header, left) =
          read_bytes_raw_lem (resize rx h) h e1 (length-resize rx h) (rw all long) in
        let (e3, none_left, whole) =
          read_payload_lem m (record s { env = (bus.read_bytes_raw (resize rx h) e1).2 }) packet
            (left ∙ ap (λ xs. drop h xs) all) in
        let (e4, down) =
          wait_down time offer some_round 10 (record s { env = e3 }) quick (omega arith)
            none_left in
        (
          e4,
          assembled m rx timeout s e1 e3 e4 up done (header ∙ ap (λ xs. take h xs) all) whole down,
        )
