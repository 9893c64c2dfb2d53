-- ===== src/Transport/Spi/Receive.antt =====
-- A message that the controller has ready is what a read over SPI gives.
use esphome_pn.Transceive.{nfcc_default_timeout}
use esphome_pn.Transport.{wait_for_irq}
use esphome_pn.Transport.Buffer.{length-rest, something, nothing_left, joined, header_only}
use esphome_pn.Transport.Clock.{IsClock}
use esphome_pn.Transport.Link.{IsPacket, IsOffer, wait_up, wait_down}
use esphome_pn.Driver.{State, ok}
use esphome_pn.Prelude.{
  List, ℕ, ◌≡◌, length, ◌≤◌, drop, take, [], arith, ◌∙◌, ap, ◌+◌, dec_lt, ◌<◌, resize, ◌^◌, ltb,
  true, sym, false, ◌==◌, eq→==, refl, length-resize, length-drop,
}
use esphome_pn.Platform.{Platform}
use esphome_pn.Transport.Spi.{SpiBus, spi_read_payload, tdd_spi_read, spi_read_nfcc}

module _ ⦃p : Platform⦄ (bus : SpiBus p.Env) where
  -- What the bus does with the bytes that are offered: the chip select and the direction byte for a
  -- read leave them, and a read takes as many of them, in order, as the buffer has room for.
  pub record IsSpiOffer (offered : p.Env → List ℕ) : Type 0 where
    pub enabled : (e : p.Env) → offered (bus.enable e) ≡ offered e
    pub selected : (e : p.Env) → offered (bus.write_byte tdd_spi_read e) ≡ offered e
    pub disabled : (e : p.Env) → offered (bus.disable e) ≡ offered e
    pub gives :
        (buffer : List ℕ) (e : p.Env)
        → length buffer ≤ length (offered e)
        → (bus.read_array buffer e).0 ≡ take (length buffer) (offered e)
    pub takes :
        (buffer : List ℕ) (e : p.Env)
        → length buffer ≤ length (offered e)
        → offered (bus.read_array buffer e).1 ≡ drop (length buffer) (offered e)

module _ ⦃p : Platform⦄ (bus : SpiBus p.Env) {offered : p.Env → List ℕ}
    (on_bus : IsSpiOffer bus offered) where
  -- a buffer of n bytes
  read_array_lem :
      (buffer : List ℕ) (n : ℕ) (e : p.Env)
      → length buffer ≡ n
      → n ≤ length (offered e)
      → ((bus.read_array buffer e).0 ≡ take n (offered e))
        × (offered (bus.read_array buffer e).1 ≡ drop n (offered e))
  read_array_lem buffer n e size l =
      let fits : length buffer ≤ length (offered e) = omega arith in
      (
        on_bus.gives buffer e fits ∙ ap (λ k. take k (offered e)) size,
        on_bus.takes buffer e fits ∙ ap (λ k. drop k (offered e)) size,
      )

  -- the payload of a message whose header was read
  read_payload_lem :
      (m : List ℕ) (s : State p)
      → IsPacket m
      → offered s.env ≡ drop p.nci_pkt_header_size m
      → (e : p.Env) × (offered e ≡ [])
        × (spi_read_payload bus (take p.nci_pkt_header_size m) s ≡ ok m (record s { env = e }))
  unfolding spi_read_payload
  read_payload_lem m s packet rest =
      let h = p.nci_pkt_header_size in
      let k = p.get_payload_size (take h m) in
      let size = packet.size in
      let ready : length (offered s.env) ≡ k = rw rest (omega (arith, length-drop h m)) in
      elim (dec_lt 0 k) [
        | yes some ↦
            let filled : ltb 0 k ≡ true = ground arith in
            let (read, left) =
              read_array_lem (drop h (resize (take h m) (k + h))) k s.env
                (length-rest (take h m) h k) (omega arith) in
            (
              _,
              left ∙ ap (λ xs. drop k xs) rest ∙ nothing_left h k m size,
              rw filled (rw read (rw rest (rw (joined h k m size) refl))),
            )
        | no none ↦
            let empty : ltb 0 k ≡ false = ground arith in
            (
              s.env,
              rest ∙ nothing_left h 0 m (omega arith),
              rw empty (ap (λ xs. ok xs s) (header_only h m (omega arith))),
            )
      ]

  -- the parts of a read that succeeds
  assembled :
      (m rx : List ℕ) (timeout : ℕ) (s : State p) (e1 e3 e4 : p.Env)
      → wait_for_irq timeout true s ≡ ok p.status_ok (record s { env = e1 })
      → (bus.read_array
          (resize rx p.nci_pkt_header_size)
          (bus.write_byte tdd_spi_read (bus.enable e1))).0
        ≡ take p.nci_pkt_header_size m
      → spi_read_payload bus (take p.nci_pkt_header_size m) (record s {
        env =
            (bus.read_array
              (resize rx p.nci_pkt_header_size)
              (bus.write_byte tdd_spi_read (bus.enable e1))).1;
      })
        ≡ ok m (record s { env = e3 })
      → wait_for_irq nfcc_default_timeout false (record s { env = bus.disable e3 })
        ≡ ok p.status_ok (record s { env = e4 })
      → spi_read_nfcc bus rx timeout s ≡ ok (p.status_ok, m) (record s { env = e4 })
  unfolding spi_read_nfcc
  assembled m rx timeout s e1 e3 e4 up header whole down =
      let same : (p.status_ok == p.status_ok) ≡ true = eq→== refl in
      rw up (rw same (rw header (rw whole (rw down (rw same refl)))))

  module _ {clock : p.Env → ℕ} {lag : ℕ} (time : IsClock clock lag) (offer : IsOffer offered) where
    -- A message of the right size, header and payload, that the controller offers is what a read
    -- over SPI leaves in `rx`, with the status OK and nothing but the board changed, whatever `rx`
    -- was. The conditions: the clock, the line and the bus follow `IsClock`, `IsOffer` and
    -- `IsSpiOffer`, a round of a wait takes less than 10 milliseconds and than the timeout, which
    -- has 16 bits, and a wait has at least one round.
    pub spi_receives :
        (m rx : List ℕ) (timeout : ℕ) (s : State p)
        → 0 < p.patience
        → lag < 10
        → lag < timeout
        → timeout < 2 ^ 16
        → IsPacket m
        → offered s.env ≡ m
        → (e : p.Env) × (spi_read_nfcc bus rx timeout s
            ≡ ok (p.status_ok, m) (record s { env = e }))
    spi_receives m rx timeout s some_round quick in_time short packet ready =
        let h = p.nci_pkt_header_size in
        let long : h ≤ length m = omega (arith, packet.size) in
        let (e1, same1, up) =
          wait_up time offer some_round timeout s in_time (omega arith)
            (λ none_left. something h m packet.header long (sym ready ∙ none_left)) in
        let e2 = bus.write_byte tdd_spi_read (bus.enable e1) in
        let all : offered e2 ≡ m =
          on_bus.selected (bus.enable e1) ∙ on_bus.enabled e1 ∙ same1 ∙ ready in
        let (header, left) = read_array_lem (resize rx h) h e2 (length-resize rx h) (rw all long) in
        let (e3, none_left, whole) =
          read_payload_lem m (record s { env = (bus.read_array (resize rx h) e2).1 }) packet
            (left ∙ ap (λ xs. drop h xs) all) in
        let (e4, down) =
          wait_down time offer some_round 10 (record s { env = bus.disable e3 }) quick (omega arith)
            (on_bus.disabled e3 ∙ none_left) in
        let same : (p.status_ok == p.status_ok) ≡ true = eq→== refl in
        (e4, assembled m rx timeout s e1 e3 e4 up (header ∙ ap (λ xs. take h xs) all) whole down)
