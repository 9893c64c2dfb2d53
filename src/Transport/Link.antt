-- ===== src/Transport/Link.antt =====
-- What a controller offers on the bus: the bytes that it has for the driver and were not read yet.
use esphome_pn.Transport.{wait_for_irq}
use esphome_pn.Driver.{State, ok}
use esphome_pn.Transport.Clock.{IsClock, wait_for_irq-seen}
use esphome_pn.Config.{is_empty}
use esphome_pn.Prelude.{
  List, ℕ, length, ◌≡◌, not, ◌+◌, take, ◌≢◌, ◌<◌, [], false, ◌∷◌, refl, ◌^◌, true, ◌∙◌, sym, ap,
}
use esphome_pn.Platform.{Platform, irq_pin}

module _ ⦃p : Platform⦄ where
  -- The interrupt line is up as long as there are bytes to read. Neither a read of the clock nor a
  -- look at the line that is up changes these bytes; after a look at the line that is down there may
  -- be a new message.
  pub record IsOffer (offered : p.Env → List ℕ) : Type 0 where
    pub line : (e : p.Env) → (p.digital_read irq_pin e).0 ≡ not (is_empty (offered e))
    pub looked : (e : p.Env) → offered e ≢ [] → offered (p.digital_read irq_pin e).1 ≡ offered e
    pub clocked : (e : p.Env) → offered (p.millis e).1 ≡ offered e

  -- one message: a header, and as many bytes as the header says
  pub record IsPacket (m : List ℕ) : Type 0 where
    pub size : length m ≡ p.nci_pkt_header_size + p.get_payload_size (take p.nci_pkt_header_size m)
    pub header : 0 < p.nci_pkt_header_size

is_empty-false : {xs : List ℕ} → xs ≢ [] → is_empty xs ≡ false
is_empty-false {xs = []} h = absurd (h refl)
is_empty-false {xs = x ∷ xs} h = refl

module _ ⦃p : Platform⦄ {clock : p.Env → ℕ} {lag : ℕ} {offered : p.Env → List ℕ}
    (time : IsClock clock lag) (offer : IsOffer offered) (some_round : 0 < p.patience) where
  -- there is something to read, and the line says so at the first look
  pub wait_up :
      (timeout : ℕ) (s : State p)
      → lag < timeout
      → timeout < 2 ^ 32
      → offered s.env ≢ []
      → (e : p.Env) × (offered e ≡ offered s.env)
        × (wait_for_irq timeout true s ≡ ok p.status_ok (record s { env = e }))
  wait_up timeout s quick short some =
      let e = (p.millis (p.millis s.env).1).1 in
      let same : offered e ≡ offered s.env =
        offer.clocked (p.millis s.env).1 ∙ offer.clocked s.env in
      (
        (p.digital_read irq_pin e).1,
        offer.looked e (λ none_left. some (sym same ∙ none_left)) ∙ same,
        wait_for_irq-seen time timeout true s some_round quick short
            (offer.line e ∙ ap not (is_empty-false (λ none_left. some (sym same ∙ none_left)))),
      )

  -- all was read
  pub wait_down :
      (timeout : ℕ) (s : State p)
      → lag < timeout
      → timeout < 2 ^ 32
      → offered s.env ≡ []
      → (e : p.Env) × (wait_for_irq timeout false s ≡ ok p.status_ok (record s { env = e }))
  wait_down timeout s quick short empty =
      let e = (p.millis (p.millis s.env).1).1 in
      let same : offered e ≡ offered s.env =
        offer.clocked (p.millis s.env).1 ∙ offer.clocked s.env in
      (
        _,
        wait_for_irq-seen time timeout false s some_round quick short
            (offer.line e ∙ ap (λ xs. not (is_empty xs)) (same ∙ empty)),
      )
