-- ===== src/Endpoints/Purge.antt =====
-- `erase_tag_`, with the calls that it makes.
use esphome_pn.Driver.Reads.{get_elem?-some}
use esphome_pn.Driver.{Device, State, ok}
use esphome_pn.Prelude.{ℕ, List, length, ◌≡◌, ◌∷◌, ◌<◌, arith, [], erase_at, refl, ◌%◌, ltb, true}
use esphome_pn.Endpoints.{emit_all, erase_tag, Endpoint}
use esphome_pn.Platform.{Platform, Event, on_tag_removed, tag_off}

module _ ⦃p : Platform⦄ where
  -- the members of the driver, up to the table of endpoints
  abbrev pub same_but_endpoints : Device p → List Endpoint → Device p
  same_but_endpoints d xs = record d { discovered_endpoint = xs }

  -- What events do not take from the board, `emit_all` and `erase_tag_` leave in place.
  module _ (Q : p.Env → Type 0)
      (emits : (event : Event p.NfcTag) (e : p.Env) → Q e → Q (p.emit event e)) where
    pub emit_all_lem :
        (event : ℕ → Event p.NfcTag) (xs : List ℕ) (s : State p)
        → Q s.env
        → (e : p.Env) × Q e × (emit_all event xs s ≡ ok tt (record s { env = e }))
    unfolding emit_all
    emit_all_lem event [] s q = (_, q, refl)
    emit_all_lem event (x ∷ xs) s q =
        emit_all_lem event xs (record s { env = p.emit (event x) s.env }) (emits (event x) s.env q)

    -- `erase_tag_` of an index in the table returns, and removes exactly the endpoint at that index
    -- modulo 256; no other member is changed.
    pub erase_tag_lem :
        (i : ℕ) (s : State p)
        → i < length s.discovered_endpoint
        → Q s.env
        → (e : p.Env) × Q e
          × (erase_tag i s
              ≡ ok tt (record s {
                dev = same_but_endpoints s.dev (erase_at s.discovered_endpoint (i % 256));
                env = e;
              }))
    unfolding erase_tag
    erase_tag_lem i s h q =
        let (x, at_i) = get_elem?-some s.discovered_endpoint (i % 256) (omega arith) in
        let (e, q', removed) =
          emit_all_lem (λ trigger. on_tag_removed trigger x.tag) s.triggers_ontagremoved s q in
        let (e', q'', off) =
          emit_all_lem (λ listener. tag_off listener x.tag) s.tag_listeners (record s { env = e })
            q' in
        let inside : ltb (i % 256) (length s.discovered_endpoint) ≡ true = ground arith in
        (e', q'', rw inside (rw at_i (rw removed (rw off refl))))
