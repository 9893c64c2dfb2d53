-- ===== src/Messages/Selecting.antt =====
-- What becomes of the endpoint that could not be activated.
use esphome_pn.Transceive.{nfcc_default_timeout}
use esphome_pn.Transceive.Laws.{transceive-Answers}
use esphome_pn.Discovery.{
  select_from, select_endpoint, first_untriggered, choose_endpoint, endpoint_data,
}
use esphome_pn.States.Errors.{entered}
use esphome_pn.Endpoints.Purge.{erase_tag_lem}
use esphome_pn.Config.{byte_of}
use esphome_pn.States.{nci_fsm_set_state, state_eq}
use esphome_pn.Messages.Dispatch.{activation_failed}
use esphome_pn.Driver.Quiet.{Returns, returned, Keeps, Keeps-ok, keeps}
use esphome_pn.Driver.{State, ep_selecting, rfst_w4_host_select, DiscoveredEndpoint, ok}
use esphome_pn.Prelude.{
  ℕ, ◌≡◌, not, ◌==◌, ◌<◌, length, erase_at, if◌then◌else◌, true, arith, ltb, ap, refl, ◌%◌, List,
  get_elem?, some, ◌∷◌, false, suc, All, take, [], ◌+◌, zero, Bool-cases, ◌∙◌, inl, subst, inr,
}
use esphome_pn.Platform.{Platform}

module _ ⦃p : Platform⦄ where
  get_elem?-inside :
      {A : Type 0} (xs : List A) (j : ℕ) (y : A) → get_elem? xs j ≡ some y → j < length xs
  get_elem?-inside [] j y h = cc
  get_elem?-inside (x ∷ xs) zero y h = omega arith
  get_elem?-inside (x ∷ xs) (suc j) y h = omega (arith, get_elem?-inside xs j y h)

  -- the first endpoint whose triggers were not called
  first_untriggered_at :
      (i j : ℕ) (xs : List (DiscoveredEndpoint p.NfcTag)) (y : DiscoveredEndpoint p.NfcTag)
      → get_elem? xs j ≡ some y
      → y.trig_called ≡ false
      → All (λ x. x.trig_called ≡ true) (take j xs)
      → first_untriggered i xs ≡ some (i + j, y)
  unfolding first_untriggered
  first_untriggered_at i j [] y h fresh before = cc
  first_untriggered_at i zero (x ∷ xs) y h fresh before =
      let e : x ≡ y = cc in
      let n : i ≡ i + 0 = omega arith in
      ap (λ b. if not b then some (i, x) else first_untriggered (i + 1) xs)
        (ap (λ z. z.trig_called) e ∙ fresh)
      ∙ ap (λ z. some (i, z)) e
      ∙ ap (λ k. some (k, y)) n
  first_untriggered_at i (suc j) (x ∷ xs) y h fresh before =
      let n : i + 1 + j ≡ i + suc j = omega arith in
      rw before.0 (first_untriggered_at (i + 1) j xs y h fresh before.1 ∙ ap (λ k. some (k, y)) n)

  -- What `select_endpoint_` leaves in the member, and that it leaves the table.
  abbrev Selected : ℕ → List (DiscoveredEndpoint p.NfcTag) → State p → Type 0
  Selected j xs s = (s.selecting_endpoint ≡ not (j == 0)) × (s.discovered_endpoint ≡ xs)

  select_endpoint-Selected :
      (j : ℕ) (xs : List (DiscoveredEndpoint p.NfcTag)) (y : DiscoveredEndpoint p.NfcTag)
      (s : State p)
      → s.discovered_endpoint ≡ xs
      → get_elem? xs j ≡ some y
      → first_untriggered 0 xs ≡ some (j, y)
      → Keeps (Selected j xs) (select_from xs s)
  unfolding select_from choose_endpoint nci_fsm_set_state
  select_endpoint-Selected j [] y s same at_j first = cc
  select_endpoint-Selected j (x ∷ xs) y s same at_j first =
      let s1 = record s { dev = record s.dev { selecting_endpoint = not (j == 0) } } in
      let tx =
        p.ctrl_message p.nci_pkt_mt_ctrl_command p.rf_gid p.rf_discover_select_oid
          (endpoint_data y) in
      let answer = transceive-Answers tx p.new_message nfcc_default_timeout true s1 in
      elim (Bool-cases (answer.value == p.status_ok)) [
        | inl fine ↦ rw first (rw answer.returns (rw fine (keeps (refl, same))))
        | inr refused ↦ rw first (rw answer.returns (rw refused (keeps (refl, same))))
      ]

  failed_at :
      (j : ℕ) (s : State p)
      → s.nci_state ≡ ep_selecting
      → s.selecting_endpoint ≡ not (j == 0)
      → j < length s.discovered_endpoint
      → Returns
          (λ s'.
            (s'.discovered_endpoint ≡ erase_at s.discovered_endpoint (if j == 0 then 0 else 1))
            × (s'.nci_state ≡ rfst_w4_host_select))
          (activation_failed s)
  unfolding activation_failed nci_fsm_set_state
  failed_at j s h e l =
      let selecting : state_eq s.nci_state ep_selecting ≡ true = ground arith in
      let found : ltb 0 (length s.discovered_endpoint) ≡ true = ground arith in
      let index : byte_of s.selecting_endpoint % 256 ≡ (if j == 0 then 0 else 1) = ground arith in
      let (e', _, erased) =
        erase_tag_lem (λ e. Unit {0}) (λ event e q. tt) (byte_of s.selecting_endpoint)
          (entered rfst_w4_host_select s s.env) (ground arith) tt in
      rw selecting
        (rw found (rw erased (returned (ap (erase_at s.discovered_endpoint) index, refl))))

  -- The table has an endpoint whose triggers were not called, and the first such one stands at j.
  -- `select_endpoint_` returns in EP_SELECTING, for whatever reason it is in that state, and then
  -- the activation fails, whatever the board has done meanwhile: the call returns, the endpoint at 0
  -- is erased where j is 0 and the endpoint at 1 where it is any other, and the state is
  -- RFST_W4_HOST_SELECT.
  pub activation_failed_lem :
      (j : ℕ) (y : DiscoveredEndpoint p.NfcTag) (s : State p) {s' : State p} (e : p.Env)
      → get_elem? s.discovered_endpoint j ≡ some y
      → y.trig_called ≡ false
      → All (λ x. x.trig_called ≡ true) (take j s.discovered_endpoint)
      → select_endpoint s ≡ ok tt s'
      → s'.nci_state ≡ ep_selecting
      → Returns
          (λ t.
            (t.discovered_endpoint ≡ erase_at s.discovered_endpoint (if j == 0 then 0 else 1))
            × (t.nci_state ≡ rfst_w4_host_select))
          (activation_failed (record s' { env = e }))
  unfolding select_endpoint
  activation_failed_lem j y s {s'} e at_j fresh before selects selecting =
      let xs = s.discovered_endpoint in
      let none_before : 0 + j ≡ j = omega arith in
      let first =
        first_untriggered_at 0 j xs y at_j fresh before ∙ ap (λ k. some (k, y)) none_before in
      let (flag, table) = Keeps-ok (select_endpoint-Selected j xs y s refl at_j first) selects in
      let inside : j < length s'.discovered_endpoint = rw table (get_elem?-inside xs j y at_j) in
      subst
        (λ ys.
          Returns
            (λ t.
              (t.discovered_endpoint ≡ erase_at ys (if j == 0 then 0 else 1))
              × (t.nci_state ≡ rfst_w4_host_select))
            (activation_failed (record s' { env = e })))
        table (failed_at j (record s' { env = e }) selecting flag inside)
