-- ===== src/Fsm/Boot.antt =====
-- The way up: from the reset to the discovery of tags, with a controller that answers.
use esphome_pn.Fsm.Answering.Commands.{
  send_init_config_fine, init_core-IsFine, set_discover_map-IsFine, start_discovery-IsFine,
  reset_core-IsFine, set_listen_mode_routing-IsFine,
}
use esphome_pn.Transceive.Answered.{same_status}
use esphome_pn.Driver.Quiet.{Returns, returned}
use esphome_pn.States.{nci_fsm_set_state}
use esphome_pn.Fsm.{
  from_config, from_set_discover_map, try_discovery, from_idle, from_set_listen_mode_routing,
  refresh_if_pending, nci_fsm_transition, from_reset, transition_from, from_init,
}
use esphome_pn.Prelude.{
  List, ℕ, ◌≡◌, false, not, ◌||◌, ◌&&◌, true, refl, Bool, subst, get_elem?, sym, some, ◌+◌, ◌<◌,
  length, false≢true, ap,
}
use esphome_pn.Driver.{
  Device, rfst_discovery, none_state, State, NciState, M, ◌>>◌, rfst_idle, nfcc_set_discover_map,
  nfcc_set_listen_mode_routing, nfcc_reset,
}
use esphome_pn.Platform.{Platform}
use esphome_pn.Fsm.Answering.{IsAnswering, IsNotified, init_request}

module _ ⦃p : Platform⦄ where
  -- the members on the way, beside those that change with every state
  record IsConfigured (listens polls : Bool) (d : Device p) : Type 0 where
    no_error : d.nci_state_error ≡ none_state
    no_refresh : d.config_refresh_pending ≡ false
    listening : d.listening_enabled ≡ listens
    polling : d.polling_enabled ≡ polls
    solo : d.core_config_is_solo ≡ not (listens && polls)

  -- what a way up leads to
  pub record IsUp (listens polls : Bool) (d : Device p) : Type 0 where
    pub state : d.nci_state ≡ rfst_discovery
    pub errors : d.error_count ≡ 0
    pub no_refresh : d.config_refresh_pending ≡ false
    pub solo : d.core_config_is_solo ≡ not (listens && polls)

module _ ⦃p : Platform⦄ {answer : List ℕ → List ℕ} (answering : IsAnswering answer) where
  entering :
      {B : Type 0} {listens polls : Bool} {R : State p → Type 0} (x : NciState) (s : State p)
      (k : M p B)
      → IsConfigured listens polls s.dev
      → ((s' : State p) → IsConfigured listens polls s'.dev → Returns R (k s'))
      → Returns R ((nci_fsm_set_state x >> k) s)
  unfolding nci_fsm_set_state
  entering x s k h next = next _ (record {
    no_error = refl;
    no_refresh = h.no_refresh;
    listening = h.listening;
    polling = h.polling;
    solo = h.solo;
  })

  try_discovery-IsUp :
      {listens polls : Bool} (s : State p)
      → IsConfigured listens polls s.dev
      → Returns (λ s'. IsUp listens polls s'.dev) (try_discovery s)
  unfolding try_discovery nci_fsm_set_state
  try_discovery-IsUp s h =
      let (e, started) = start_discovery-IsFine answering s in
      rw started (
        rw same_status (
          returned
            (record { state = refl; errors = refl; no_refresh = h.no_refresh; solo = h.solo })))

  from_idle_lem :
      (s : State p)
      → s.nci_state_error ≡ none_state
      → s.config_refresh_pending ≡ false
      → (not s.listening_enabled && not s.polling_enabled) ≡ false
      → from_idle s ≡ try_discovery s
  unfolding from_idle refresh_if_pending
  from_idle_lem s no_error no_refresh on = rw no_error (rw no_refresh (rw on refl))

  not_off :
      (listening polling : Bool)
      → (listening || polling) ≡ true
      → (not listening && not polling) ≡ false
  not_off true polling h = refl
  not_off false true h = refl
  not_off false false h = absurd (false≢true h)

  from_idle-IsUp :
      {listens polls : Bool} (s : State p)
      → (listens || polls) ≡ true
      → IsConfigured listens polls s.dev
      → Returns (λ s'. IsUp listens polls s'.dev) (from_idle s)
  from_idle-IsUp {listens = listens} {polls = polls} s on h =
      let some : (not s.listening_enabled && not s.polling_enabled) ≡ false =
        rw h.listening (rw h.polling (not_off listens polls on)) in
      subst (λ o. Returns (λ s'. IsUp listens polls s'.dev) o)
        (sym (from_idle_lem s h.no_error h.no_refresh some)) (try_discovery-IsUp s h)

  from_set_listen_mode_routing-IsUp :
      {listens polls : Bool} (s : State p)
      → (listens || polls) ≡ true
      → IsConfigured listens polls s.dev
      → Returns (λ s'. IsUp listens polls s'.dev) (from_set_listen_mode_routing s)
  unfolding from_set_listen_mode_routing
  from_set_listen_mode_routing-IsUp s on h =
      let (e, routed) = set_listen_mode_routing-IsFine answering s in
      rw routed (
        rw same_status (
          entering rfst_idle (record s { env = e }) from_idle h (λ s' h'. from_idle-IsUp s' on h')))

  from_set_discover_map-IsUp :
      {listens polls : Bool} (s : State p)
      → (listens || polls) ≡ true
      → IsConfigured listens polls s.dev
      → Returns (λ s'. IsUp listens polls s'.dev) (from_set_discover_map s)
  unfolding from_set_discover_map
  from_set_discover_map-IsUp s on h =
      let (e, mapped) = set_discover_map-IsFine answering s in
      rw mapped (
        rw same_status (
          entering nfcc_set_listen_mode_routing (record s { env = e }) from_set_listen_mode_routing
            h (λ s' h'. from_set_listen_mode_routing-IsUp s' on h')))

  from_config-IsUp :
      (s : State p)
      → (s.listening_enabled || s.polling_enabled) ≡ true
      → s.nci_state_error ≡ none_state
      → Returns (λ s'. IsUp s.listening_enabled s.polling_enabled s'.dev) (from_config s)
  unfolding from_config
  from_config-IsUp s on no_error =
      let (e, sent) = send_init_config_fine answering s in
      rw sent (
        rw same_status (
          entering nfcc_set_discover_map _ from_set_discover_map
            (record {
              no_error = no_error;
              no_refresh = refl;
              listening = refl;
              polling = refl;
              solo = refl;
            })
            (λ s' h'. from_set_discover_map-IsUp s' on h')))

  from_init-IsUp :
      (n : ℕ) (s : State p)
      → get_elem? (answer init_request) 8 ≡ some n
      → 20 + n < length (answer init_request)
      → (s.listening_enabled || s.polling_enabled) ≡ true
      → Returns (λ s'. IsUp s.listening_enabled s.polling_enabled s'.dev) (from_init s)
  unfolding from_init nci_fsm_set_state
  from_init-IsUp n s at_8 long on =
      let (e, known) = init_core-IsFine answering n at_8 long s in
      rw known (rw same_status (from_config-IsUp _ on refl))

  from_reset-IsUp :
      {rest : List ℕ} (n : ℕ) (s : State p)
      → IsNotified rest
      → get_elem? (answer init_request) 8 ≡ some n
      → 20 + n < length (answer init_request)
      → (s.listening_enabled || s.polling_enabled) ≡ true
      → Returns (λ s'. IsUp s.listening_enabled s.polling_enabled s'.dev) (from_reset s)
  unfolding from_reset nci_fsm_set_state
  from_reset-IsUp n s note at_8 long on =
      let (e, fresh) = reset_core-IsFine answering note s in
      rw fresh (rw same_status (from_init-IsUp n _ at_8 long on))

  -- With a controller that answers every command at once and reports its reset, and whose answer to
  -- CORE_INIT is more than 20 bytes longer than its byte 8 says: from NFCC_RESET, with polling or
  -- emulation enabled, one transition returns and leads to RFST_DISCOVERY, with no error counted, no
  -- refresh pending, and the recorded configuration the one that the switches ask for.
  pub boot :
      {rest : List ℕ} (n : ℕ) (s : State p)
      → IsNotified rest
      → get_elem? (answer init_request) 8 ≡ some n
      → 20 + n < length (answer init_request)
      → s.nci_state ≡ nfcc_reset
      → (s.listening_enabled || s.polling_enabled) ≡ true
      → Returns (λ s'. IsUp s.listening_enabled s.polling_enabled s'.dev) (nci_fsm_transition s)
  unfolding nci_fsm_transition transition_from
  boot n s note at_8 long reset on =
      subst (λ o. Returns (λ s'. IsUp s.listening_enabled s.polling_enabled s'.dev) o)
        (sym (ap (λ x. transition_from x s) reset)) (from_reset-IsUp n s note at_8 long on)
