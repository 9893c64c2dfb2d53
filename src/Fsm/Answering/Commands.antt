-- ===== src/Fsm/Answering/Commands.antt =====
-- The commands of the set-up, each answered at once.
use esphome_pn.Config.Versions.{read_versions_cases}
use esphome_pn.Fsm.Answering.Notified.{notification_lem}
use esphome_pn.Transceive.Answered.{same_status}
use esphome_pn.Transceive.{nfcc_init_timeout, nfcc_default_timeout}
use esphome_pn.Config.PowerUp.{power_up_lem}
use esphome_pn.Driver.{Device, M, Sensitivity, ◌>>=◌, State, ok, low, medium, high, fault}
use esphome_pn.Discovery.{start_discovery, discover_payload, choose_modes}
use esphome_pn.Config.{
  init_core, set_discover_map, send_init_config, send_sensitivity, send_rf_config, command,
  send_core_config, send_proprietary, set_listen_mode_routing, reset_core, ok_or_failed,
  high_sens_cmd, reset_request, core_config_rw_ce, pmu_cfg, core_config_solo, read_versions,
}
use esphome_pn.Prelude.{
  List, ℕ, ◌∷◌, get_elem?, not, ◌&&◌, true, ◌≡◌, some, ◌+◌, if◌then◌else◌, [], refl, ◌<◌, ◌++◌,
  length, ltb, arith, ◌∙◌, ap,
}
use esphome_pn.Platform.{Platform}
use esphome_pn.Fsm.Answering.{
  IsAnswering, IsNotified, init_request, commanded, exchange, after, control,
}

module _ ⦃p : Platform⦄ {answer : List ℕ → List ℕ} (answering : IsAnswering answer) where
  -- an action that gives OK and changes nothing but the board
  abbrev pub IsFine : M p ℕ → Type 0
  IsFine m = (s : State p) → (e : p.Env) × (m s ≡ ok p.status_ok (record s { env = e }))

  command-IsFine :
      (gid oid : ℕ) (payload : List ℕ) → IsFine (command gid oid payload >>= ok_or_failed)
  command-IsFine gid oid payload s = (
    commanded gid oid payload s.env,
    rw (exchange answering gid oid payload p.new_message nfcc_default_timeout s)
        (rw same_status refl),
  )

  pub set_discover_map-IsFine : IsFine set_discover_map
  unfolding set_discover_map
  set_discover_map-IsFine = command-IsFine _ _ _

  pub set_listen_mode_routing-IsFine : IsFine set_listen_mode_routing
  unfolding set_listen_mode_routing
  set_listen_mode_routing-IsFine = command-IsFine _ _ _

  pub start_discovery-IsFine : IsFine start_discovery
  unfolding start_discovery
  start_discovery-IsFine s =
      let payload = discover_payload (choose_modes s.listening_enabled s.polling_enabled) in
      (
        commanded p.rf_gid p.rf_discover_oid payload s.env,
        rw
            (exchange answering p.rf_gid p.rf_discover_oid payload p.new_message
              nfcc_default_timeout s)
            (rw same_status refl),
      )

  send_sensitivity_lem :
      (x : Sensitivity) (s : State p)
      → (e : p.Env) × (send_sensitivity x s ≡ ok tt (record s { env = e }))
  unfolding send_sensitivity
  send_sensitivity_lem low s = (s.env, refl)
  send_sensitivity_lem medium s = (s.env, refl)
  send_sensitivity_lem high s = (
    commanded p.nci_core_gid p.nci_core_set_config_oid high_sens_cmd s.env,
    rw
        (exchange answering p.nci_core_gid p.nci_core_set_config_oid high_sens_cmd p.new_message
          nfcc_default_timeout s)
        refl,
  )

  send_proprietary-IsFine : (config : List ℕ) → IsFine (send_proprietary config)
  unfolding send_proprietary
  send_proprietary-IsFine [] s = (s.env, refl)
  send_proprietary-IsFine (x ∷ config) s =
      command-IsFine p.nci_core_gid p.nci_core_set_config_oid (x ∷ config) s

  send_rf_config-IsFine : IsFine send_rf_config
  unfolding send_rf_config
  send_rf_config-IsFine s =
      let (e, sensed) = send_sensitivity_lem s.sensitivity s in
      let (e', sent) = send_proprietary-IsFine s.proprietary_config (record s { env = e }) in
      (e', rw sensed sent)

  -- the members after `send_core_config_`
  abbrev pub solo_noted : Device p → Device p
  solo_noted d = record d { core_config_is_solo = not (d.listening_enabled && d.polling_enabled) }

  send_core_config_fine :
      (s : State p)
      → (e : p.Env) × (send_core_config s
          ≡ ok p.status_ok (record s { dev = solo_noted s.dev; env = e }))
  unfolding send_core_config
  send_core_config_fine s =
      let s1 : State p = record s { dev = solo_noted s.dev } in
      let payload =
        if s.listening_enabled && s.polling_enabled then core_config_rw_ce else core_config_solo in
      (
        commanded p.nci_core_gid p.nci_core_set_config_oid payload s.env,
        rw
            (exchange answering p.nci_core_gid p.nci_core_set_config_oid payload p.new_message
              nfcc_default_timeout s1)
            (rw same_status refl),
      )

  pub send_init_config_fine :
      (s : State p)
      → (e : p.Env) × (send_init_config s
          ≡ ok p.status_ok (record s { dev = solo_noted s.dev; env = e }))
  unfolding send_init_config
  send_init_config_fine s =
      let e1 =
        after (control p.nci_proprietary_gid p.nci_core_set_config_oid []) p.new_message
          nfcc_default_timeout s.env in
      let rx = answer (control p.nci_proprietary_gid p.nci_core_set_config_oid []) in
      let e2 =
        after (control p.nci_core_gid p.nci_core_set_config_oid pmu_cfg) rx nfcc_default_timeout
          e1 in
      let (e3, rf) = send_rf_config-IsFine (record s { env = e2 }) in
      let (e4, core) = send_core_config_fine (record s { env = e3 }) in
      (
        e4,
        rw
            (exchange answering p.nci_proprietary_gid p.nci_core_set_config_oid [] p.new_message
              nfcc_default_timeout s)
            (rw same_status (
              rw
                (exchange answering p.nci_core_gid p.nci_core_set_config_oid pmu_cfg rx
                  nfcc_default_timeout (record s { env = e1 }))
                (rw same_status (rw rf (rw same_status core))))),
      )

  -- the versions are there to be read
  pub init_core-IsFine :
      (n : ℕ)
      → get_elem? (answer init_request) 8 ≡ some n
      → 20 + n < length (answer init_request)
      → IsFine init_core
  unfolding init_core
  init_core-IsFine n at_8 long s =
      let tx = control p.nci_core_gid p.nci_core_init_oid [] in
      let e = commanded p.nci_core_gid p.nci_core_init_oid [] s.env in
      let enough : ltb (20 + n) (length (answer tx)) ≡ true = ground arith in
      let versions : read_versions (answer tx) (record s { env = e })
          ≡ ok tt (record s { env = e }) =
        read_versions_cases (answer tx) n (record s { env = e }) at_8
        ∙ ap (λ b. if b then ok tt (record s { env = e }) else fault) enough in
      (
        e,
        rw
            (exchange answering p.nci_core_gid p.nci_core_init_oid [] p.new_message
              nfcc_default_timeout s)
            (rw same_status (
              rw (answering.is_status tx) (
                rw versions
                  (ap (λ status. ok status (record s { env = e })) (answering.status tx))))),
      )

  pub reset_core-IsFine : {rest : List ℕ} → IsNotified rest → IsFine (reset_core true true)
  unfolding reset_core
  reset_core-IsFine {rest = rest} note s =
      let (e, up) = power_up_lem s.has_dwl_req_pin true s in
      let tx = reset_request true in
      let e1 = after tx p.new_message nfcc_init_timeout e in
      let e2 = (p.read_nfcc (answer tx) nfcc_init_timeout e1).2 in
      let m = note.header ++ 2 ∷ 1 ∷ rest in
      (
        e2,
        rw up (
            rw
              (exchange answering p.nci_core_gid p.nci_core_reset_oid (1 ∷ []) p.new_message
                nfcc_init_timeout (record s { env = e }))
              (rw same_status (
                rw (answering.is_status tx) (
                  rw (note.arrived p.new_message (answer tx) nfcc_init_timeout nfcc_init_timeout e)
                    (rw same_status (
                      rw
                        (note.arrives p.new_message (answer tx) nfcc_init_timeout nfcc_init_timeout
                          e)
                        (notification_lem note (record s { env = e2 })))))))),
      )
