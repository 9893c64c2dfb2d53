-- ===== src/Fsm/Answering.antt =====
-- A controller that answers every command at once: what the commands of the set-up do.
pub mod Notified
pub mod Commands
use esphome_pn.Config.Versions.{read_versions_cases}
use esphome_pn.Driver.Reads.{get_elem?-some}
use esphome_pn.Config.PowerUp.{power_up_lem}
use esphome_pn.Discovery.{start_discovery, discover_payload, choose_modes}
use esphome_pn.Transceive.Answered.{answered, same_status}
use esphome_pn.Config.{
  reset_request, set_discover_map, command, send_core_config, send_sensitivity, send_proprietary,
  send_init_config, set_listen_mode_routing, send_rf_config, high_sens_cmd, ok_or_failed, pmu_cfg,
  core_config_rw_ce, core_config_solo, init_core, check_reset_notification, reset_core,
  read_versions,
}
use esphome_pn.Transceive.{transceive, nfcc_default_timeout, nfcc_init_timeout}
use esphome_pn.Driver.{State, ok, M, Device, ◌>>=◌, Sensitivity, low, medium, high, fault}
use esphome_pn.Prelude.{
  ℕ, List, length, ◌≡◌, ◌++◌, false, true, ◌∷◌, ap, ◌∙◌, [], if◌then◌else◌, not, ◌&&◌, refl,
  get_elem?, arith, some, suc, ◌+◌, length-append, ◌<◌, subst, sym, ltb, leb,
}
use esphome_pn.Platform.{Platform}

module _ ⦃p : Platform⦄ where
  abbrev pub control : ℕ → ℕ → List ℕ → List ℕ
  control gid oid payload = p.ctrl_message p.nci_pkt_mt_ctrl_command gid oid payload

  -- the board after a command was written and a message read
  abbrev pub after : List ℕ → List ℕ → ℕ → p.Env → p.Env
  after tx rx timeout e = (p.read_nfcc rx timeout (p.write_nfcc tx e).1).2

  -- the board after a command with the default arguments
  abbrev pub commanded : ℕ → ℕ → List ℕ → p.Env → p.Env
  commanded gid oid payload e = after (control gid oid payload) p.new_message nfcc_default_timeout e

  abbrev pub init_request : List ℕ
  init_request = control p.nci_core_gid p.nci_core_init_oid []

  -- Every command is written at the first attempt, and the first read after it gives a message of
  -- its group and opcode with the status OK.
  pub record IsAnswering (answer : List ℕ → List ℕ) : Type 0 where
    pub no_data :
        (gid oid : ℕ) (payload : List ℕ)
        → p.message_type_is (control gid oid payload) p.nci_pkt_mt_data ≡ false
    pub written : (tx : List ℕ) (e : p.Env) → (p.write_nfcc tx e).0 ≡ p.status_ok
    pub came :
        (tx rx : List ℕ) (timeout : ℕ) (e : p.Env)
        → (p.read_nfcc rx timeout (p.write_nfcc tx e).1).0 ≡ p.status_ok
    pub answers :
        (tx rx : List ℕ) (timeout : ℕ) (e : p.Env)
        → (p.read_nfcc rx timeout (p.write_nfcc tx e).1).1 ≡ answer tx
    pub same_gid : (tx : List ℕ) → p.get_gid (answer tx) ≡ p.get_gid tx
    pub same_oid : (tx : List ℕ) → p.get_oid (answer tx) ≡ p.get_oid tx
    pub status : (tx : List ℕ) → p.get_simple_status_response (answer tx) ≡ p.status_ok
    pub is_status : (tx : List ℕ) → p.simple_status_response_is (answer tx) p.status_ok ≡ true

  -- After the answer to the reset command, the next read gives a notification of nine bytes behind
  -- the header: the controller was reset by the command (2), and its configuration with it (1).
  pub record IsNotified (rest : List ℕ) : Type 0 where
    pub nine : length rest ≡ 7
    pub header : List ℕ
    pub three : length header ≡ 3
    pub offset : p.nci_pkt_payload_offset ≡ 3
    pub is_notification :
        p.message_type_is (header ++ 2 ∷ 1 ∷ rest) p.nci_pkt_mt_ctrl_notification ≡ true
    pub is_nine : p.message_length_is (header ++ 2 ∷ 1 ∷ rest) 9 ≡ true
    pub arrived :
        (rx rx' : List ℕ) (timeout timeout' : ℕ) (e : p.Env)
        → (p.read_nfcc rx' timeout' (after (reset_request true) rx timeout e)).0 ≡ p.status_ok
    pub arrives :
        (rx rx' : List ℕ) (timeout timeout' : ℕ) (e : p.Env)
        → (p.read_nfcc rx' timeout' (after (reset_request true) rx timeout e)).1
          ≡ header ++ 2 ∷ 1 ∷ rest

module _ ⦃p : Platform⦄ {answer : List ℕ → List ℕ} (answering : IsAnswering answer) where
  pub exchange :
      (gid oid : ℕ) (payload rx : List ℕ) (timeout : ℕ) (s : State p)
      → transceive (control gid oid payload) rx timeout true s
        ≡ ok
            (p.status_ok, answer (control gid oid payload))
            (record s { env = after (control gid oid payload) rx timeout s.env })
  exchange gid oid payload rx timeout s =
      let tx = control gid oid payload in
      let s1 : State p = record s { env = (p.write_nfcc tx s.env).1 } in
      answered tx rx (answer tx) timeout s s1 (record s { env = after tx rx timeout s.env })
        (answering.no_data gid oid payload) (answering.same_gid tx) (answering.same_oid tx)
        (ap (λ status. ok status s1) (answering.written tx s.env))
        (ap
            (λ status.
              ok (status, (p.read_nfcc rx timeout s1.env).1)
                (record s { env = after tx rx timeout s.env }))
            (answering.came tx rx timeout s.env)
          ∙ ap (λ m. ok (p.status_ok, m) (record s { env = after tx rx timeout s.env }))
              (answering.answers tx rx timeout s.env))
      ∙ ap (λ status. ok (status, answer tx) (record s { env = after tx rx timeout s.env }))
          (answering.status tx)
