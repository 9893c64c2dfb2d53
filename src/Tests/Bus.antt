-- ===== src/Tests/Bus.antt =====
-- Commands and their answers, errors, and the configuration.
use esphome_pn.Config.Versions.{read_versions_cases}
use esphome_pn.States.Errors.{counted, set_error_state_cases}
use esphome_pn.Config.Refresh.{wants_solo, failed_refresh_is_dropped, without_config}
use esphome_pn.Tests.Sim.{sim, start}
use esphome_pn.Config.{read_versions, send_core_config}
use esphome_pn.Transceive.{transceive, read_retry, conclude}
use esphome_pn.Driver.{State, nfcc_init, rfst_idle, ok, rfst_discovery}
use esphome_pn.States.{nci_fsm_set_error_state, nci_fsm_set_state}
use esphome_pn.Transceive.Laws.{Answers, transceive_sound, transceive-Answers}
use esphome_pn.Discovery.{refresh_core_config, resend_core_config, stop_discovery}
use esphome_pn.Prelude.{ℕ, List, ◌∷◌, [], ◌≡◌, false, true, arith, refl}

abbrev tx : List ℕ
tx = 0x20 ∷ 0 ∷ 1 ∷ 1 ∷ []

abbrev answer : List ℕ
answer = 0x40 ∷ 0 ∷ 1 ∷ 0 ∷ []

abbrev asked : State sim
asked = start rfst_idle ((0, answer) ∷ [])

transceive-Answers_example :
    Answers ⦃p = sim⦄ 5 100 [] []
      (start rfst_idle [])
      (transceive ⦃p = sim⦄ tx [] 100 false (start rfst_idle []))
transceive-Answers_example = transceive-Answers ⦃p = sim⦄ tx [] 100 false (start rfst_idle [])

run : transceive ⦃p = sim⦄ tx [] 100 false asked ≡ ok (0, answer) (start rfst_idle [])
unfolding transceive read_retry conclude
run = refl

transceive_sound_example :
    (sim.get_gid answer ≡ sim.get_gid tx)
    × (sim.get_oid answer ≡ sim.get_oid tx)
    × (sim.get_simple_status_response answer ≡ 0)
transceive_sound_example =
    transceive_sound ⦃p = sim⦄ tx [] 100 false asked {rx' = answer} {s' = start rfst_idle []}
      (omega arith) refl run

set_error_state_cases_example :
    nci_fsm_set_error_state ⦃p = sim⦄ nfcc_init asked ≡ ok false (counted ⦃p = sim⦄ nfcc_init asked)
set_error_state_cases_example = set_error_state_cases ⦃p = sim⦄ nfcc_init asked (omega arith)

abbrev init_answer : List ℕ
init_answer =
    0x40 ∷ 1 ∷ 18 ∷ 0 ∷ 1 ∷ 2 ∷ 3 ∷ 4 ∷ 0 ∷ 1 ∷ 2 ∷ 3 ∷ 4 ∷ 5 ∷ 6 ∷ 7 ∷ 8 ∷ 9 ∷ 10 ∷ 11 ∷ 12 ∷ []

read_versions_cases_example : read_versions ⦃p = sim⦄ init_answer asked ≡ ok tt asked
read_versions_cases_example = read_versions_cases ⦃p = sim⦄ init_answer 0 asked refl

-- listening and polling are both enabled anew, and nothing answers
abbrev unheard : State sim
unheard = record (start rfst_idle []) {
  dev = record (start rfst_idle []).dev { listening_enabled = true; polling_enabled = false };
}

abbrev after : State sim
after = record unheard {
  dev = record unheard.dev { core_config_is_solo = wants_solo ⦃p = sim⦄ unheard.dev };
}

refresh_fails : refresh_core_config ⦃p = sim⦄ unheard ≡ ok 3 after
unfolding refresh_core_config resend_core_config send_core_config transceive nci_fsm_set_state
    stop_discovery read_retry conclude
refresh_fails = refl

-- the same members later, in the discovery, on a bus that answers again
abbrev later : State sim
later = record after {
  dev = record after.dev { nci_state = rfst_discovery };
  env = (0, 0x41 ∷ 6 ∷ 1 ∷ 0 ∷ []) ∷ [];
}

failed_refresh_is_dropped_example :
    refresh_core_config ⦃p = sim⦄ later ≡ without_config ⦃p = sim⦄ later
failed_refresh_is_dropped_example =
    failed_refresh_is_dropped ⦃p = sim⦄ unheard later {s' = after} refl (omega arith) refresh_fails
      refl refl refl
