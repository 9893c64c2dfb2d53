-- ===== src/Tests/Machine.antt =====
-- The state machine, the health check and the loop.
use esphome_pn.Transceive.{transceive, read_retry, conclude, check_response}
use esphome_pn.States.{nci_fsm_set_state}
use esphome_pn.Discovery.{select_endpoint, choose_endpoint, first_untriggered, select_from}
use esphome_pn.Health.Failed.{loop-Keeps-failed}
use esphome_pn.Modes.{set_polling_off, set_polling_on, set_tag_emulation_off, set_tag_emulation_on}
use esphome_pn.Modes.Tracked.{IsTracked, switches-IsTracked}
use esphome_pn.Messages.Selecting.{activation_failed_lem}
use esphome_pn.Messages.Dispatch.{activation_failed}
use esphome_pn.Fsm.{nci_fsm_transition}
use esphome_pn.Health.Checks.{checked, pulsed, health_check_cases}
use esphome_pn.Fsm.DeadBus.{repeat, dead_bus_fails}
use esphome_pn.States.Errors.{entered}
use esphome_pn.Tests.Sim.{dead_sim, sim, start, device, three_endpoints, endpoint}
use esphome_pn.Prelude.{arith, ◌≡◌, erase_at, refl, [], inl, ◌∷◌, false}
use esphome_pn.Driver.{State, ok, nfcc_reset, failed, nfcc_init, ep_selecting, rfst_w4_host_select}
use esphome_pn.Health.{loop, perform_health_check}
use esphome_pn.Driver.Quiet.{Keeps, Returns}

abbrev selecting : State sim
selecting = start ep_selecting []

-- the controller takes the selection of the third endpoint
abbrev choosing : State sim
choosing = start rfst_w4_host_select ((0, 0x41 ∷ 4 ∷ 1 ∷ 0 ∷ []) ∷ [])

abbrev chosen : State sim
chosen = record (start ep_selecting []) {
  dev = record (start ep_selecting []).dev { last_nci_state_change = 10000 };
}

third_selected : select_endpoint ⦃p = sim⦄ choosing ≡ ok tt chosen
unfolding select_endpoint choose_endpoint first_untriggered select_from nci_fsm_set_state transceive
    read_retry conclude check_response
third_selected = refl

activation_failed_lem_example :
    Returns
      (λ t.
        (t.discovered_endpoint ≡ erase_at three_endpoints 1) × (t.nci_state ≡ rfst_w4_host_select))
      (activation_failed ⦃p = sim⦄ chosen)
activation_failed_lem_example =
    activation_failed_lem ⦃p = sim⦄ 2 (endpoint (9 ∷ 10 ∷ 11 ∷ 12 ∷ []) 9950 false) choosing
      {s' = chosen} [] refl refl (refl, (refl, tt)) third_selected refl

abbrev unplugged : State dead_sim
unplugged = record { dev = device {p = dead_sim} nfcc_reset 0 []; env = [] }

dead_bus_fails_example :
    Returns
      (λ s'. s'.nci_state ≡ failed)
      (repeat ⦃p = dead_sim⦄ 12 (nci_fsm_transition ⦃p = dead_sim⦄) unplugged)
dead_bus_fails_example =
    dead_bus_fails ⦃p = dead_sim⦄ (λ tx e. omega arith) (omega arith) 12 0 unplugged (omega arith)
      (omega arith) refl refl

abbrev given_up : State sim
given_up = start failed []

abbrev stuck : State sim
stuck = start nfcc_init []

-- a fifth failure resets the controller
abbrev fifth : State sim
fifth = record stuck { dev = record stuck.dev { health_fail_count = 4 } }

health_check_cases_example :
    perform_health_check ⦃p = sim⦄ fifth
    ≡ ok tt (entered ⦃p = sim⦄ nfcc_reset (checked ⦃p = sim⦄ 0 fifth) (pulsed ⦃p = sim⦄ []))
health_check_cases_example = health_check_cases ⦃p = sim⦄ fifth refl (omega arith)

switches-IsTracked_example :
    IsTracked (set_polling_off ⦃p = sim⦄ stuck.dev)
    × IsTracked (set_polling_on ⦃p = sim⦄ stuck.dev)
    × IsTracked (set_tag_emulation_off ⦃p = sim⦄ stuck.dev)
    × IsTracked (set_tag_emulation_on ⦃p = sim⦄ stuck.dev)
switches-IsTracked_example = switches-IsTracked ⦃p = sim⦄ stuck.dev (inl refl)

loop-Keeps-failed_example : Keeps (λ s'. s'.nci_state ≡ failed) (loop ⦃p = sim⦄ given_up)
loop-Keeps-failed_example = loop-Keeps-failed ⦃p = sim⦄ given_up refl
