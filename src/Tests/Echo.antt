-- ===== src/Tests/Echo.antt =====
-- A controller that answers every command at once, and announces its reset at the next read.
use esphome_pn.Health.Recovery.{loop_recovers}
use esphome_pn.Health.{loop}
use esphome_pn.Fsm.{nci_fsm_transition}
use esphome_pn.Fsm.Boot.{IsUp, boot}
use esphome_pn.Driver.{State, nfcc_reset, ep_selecting, ◌>>◌}
use esphome_pn.Platform.{Platform}
use esphome_pn.Driver.Quiet.{Returns}
use esphome_pn.Prelude.{
  ℕ, List, ne→==, ◌∷◌, ◌+◌, suc, true, replicate, arith, false, [], zero, refl, inl,
}
use esphome_pn.Fsm.Answering.{IsNotified, IsAnswering}
use esphome_pn.Tests.Sim.{sim, nth, device}

record Echo : Type 0 where
  last : List ℕ
  reads : ℕ

abbrev echo : List ℕ → List ℕ
echo tx = (nth tx 0 + 0x20) ∷ nth tx 1 ∷ 18 ∷ replicate 18 0

abbrev rest : List ℕ
rest = 0x20 ∷ 4 ∷ 4 ∷ 0x51 ∷ 0x12 ∷ 1 ∷ 5 ∷ []

abbrev reply : ℕ → Echo → ℕ × List ℕ × Echo
reply zero e = (0, echo e.last, record e { reads = 1 })
reply (suc n) e = (0, 0x60 ∷ 0 ∷ 9 ∷ 2 ∷ 1 ∷ rest, e)

abbrev echo_sim : Platform
echo_sim = record sim {
  Env = Echo;
  millis = λ e. (10000, e);
  delay = λ ms e. e;
  setup_pin = λ pin e. e;
  digital_write = λ pin level e. e;
  digital_read = λ pin e. (true, e);
  emit = λ event e. e;
  read_nfcc = λ rx timeout e. reply e.reads e;
  write_nfcc = λ tx e. (0, record e { last = tx; reads = 0 });
}

echo_sim-IsAnswering : IsAnswering ⦃p = echo_sim⦄ echo
echo_sim-IsAnswering = record {
  no_data = λ gid oid payload. ne→== (λ e. absurd (omega (arith, e)));
  written = λ tx e. refl;
  came = λ tx rx timeout e. refl;
  answers = λ tx rx timeout e. refl;
  same_gid = λ tx. omega arith;
  same_oid = λ tx. refl;
  status = λ tx. refl;
  is_status = λ tx. refl;
}

echo_sim-IsNotified : IsNotified ⦃p = echo_sim⦄ rest
echo_sim-IsNotified = record {
  nine = refl;
  header = 0x60 ∷ 0 ∷ 9 ∷ [];
  three = refl;
  offset = refl;
  is_notification = refl;
  is_nine = refl;
  arrived = λ rx rx' timeout timeout' e. refl;
  arrives = λ rx rx' timeout timeout' e. refl;
}

abbrev plugged_in : State echo_sim
plugged_in = record {
  dev = device {p = echo_sim} nfcc_reset 0 [];
  env = record { last = []; reads = 0 };
}

boot_example :
    Returns
      (λ s'. IsUp ⦃p = echo_sim⦄ false true s'.dev)
      (nci_fsm_transition ⦃p = echo_sim⦄ plugged_in)
boot_example =
    boot ⦃p = echo_sim⦄ echo_sim-IsAnswering 0 plugged_in echo_sim-IsNotified refl (omega arith)
      refl refl

-- an endpoint that was selected ten seconds ago
abbrev hung : State echo_sim
hung = record plugged_in { dev = device {p = echo_sim} ep_selecting 0 [] }

loop_recovers_example :
    Returns
      (λ s'. IsUp ⦃p = echo_sim⦄ false true s'.dev)
      ((loop ⦃p = echo_sim⦄ >> loop ⦃p = echo_sim⦄) hung)
loop_recovers_example =
    loop_recovers ⦃p = echo_sim⦄ echo_sim-IsAnswering 0 echo_sim-IsNotified refl (omega arith) hung
      (inl refl) (omega arith) refl
