-- ===== src/Run/Stays.antt =====
-- Every state that a driver comes to satisfies an invariant.
use esphome_pn.Settings.{configured}
use esphome_pn.Health.Stays.{setup-Stays, loop-Stays}
use esphome_pn.Prelude.{arith, some, none}
use esphome_pn.Modes.{
  set_tag_emulation_off, set_tag_emulation_on, set_polling_off, set_polling_on,
  set_tag_emulation_message, set_tag_write_message, clean_mode, format_mode, write_mode,
}
use esphome_pn.Driver.Quiet.{Keeps-ok}
use esphome_pn.Modes.Stays.{set_test_mode-Stays}
use esphome_pn.Driver.Stays.{Stays, Stays-get, stays_rules, Stays-put}
use esphome_pn.Messages.{read_mode}
use esphome_pn.Settings.Fresh.{IsFresh, configured-IsFresh}
use esphome_pn.Run.{
  play, Call, testing, Reach, started, emulation_message, write_message, reading, emulation_off,
  emulation_on, polling_off, polling_on, clean, format, write, looped, called, waited, change,
}
use esphome_pn.Driver.{Device, State, put_dev}
use esphome_pn.Invariant.{IsInvariant}
use esphome_pn.Driver.Core.{Core, core}
use esphome_pn.Platform.{Platform}

module _ ⦃p : Platform⦄ {R : Core p → Type 0} ⦃inv : IsInvariant R⦄ where
  change-Stays :
      (f : Device p → Device p)
      → ((d : Device p) → R (core d) → R (core (f d)))
      → Stays R (change f)
  change-Stays f hf = Stays-get (λ d. put_dev (f d)) (λ d w. Stays-put (f d) (hf d w))

  play-Stays : (x : Call) → Stays R (play x)
  unfolding play read_mode
  play-Stays (testing mode payload) = search (stays_rules, set_test_mode-Stays) depth 10
  play-Stays reading = search stays_rules depth 10
  play-Stays emulation_off = change-Stays set_tag_emulation_off (λ d w. ground arith)
  play-Stays emulation_on = change-Stays set_tag_emulation_on (λ d w. ground arith)
  play-Stays polling_off = change-Stays set_polling_off (λ d w. ground arith)
  play-Stays polling_on = change-Stays set_polling_on (λ d w. ground arith)
  play-Stays (emulation_message none b) = change-Stays (set_tag_emulation_message none b) (λ d w. w)
  play-Stays (emulation_message (some text) b) =
      change-Stays (set_tag_emulation_message (some text) b) (λ d w. ground arith)
  play-Stays (write_message none b) = change-Stays (set_tag_write_message none b) (λ d w. w)
  play-Stays (write_message (some text) b) =
      change-Stays (set_tag_write_message (some text) b) (λ d w. ground arith)
  play-Stays clean = change-Stays clean_mode (λ d w. ground arith)
  play-Stays format = change-Stays format_mode (λ d w. ground arith)
  play-Stays write = change-Stays write_mode (λ d w. ground arith)

module _ ⦃p : Platform⦄ (R : Core p → Type 0) ⦃inv : IsInvariant R⦄ where
  -- an invariant that holds for a driver that did nothing yet
  pub Reach-Stays :
      ((d : Device p) → IsFresh d → R (core d)) → {s : State p} → Reach s → R (core s.dev)
  Reach-Stays fresh (started xs e r) =
      Keeps-ok ((setup-Stays {R = R}).at _ (fresh (configured xs) (configured-IsFresh xs))) r
  Reach-Stays fresh (looped h r) = Keeps-ok ((loop-Stays {R = R}).at _ (Reach-Stays fresh h)) r
  Reach-Stays fresh (called h x r) = Keeps-ok ((play-Stays {R = R} x).at _ (Reach-Stays fresh h)) r
  Reach-Stays fresh (waited h e) = Reach-Stays fresh h
