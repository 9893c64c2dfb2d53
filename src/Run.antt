-- ===== src/Run.antt =====
-- The life of a driver: configuration, `setup`, rounds of the loop, and between them the calls that
-- the actions of components/pn7160/automation.h and the user's code make.
pub mod Stays
pub mod Well
pub mod Distinct
pub mod Writing
use esphome_pn.Messages.{read_mode}
use esphome_pn.Health.{setup, loop}
use esphome_pn.Settings.{Setting, configured}
use esphome_pn.Modes.{
  set_tag_emulation_off, set_tag_emulation_on, set_polling_off, set_polling_on, TestMode,
  set_tag_emulation_message, set_tag_write_message, clean_mode, format_mode, write_mode,
  set_test_mode,
}
use esphome_pn.Driver.{Device, State, M, ◌>>=◌, get_dev, put_dev, ok, ◌>>◌, pass}
use esphome_pn.Platform.{Platform}
use esphome_pn.Prelude.{Option, List, ℕ, Bool, ◌≡◌, []}

-- what `play` of an action calls, and the other public methods
pub data Call : Type 0 where
  emulation_off emulation_on polling_off polling_on : Call
  emulation_message write_message : Option (List ℕ) → Option Bool → Call
  clean format reading write : Call
  testing : TestMode → List ℕ → Call

module _ ⦃p : Platform⦄ where
  abbrev change : (Device p → Device p) → M p (Unit {0})
  change f = do d ← get_dev; put_dev (f d)

  unfoldable pub play : Call → M p (Unit {0})
  unfolding set_tag_emulation_off set_tag_emulation_on set_polling_off set_polling_on
      set_tag_emulation_message set_tag_write_message clean_mode format_mode write_mode
  play emulation_off = change set_tag_emulation_off
  play emulation_on = change set_tag_emulation_on
  play polling_off = change set_polling_off
  play polling_on = change set_polling_on
  play (emulation_message message include_app) =
      change (set_tag_emulation_message message include_app)
  play (write_message message include_app) = change (set_tag_write_message message include_app)
  play clean = change clean_mode
  play format = change format_mode
  play reading = read_mode
  play write = change write_mode
  play (testing mode payload) = set_test_mode mode payload [] >> pass

  -- the states of a driver that was configured and set up
  pub data Reach : State p → Type 0 where
    started :
        {s : State p} (xs : List Setting) (e : p.Env)
        → setup (record { dev = configured xs; env = e }) ≡ ok tt s
        → Reach s
    looped : {s s' : State p} → Reach s → loop s ≡ ok tt s' → Reach s'
    called : {s s' : State p} → Reach s → (x : Call) → play x s ≡ ok tt s' → Reach s'
    -- meanwhile the controller, the clock and the bus move on
    waited : {s : State p} → Reach s → (e : p.Env) → Reach (record s { env = e })
