-- ===== src/Run/Writing.antt =====
-- The test whether the driver is about to write, in every state that it comes to.
use esphome_pn.Run.Stays.{Reach-Stays}
use esphome_pn.Prelude.{◌≡◌, false}
use esphome_pn.Run.{Reach}
use esphome_pn.Driver.{State}
use esphome_pn.Settings.{is_writing}
use esphome_pn.Platform.{Platform}
use esphome_pn.Invariant.Writing.{NotWriting, NotWriting-IsInvariant}

module _ ⦃p : Platform⦄ where
  -- In every state that a configured driver comes to, by `setup`, by rounds of the loop and by the
  -- calls of `Call` in any order, among them `write_mode` and `set_tag_write_message`, `is_writing`
  -- is false: no member function assigns `write_mode_`.
  pub Reach-is_writing : {s : State p} → Reach s → is_writing s.dev ≡ false
  unfolding is_writing
  Reach-is_writing = Reach-Stays NotWriting (λ d f. f.no_write)
