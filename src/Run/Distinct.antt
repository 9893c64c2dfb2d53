-- ===== src/Run/Distinct.antt =====
-- The endpoint table in every state that a driver comes to.
use esphome_pn.Run.Stays.{Reach-Stays}
use esphome_pn.Endpoints.Distinct.{IsDistinct}
use esphome_pn.Run.{Reach}
use esphome_pn.Driver.{State}
use esphome_pn.Prelude.{◌≡◌, subst, sym}
use esphome_pn.Platform.{Platform}
use esphome_pn.Invariant.Distinct.{NoTwins, NoTwins-IsInvariant}

module _ ⦃p : Platform⦄
    (same_uid : (m : p.NdefMessage) (tag : p.NfcTag)
      → p.get_uid (p.set_ndef_message m tag) ≡ p.get_uid tag) where
  -- In every state that a configured driver comes to, by `setup`, by rounds of the loop and by the
  -- calls of `Call` in any order, no two elements of `discovered_endpoint_` have the same UID. The
  -- condition is that to attach an NDEF message to a tag does not change its UID.
  pub Reach-IsDistinct : {s : State p} → Reach s → IsDistinct s.discovered_endpoint
  Reach-IsDistinct =
      Reach-Stays NoTwins ⦃inv = NoTwins-IsInvariant same_uid⦄
        (λ d f. subst (λ xs. IsDistinct xs) (sym f.no_endpoint) tt)
