-- ===== src/Transceive/Ends.antt =====
-- `transceive_` comes to an end.
use esphome_pn.Transceive.Laws.{transceive-Answers}
use esphome_pn.Transceive.{transceive}
use esphome_pn.Driver.Ends.{Ends, with_value}
use esphome_pn.Prelude.{List, ℕ, Bool}
use esphome_pn.Platform.{Platform}

module _ ⦃p : Platform⦄ where
  pub transceive-Ends :
      (tx rx : List ℕ) (timeout : ℕ) (expect_notification : Bool)
      → Ends (transceive tx rx timeout expect_notification)
  transceive-Ends tx rx timeout expect_notification = record {
    at = λ s. rw (transceive-Answers tx rx timeout expect_notification s).returns with_value;
  }
