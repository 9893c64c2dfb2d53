-- ===== src/Transceive/Sends.antt =====
-- A command is one message on the bus, whatever the answer is.
use esphome_pn.Driver.Quiet.{keeps}
use esphome_pn.Transceive.Laws.{read}
use esphome_pn.Driver.{State}
use esphome_pn.Transceive.{transceive}
use esphome_pn.Transceive.Laws.{Reads, transceive-Answers, nothing}
use esphome_pn.Prelude.{List, ℕ, Bool, ◌≡◌, ◌++◌, ◌∙◌, ◌∷◌, [], refl}
use esphome_pn.Platform.{Platform}
use esphome_pn.Driver.Sends.{IsLog, Sends}

module _ ⦃p : Platform⦄ {log : p.Env → List (List ℕ)} (logs : IsLog log) where
  Reads-log :
      {timeout n : ℕ} {rx rx' : List ℕ} {e e' : p.Env}
      → Reads timeout n rx e rx' e'
      → log e' ≡ log e
  Reads-log nothing = refl
  Reads-log {timeout = timeout} {rx = rx} {e = e} (read r) = Reads-log r ∙ logs.read rx timeout e

  -- the board after a command
  pub transceive_logs :
      (tx rx : List ℕ) (timeout : ℕ) (expect_notification : Bool) (s : State p)
      → log (transceive-Answers tx rx timeout expect_notification s).board ≡ log s.env ++ tx ∷ []
  transceive_logs tx rx timeout expect_notification s =
      Reads-log (transceive-Answers tx rx timeout expect_notification s).reads ∙ logs.wrote tx s.env

  pub transceive-Sends :
      {Q : List ℕ → Type 0} (tx rx : List ℕ) (timeout : ℕ) (expect_notification : Bool)
      → Q tx
      → Sends log Q (transceive tx rx timeout expect_notification)
  transceive-Sends tx rx timeout expect_notification q = record {
    at = λ s. rw (transceive-Answers tx rx timeout expect_notification s).returns (
        keeps
          {s = record s { env = (transceive-Answers tx rx timeout expect_notification s).board }}
          (record {
            messages = tx ∷ [];
            logged = transceive_logs tx rx timeout expect_notification s;
            every = (q, tt);
          }));
  }
