-- ===== src/Transceive.antt =====
-- `transceive_` of components/pn7160/pn7160.cpp: one command, and the reads of its answer.
pub mod Laws
pub mod Ends
pub mod Answered
pub mod Sends
use esphome_pn.Prelude.{ℕ, zero, suc, Bool, true, false, List, ◌==◌, if◌then◌else◌, not, ◌||◌}
use esphome_pn.Platform.{Platform}
use esphome_pn.Driver.{M, pure, ◌>>=◌, ◌>>◌, read_nfcc, write_nfcc}

abbrev pub nfcc_default_timeout : ℕ
nfcc_default_timeout = 10

abbrev pub nfcc_init_timeout : ℕ
nfcc_init_timeout = 50

abbrev pub nfcc_tag_write_timeout : ℕ
nfcc_tag_write_timeout = 50

abbrev pub nfcc_max_comm_fails : ℕ
nfcc_max_comm_fails = 3

module _ ⦃p : Platform⦄ where
  -- The `while (true)` loop: whether a read succeeded with the retries given, and the message.
  unfoldable pub read_retry : ℕ → List ℕ → ℕ → M p (Bool × List ℕ)
  read_retry zero rx timeout = do
    (status, rx') ← read_nfcc rx timeout
    pure (status == p.status_ok, rx')
  read_retry (suc retries) rx timeout = do
    (status, rx') ← read_nfcc rx timeout
    elim (status == p.status_ok) [
      | true ↦ pure (true, rx')
      | false ↦ read_retry retries rx' timeout
    ]

  -- the answer to a control packet
  unfoldable pub check_response : List ℕ → List ℕ → ℕ
  check_response tx rx =
      if not (p.get_gid rx == p.get_gid tx) || not (p.get_oid rx == p.get_oid tx)
      then p.status_failed
      else p.get_simple_status_response rx

  -- the answer to a data packet
  unfoldable pub is_credits : List ℕ → Bool
  is_credits rx = not (
      not (p.message_type_is rx p.nci_pkt_mt_ctrl_notification)
      || not (p.gid_is rx p.nci_core_gid)
      || not (p.oid_is rx p.nci_core_conn_credits_oid)
      || not (p.message_length_is rx 3))

  unfoldable pub check_data : List ℕ → ℕ → Bool → M p (ℕ × List ℕ)
  check_data rx timeout expect_notification =
      if not (is_credits rx)
      then pure (p.status_failed, rx)
      else if expect_notification
      then (do
        (status, rx') ← read_nfcc rx timeout
        pure (if status == p.status_ok then p.status_ok else p.status_failed, rx'))
      else pure (p.status_ok, rx)

  -- what follows the loop: whether a message was received, and that message
  unfoldable pub conclude : List ℕ → ℕ → Bool → Bool → List ℕ → M p (ℕ × List ℕ)
  unfolding check_response check_data is_credits
  conclude tx timeout expect_notification received rx =
      if not received
      then pure (p.status_failed, rx)
      else if not (p.message_type_is tx p.nci_pkt_mt_data)
      then pure (check_response tx rx, rx)
      else check_data rx timeout expect_notification

  -- The status and the message `rx` as the call leaves it.
  unfoldable pub transceive : List ℕ → List ℕ → ℕ → Bool → M p (ℕ × List ℕ)
  transceive tx rx timeout expect_notification = do
    written ← write_nfcc tx
    if not (written == p.status_ok) then pure (p.status_failed, rx) else do
      (received, rx') ← read_retry nfcc_max_comm_fails rx timeout
      conclude tx timeout expect_notification received rx'
