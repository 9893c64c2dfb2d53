-- ===== src/Transceive/Answered.antt =====
-- A command that is written at the first attempt and answered by the first read.
use esphome_pn.Driver.{Outcome, State, ok, fault, hang, read_nfcc, write_nfcc, and_then, pure}
use esphome_pn.Prelude.{
  ◌==◌, List, ◌≡◌, true, ℕ, eq→==, false, refl, ap, subst, sym, if◌then◌else◌, ◌∙◌,
}
use esphome_pn.Transceive.{
  transceive, conclude, read_retry, check_response, nfcc_max_comm_fails, is_credits, check_data,
}
use esphome_pn.Platform.{Platform}

module _ ⦃p : Platform⦄ where
  unfoldable pub value_of : {A : Type 0} → A → Outcome p A → A
  value_of a (ok b s) = b
  value_of a fault = a
  value_of a hang = a

  unfoldable pub state_of : {A : Type 0} → State p → Outcome p A → State p
  state_of s (ok b s') = s'
  state_of s fault = s
  state_of s hang = s

  pub same_status : (p.status_ok == p.status_ok) ≡ true
  same_status = eq→== refl

  first_read :
      (rx m : List ℕ) (timeout : ℕ) (s s' : State p)
      → read_nfcc rx timeout s ≡ ok (p.status_ok, m) s'
      → read_retry nfcc_max_comm_fails rx timeout s ≡ ok (true, m) s'
  unfolding read_retry
  first_read rx m timeout s s' got =
      subst
        (λ o.
          and_then o (λ r. elim (r.0 == p.status_ok) [
            | true ↦ pure (true, r.1)
            | false ↦ read_retry 2 r.1 timeout
          ])
          ≡ ok (true, m) s')
        (sym got) (rw (and_then, same_status) refl)

  conclude_lem :
      (tx m : List ℕ) (timeout : ℕ) (s : State p)
      → p.message_type_is tx p.nci_pkt_mt_data ≡ false
      → p.get_gid m ≡ p.get_gid tx
      → p.get_oid m ≡ p.get_oid tx
      → conclude tx timeout true true m s ≡ ok (p.get_simple_status_response m, m) s
  unfolding conclude check_response
  conclude_lem tx m timeout s control same_gid same_oid =
      rw control (rw (eq→== same_gid) (rw (eq→== same_oid) refl))

  -- a command that is written and answered at once
  pub answered :
      (tx rx m : List ℕ) (timeout : ℕ) (s s1 s2 : State p)
      → p.message_type_is tx p.nci_pkt_mt_data ≡ false
      → p.get_gid m ≡ p.get_gid tx
      → p.get_oid m ≡ p.get_oid tx
      → write_nfcc tx s ≡ ok p.status_ok s1
      → read_nfcc rx timeout s1 ≡ ok (p.status_ok, m) s2
      → transceive tx rx timeout true s ≡ ok (p.get_simple_status_response m, m) s2
  unfolding transceive value_of state_of
  answered tx rx m timeout s s1 s2 control same_gid same_oid wrote got =
      let value : (p.write_nfcc tx s.env).0 ≡ p.status_ok = ap (value_of 0) wrote in
      let next : record s { env = (p.write_nfcc tx s.env).1 } ≡ s1 = ap (state_of s) wrote in
      rw value (
        rw same_status (
          rw next (
            rw (first_read rx m timeout s1 s2 got)
              (conclude_lem tx m timeout s2 control same_gid same_oid))))

  -- A data packet that is written, credited and answered at once: what the two reads give, with
  -- the board between and after them.
  pub record IsExchange (tx m : List ℕ) (e e' : p.Env) : Type 0 where
    pub credits : List ℕ
    pub begun : p.Env
    pub middle : p.Env
    pub is_data : p.message_type_is tx p.nci_pkt_mt_data ≡ true
    pub are_credits : is_credits credits ≡ true
    pub wrote : p.write_nfcc tx e ≡ (p.status_ok, begun)
    pub credited :
        (rx : List ℕ) (timeout : ℕ) → p.read_nfcc rx timeout begun ≡ (p.status_ok, credits, middle)
    pub came : (rx : List ℕ) (timeout : ℕ) → p.read_nfcc rx timeout middle ≡ (p.status_ok, m, e')

  read_lem :
      (rx m : List ℕ) (timeout : ℕ) (s : State p) (e : p.Env)
      → p.read_nfcc rx timeout s.env ≡ (p.status_ok, m, e)
      → read_nfcc rx timeout s ≡ ok (p.status_ok, m) (record s { env = e })
  read_lem rx m timeout s e h = ap (λ r. ok (r.0, r.1) (record s { env = r.2 })) h

  credited_lem :
      (tx c m : List ℕ) (timeout : ℕ) (s s' : State p)
      → p.message_type_is tx p.nci_pkt_mt_data ≡ true
      → is_credits c ≡ true
      → read_nfcc c timeout s ≡ ok (p.status_ok, m) s'
      → conclude tx timeout true true c s ≡ ok (p.status_ok, m) s'
  unfolding conclude check_data
  credited_lem tx c m timeout s s' is_data credits got = rw is_data (
      rw credits (
        ap
          (λ o.
            and_then o
              (λ r. pure (if r.0 == p.status_ok then p.status_ok else p.status_failed, r.1)))
          got
        ∙ rw same_status refl))

  pub exchanged :
      {tx m : List ℕ} {e : p.Env} (rx : List ℕ) (timeout : ℕ) (s : State p)
      → IsExchange tx m s.env e
      → transceive tx rx timeout true s ≡ ok (p.status_ok, m) (record s { env = e })
  unfolding transceive
  exchanged {tx = tx} {m = m} {e = e} rx timeout s x =
      let wrote : (p.write_nfcc tx s.env).0 ≡ p.status_ok = ap (λ r. r.0) x.wrote in
      let begun : (p.write_nfcc tx s.env).1 ≡ x.begun = ap (λ r. r.1) x.wrote in
      let s1 = record s { env = x.begun } in
      let s2 = record s { env = x.middle } in
      let got = read_lem rx x.credits timeout s1 x.middle (x.credited rx timeout) in
      let then_ = read_lem x.credits m timeout s2 e (x.came x.credits timeout) in
      rw wrote (
        rw same_status (
          rw begun (
            rw (first_read rx x.credits timeout s1 s2 got)
              (credited_lem tx x.credits m timeout s2 _ x.is_data x.are_credits then_))))
