-- ===== src/Transceive/Laws.antt =====
-- What a call of `transceive_` does, whatever the bus answers.
use esphome_pn.Prelude.{
  ℕ, zero, suc, ◌+◌, ◌≤◌, ◌≡◌, ◌≢◌, refl, Bool, true, false, List, ◌==◌, Bool-cases, inl, inr,
  arith, not, if◌then◌else◌,
}
use esphome_pn.Platform.{Platform}
use esphome_pn.Driver.{State, Outcome, ok, M, pure, read_nfcc, ◌>>=◌}
use esphome_pn.Transceive.{
  read_retry, conclude, transceive, nfcc_max_comm_fails, check_data, check_response, is_credits,
}

module _ ⦃p : Platform⦄ where
  -- `Reads timeout n rx e rx' e'`: n reads of the bus, one after the other, lead from the message
  -- `rx` on the board `e` to the message `rx'` on the board `e'`.
  pub data Reads (timeout : ℕ) : ℕ → List ℕ → p.Env → List ℕ → p.Env → Type 0 where
    nothing : {rx : List ℕ} {e : p.Env} → Reads timeout zero rx e rx e
    read :
        {n : ℕ} {rx rx' : List ℕ} {e e' : p.Env}
        → Reads timeout n (p.read_nfcc rx timeout e).1 (p.read_nfcc rx timeout e).2 rx' e'
        → Reads timeout (suc n) rx e rx' e'

  one_more :
      {timeout n : ℕ} {rx rx' : List ℕ} {e e' : p.Env}
      → Reads timeout n rx e rx' e'
      → Reads timeout (suc n) rx e (p.read_nfcc rx' timeout e').1 (p.read_nfcc rx' timeout e').2
  one_more nothing = read nothing
  one_more (read r) = read (one_more r)

  -- A call that returns, changes no member of the driver and makes at most `most` reads on the
  -- board `e`.
  pub record Answers {A : Type 0} (most timeout : ℕ) (rx : List ℕ) (e : p.Env) (s : State p)
      (o : Outcome p (A × List ℕ)) : Type 0 where
    pub value : A
    pub message : List ℕ
    pub board : p.Env
    pub count : ℕ
    pub count_le : count ≤ most
    pub returns : o ≡ ok (value, message) (record s { env = board })
    pub reads : Reads timeout count rx e message board

  module _ {A : Type 0} {most timeout : ℕ} {rx : List ℕ} {e : p.Env} {s : State p} where
    Answers-if :
        (b : Bool) (m k : M p (A × List ℕ))
        → Answers most timeout rx e s (m s)
        → Answers most timeout rx e s (k s)
        → Answers most timeout rx e s ((if b then m else k) s)
    Answers-if true m k hm hk = hm
    Answers-if false m k hm hk = hk

  -- no read
  Answers-pure :
      {A : Type 0} {rx : List ℕ} (most timeout : ℕ) (a : A) (s : State p)
      → Answers most timeout rx s.env s (ok (a, rx) s)
  Answers-pure most timeout a s = record {
    value = a;
    message = _;
    board = _;
    count = 0;
    count_le = omega arith;
    returns = refl;
    reads = nothing;
  }

  -- one read, and a value that depends on it
  Answers-read :
      {A : Type 0} (most timeout : ℕ) (rx : List ℕ) (f : ℕ → A) (s : State p)
      → Answers
          (suc most)
          timeout
          rx
          s.env
          s
          ((do (status, rx') ← read_nfcc rx timeout; pure (f status, rx')) s)
  Answers-read most timeout rx f s = record {
    value = f (p.read_nfcc rx timeout s.env).0;
    message = _;
    board = _;
    count = 1;
    count_le = omega arith;
    returns = refl;
    reads = read nothing;
  }

  module _ {timeout : ℕ} where
    Reads-trans :
        {i j : ℕ} {rx rx' rx'' : List ℕ} {e e' e'' : p.Env}
        → Reads timeout i rx e rx' e'
        → Reads timeout j rx' e' rx'' e''
        → (l : ℕ) × (l ≤ i + j) × Reads timeout l rx e rx'' e''
    Reads-trans {j = j} nothing q = (j, omega arith, q)
    Reads-trans (read r) q = let (l, le, all) = Reads-trans r q in (suc l, omega arith, read all)

  read_retry-Answers :
      (n : ℕ) (rx : List ℕ) (timeout : ℕ) (s : State p)
      → Answers (suc n) timeout rx s.env s (read_retry n rx timeout s)
  unfolding read_retry
  read_retry-Answers zero rx timeout s =
      Answers-read 0 timeout rx (λ status. status == p.status_ok) s
  read_retry-Answers (suc n) rx timeout s =
      let more =
        read_retry-Answers n (p.read_nfcc rx timeout s.env).1 timeout
          (record s { env = (p.read_nfcc rx timeout s.env).2 }) in
      elim (Bool-cases ((p.read_nfcc rx timeout s.env).0 == p.status_ok)) [
        | inl e ↦ record {
          value = true;
          message = _;
          board = _;
          count = 1;
          count_le = omega arith;
          returns = ground arith;
          reads = read nothing;
        }
        | inr e ↦ record {
          value = more.value;
          message = more.message;
          board = more.board;
          count = suc more.count;
          count_le = omega (arith, more.count_le);
          returns = ground (arith, more.returns);
          reads = read more.reads;
        }
      ]

  check_data-Answers :
      (rx : List ℕ) (timeout : ℕ) (expect_notification : Bool) (s : State p)
      → Answers 1 timeout rx s.env s (check_data rx timeout expect_notification s)
  unfolding check_data
  check_data-Answers rx timeout true s =
      Answers-if (not (is_credits rx)) (pure (p.status_failed, rx)) _
        (Answers-pure 1 timeout p.status_failed s)
        (Answers-read 0 timeout rx (λ c. if c == p.status_ok then p.status_ok else p.status_failed)
          s)
  check_data-Answers rx timeout false s =
      Answers-if (not (is_credits rx)) (pure (p.status_failed, rx)) (pure (p.status_ok, rx))
        (Answers-pure 1 timeout p.status_failed s) (Answers-pure 1 timeout p.status_ok s)

  conclude-Answers :
      (tx rx : List ℕ) (timeout : ℕ) (expect_notification received : Bool) (s : State p)
      → Answers 1 timeout rx s.env s (conclude tx timeout expect_notification received rx s)
  unfolding conclude
  conclude-Answers tx rx timeout expect_notification false s =
      Answers-pure 1 timeout p.status_failed s
  conclude-Answers tx rx timeout expect_notification true s =
      Answers-if (not (p.message_type_is tx p.nci_pkt_mt_data)) (pure (check_response tx rx, rx))
        (check_data rx timeout expect_notification)
        (Answers-pure 1 timeout (check_response tx rx) s)
        (check_data-Answers rx timeout expect_notification s)

  -- Whatever the bus answers, `transceive_` returns. The command is written once, and there are at
  -- most five reads, one after the other from the board as that write leaves it. No member of the
  -- driver is changed.
  pub transceive-Answers :
      (tx rx : List ℕ) (timeout : ℕ) (expect_notification : Bool) (s : State p)
      → Answers 5 timeout rx
          (p.write_nfcc tx s.env).1
          s
          (transceive tx rx timeout expect_notification s)
  unfolding transceive
  transceive-Answers tx rx timeout expect_notification s =
      let s' = record s { env = (p.write_nfcc tx s.env).1 } in
      let first = read_retry-Answers nfcc_max_comm_fails rx timeout s' in
      let then_ =
        conclude-Answers tx first.message timeout expect_notification first.value
          (record s { env = first.board }) in
      let (total, total_le, all) = Reads-trans first.reads then_.reads in
      elim (Bool-cases (not ((p.write_nfcc tx s.env).0 == p.status_ok))) [
        | inl e ↦ record {
          value = p.status_failed;
          message = rx;
          board = (p.write_nfcc tx s.env).1;
          count = 0;
          count_le = omega arith;
          returns = ground arith;
          reads = nothing;
        }
        | inr e ↦ record {
          value = then_.value;
          message = then_.message;
          board = then_.board;
          count = total;
          count_le = omega (arith, first.count_le, then_.count_le);
          returns = ground (arith, first.returns, then_.returns);
          reads = all;
        }
      ]

  -- A message other than a data packet for which `transceive_` returns OK, was answered by a
  -- message of its own group and opcode, whose status is OK. FAILED has to differ from OK.
  pub transceive_sound :
      (tx rx : List ℕ) (timeout : ℕ) (expect_notification : Bool) (s : State p) {rx' : List ℕ}
      {s' : State p}
      → p.status_failed ≢ p.status_ok
      → p.message_type_is tx p.nci_pkt_mt_data ≡ false
      → transceive tx rx timeout expect_notification s ≡ ok (p.status_ok, rx') s'
      → (p.get_gid rx' ≡ p.get_gid tx)
        × (p.get_oid rx' ≡ p.get_oid tx)
        × (p.get_simple_status_response rx' ≡ p.status_ok)
  unfolding transceive conclude
  transceive_sound tx rx timeout expect_notification s ne c h = ground arith
