-- ===== src/Transport/Clock.antt =====
-- The wait for the interrupt line: how it ends, on a clock that moves on.
use esphome_pn.Driver.Quiet.{Returns, returned}
use esphome_pn.Driver.{State, ok}
use esphome_pn.Transport.{wait_for_irq, wait_round}
use esphome_pn.Endpoints.{sub32}
use esphome_pn.Prelude.{
  ℕ, ◌*◌, ◌≤◌, ◌≡◌, ◌<◌, ◌⊎◌, ◌+◌, ◌%◌, ◌-◌, ◌^◌, arith, Bool, bool_eq, suc, zero, false, true, inl,
  dec_lt, inr, refl, subst, Bool-cases, sym,
}
use native.Mathlib.Nat.{mul-le-mul_right}
use esphome_pn.Platform.{Platform, irq_pin}

module _ ⦃p : Platform⦄ where
  -- the board after a round of the wait
  abbrev pub after_round : p.Env → p.Env
  after_round e = (p.digital_read irq_pin (p.millis e).1).1

  -- The clock of `millis()`: `clock` counts milliseconds without end, and what the driver reads is
  -- its last 32 bits. A read of the clock, and a round of a wait, take at most `lag`.
  pub record IsClock (clock : p.Env → ℕ) (lag : ℕ) : Type 0 where
    pub reads : (e : p.Env) → (p.millis e).0 ≡ clock e % 2 ^ 32
    pub forward : (e : p.Env) → clock e ≤ clock (p.millis e).1
    pub millis_lag : (e : p.Env) → clock (p.millis e).1 ≤ clock e + lag
    pub onward : (e : p.Env) → clock e ≤ clock (after_round e)
    pub round_lag : (e : p.Env) → clock (after_round e) ≤ clock e + lag

  -- Rounds take time: `idle` is how many more of them, at most `most`, fit into the millisecond.
  pub record IsTicking (clock idle : p.Env → ℕ) (most : ℕ) : Type 0 where
    pub bounded : (e : p.Env) → idle e ≤ most
    pub ticks :
        (e : p.Env)
        → (clock e < clock (after_round e))
          ⊎ ((clock (after_round e) ≡ clock e) × (idle (after_round e) < idle e))

-- the difference of two readings, through the wrap of the counter
pub sub32-elapsed : (a b : ℕ) → a ≤ b → b - a < 2 ^ 32 → sub32 (b % 2 ^ 32) (a % 2 ^ 32) ≡ b - a
sub32-elapsed a b l h = omega arith

-- the rounds that are left when `ms` milliseconds are
abbrev pub rounds_in : ℕ → ℕ → ℕ → ℕ
rounds_in most ms idle = ms * (most + 1) + idle

rounds_in-earlier :
    (most ms ms' idle idle' : ℕ)
    → ms' < ms
    → idle' ≤ most
    → rounds_in most ms' idle' < rounds_in most ms idle
rounds_in-earlier most zero ms' idle idle' l b = absurd (omega arith)
rounds_in-earlier most (suc ms) ms' idle idle' l b =
    let fewer : ms' * (most + 1) ≤ ms * (most + 1) = mul-le-mul_right (most + 1) (omega arith) in
    omega arith

bool_eq-same : (b : Bool) → bool_eq b b ≡ true
bool_eq-same true = refl
bool_eq-same false = refl

module _ ⦃p : Platform⦄ {clock : p.Env → ℕ} {lag : ℕ} (time : IsClock clock lag) where
  -- what is read of the clock after a start, as long as the difference fits into 32 bits
  elapsed :
      (e : p.Env) (start : ℕ)
      → start ≤ clock e
      → clock e - start < 2 ^ 32
      → sub32 (p.millis e).0 (start % 2 ^ 32) ≡ clock e - start
  elapsed e start l h = rw (time.reads e) (sub32-elapsed start (clock e) l h)

  -- a round that is late, one that sees the level, and one that does not
  round_late :
      (rounds start timeout : ℕ) (level : Bool) (s : State p)
      → timeout ≤ sub32 (p.millis s.env).0 start
      → wait_round (suc rounds) start timeout level s
        ≡ ok p.status_failed (record s { env = (p.millis s.env).1 })
  unfolding wait_round
  round_late rounds start timeout level s late = ground arith

  round_seen :
      (rounds start timeout : ℕ) (level : Bool) (s : State p)
      → sub32 (p.millis s.env).0 start < timeout
      → bool_eq (p.digital_read irq_pin (p.millis s.env).1).0 level ≡ true
      → wait_round (suc rounds) start timeout level s
        ≡ ok p.status_ok (record s { env = after_round s.env })
  unfolding wait_round
  round_seen rounds start timeout level s soon seen = ground arith

  round_unseen :
      (rounds start timeout : ℕ) (level : Bool) (s : State p)
      → sub32 (p.millis s.env).0 start < timeout
      → bool_eq (p.digital_read irq_pin (p.millis s.env).1).0 level ≡ false
      → wait_round (suc rounds) start timeout level s
        ≡ wait_round rounds start timeout level (record s { env = after_round s.env })
  unfolding wait_round
  round_unseen rounds start timeout level s soon unseen = ground arith

  -- a line that has the level, and is looked at in time
  pub wait_for_irq-seen :
      (timeout : ℕ) (level : Bool) (s : State p)
      → 0 < p.patience
      → lag < timeout
      → timeout < 2 ^ 32
      → (p.digital_read irq_pin (p.millis (p.millis s.env).1).1).0 ≡ level
      → wait_for_irq timeout level s
        ≡ ok p.status_ok (record s { env = after_round (p.millis s.env).1 })
  unfolding wait_for_irq
  wait_for_irq-seen timeout level s some_round quick short seen = rw (time.reads s.env) (
      first p.patience (record s { env = (p.millis s.env).1 }) some_round
        (subst (λ x. x < timeout)
          (sym (
            elapsed (p.millis s.env).1 (clock s.env) (time.forward s.env)
              (omega (arith, time.millis_lag s.env))))
          (omega (arith, time.millis_lag s.env)))
        (rw seen (bool_eq-same level)))
    where
      first :
          (rounds : ℕ) (s' : State p)
          → 0 < rounds
          → sub32 (p.millis s'.env).0 (clock s.env % 2 ^ 32) < timeout
          → bool_eq (p.digital_read irq_pin (p.millis s'.env).1).0 level ≡ true
          → wait_round rounds (clock s.env % 2 ^ 32) timeout level s'
            ≡ ok p.status_ok (record s' { env = after_round s'.env })
      first zero s' some soon look = absurd (omega arith)
      first (suc rounds) s' some soon look =
          round_seen rounds (clock s.env % 2 ^ 32) timeout level s' soon look

  module _ {idle : p.Env → ℕ} {most : ℕ} (ticking : IsTicking clock idle most) where
    -- a round that ends nothing uses up some of the rounds that are left
    fewer_rounds :
        (start timeout : ℕ) (e : p.Env) {rounds : ℕ}
        → clock e < start + timeout
        → start ≤ clock e
        → rounds_in most (start + timeout - clock e) (idle e) < suc rounds
        → rounds_in most (start + timeout - clock (after_round e)) (idle (after_round e)) < rounds
    fewer_rounds start timeout e soon l enough = elim (ticking.ticks e) [
      | inl later ↦
          let fewer =
            rounds_in-earlier most (start + timeout - clock e)
              (start + timeout - clock (after_round e)) (idle e) (idle (after_round e))
              (omega arith) (ticking.bounded (after_round e)) in
          omega arith
      | inr (same, idler) ↦ rw same (omega arith)
    ]

    wait_round-Returns :
        (rounds start timeout : ℕ) (level : Bool) (s : State p)
        → start ≤ clock s.env
        → clock s.env ≤ start + timeout + lag
        → timeout + lag < 2 ^ 32
        → rounds_in most (start + timeout - clock s.env) (idle s.env) < rounds
        → Returns (λ s'. s'.dev ≡ s.dev) (wait_round rounds (start % 2 ^ 32) timeout level s)
    wait_round-Returns zero start timeout level s l h short enough = absurd (omega arith)
    wait_round-Returns (suc rounds) start timeout level s l h short enough =
        let gone = elapsed s.env start l (omega arith) in
        elim (dec_lt (clock s.env) (start + timeout)) [
          | no late ↦
              rw (round_late rounds (start % 2 ^ 32) timeout level s (omega (arith, gone)))
                (returned refl)
          | yes soon ↦
              elim (Bool-cases (bool_eq (p.digital_read irq_pin (p.millis s.env).1).0 level)) [
                | inl seen ↦
                    rw
                      (round_seen rounds (start % 2 ^ 32) timeout level s (omega (arith, gone))
                        seen)
                      (returned refl)
                | inr unseen ↦
                    rw
                      (round_unseen rounds (start % 2 ^ 32) timeout level s (omega (arith, gone))
                        unseen)
                      (wait_round-Returns rounds start timeout level
                        (record s { env = after_round s.env }) (omega (arith, time.onward s.env))
                        (omega (arith, time.round_lag s.env)) short
                        (fewer_rounds start timeout s.env soon l enough))
              ]
        ]

    -- On a clock that moves on by at most `lag` milliseconds at a time, with `lag` and the timeout
    -- together below 2^32, and with at most `most` rounds more within a millisecond: where the wait
    -- is granted at least (timeout + 1) * (most + 1) rounds, it returns, whatever the line does,
    -- and changes nothing but the board.
    pub wait_for_irq-Returns :
        (timeout : ℕ) (level : Bool) (s : State p)
        → timeout + lag < 2 ^ 32
        → rounds_in most timeout most < p.patience
        → Returns (λ s'. s'.dev ≡ s.dev) (wait_for_irq timeout level s)
    unfolding wait_for_irq
    wait_for_irq-Returns timeout level s short enough =
        let e = (p.millis s.env).1 in
        let left : (clock s.env + timeout - clock e) * (most + 1) ≤ timeout * (most + 1) =
          mul-le-mul_right (most + 1) (omega (arith, time.forward s.env)) in
        rw (time.reads s.env) (
          wait_round-Returns p.patience (clock s.env) timeout level
            (record s { env = (p.millis s.env).1 }) (time.forward s.env)
            (omega (arith, time.millis_lag s.env)) short (omega (arith, ticking.bounded e)))
