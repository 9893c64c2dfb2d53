-- ===== src/Driver/Reaches.antt =====
-- Calls whose value is known, and that change nothing but the board.
use esphome_pn.Prelude.{◌≡◌, subst, refl, ap, ◌∙◌}
use esphome_pn.Driver.{State, ok, Outcome, M, and_then}
use esphome_pn.Platform.{Platform}

module _ {p : Platform} where
  -- A call that returns `a`, changes no member of the driver, and leaves a board with `P`.
  pub record Reaches {A : Type 0} (P : p.Env → Type 0) (a : A) (s : State p) (o : Outcome p A)
      : Type 0 where
    pub board : p.Env
    pub returns : o ≡ ok a (record s { env = board })
    pub holds : P board

  module _ {A : Type 0} {P : p.Env → Type 0} {a : A} {s : State p} where
    pub Reaches-pure : P s.env → Reaches P a s (ok a s)
    Reaches-pure h = record { board = s.env; returns = refl; holds = h }

    pub Reaches-bind :
        {B : Type 0} {Q : p.Env → Type 0} {b : B} {o : Outcome p A} (k : A → M p B)
        (l : Reaches P a s o)
        → Reaches Q b (record s { env = l.board }) (k a (record s { env = l.board }))
        → Reaches Q b s (and_then o k)
    Reaches-bind k l then_ = record {
      board = then_.board;
      returns = ap (λ o. and_then o k) l.returns ∙ then_.returns;
      holds = then_.holds;
    }

    pub Reaches-value : {a' : A} {o : Outcome p A} → a ≡ a' → Reaches P a s o → Reaches P a' s o
    Reaches-value {o = o} e l = subst (λ b. Reaches P b s o) e l

    pub Reaches-map :
        {Q : p.Env → Type 0} {o : Outcome p A}
        → ((e : p.Env) → P e → Q e)
        → Reaches P a s o
        → Reaches Q a s o
    Reaches-map f l = record { board = l.board; returns = l.returns; holds = f l.board l.holds }
