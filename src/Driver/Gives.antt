-- ===== src/Driver/Gives.antt =====
-- What is known of the value that an action returns.
use esphome_pn.Prelude.{Bool, if◌then◌else◌, true, false}
use esphome_pn.Driver.{Outcome, M, pure, State, and_then, ◌>>=◌, ok, fault, hang}
use esphome_pn.Platform.{Platform}

module _ {p : Platform} {A : Type 0} where
  pub data Value (P : A → Type 0) : Outcome p A → Type 0 where
    value : {a : A} {s : State p} → P a → Value P (ok a s)
    value_fault : Value P fault
    value_hang : Value P hang

  pub record Gives (P : A → Type 0) (m : M p A) : Type 0 where
    pub at : (s : State p) → Value P (m s)

module _ {p : Platform} {A : Type 0} {P : A → Type 0} where
  pub Gives-pure : (a : A) → P a → Gives {p = p} P (pure a)
  Gives-pure a h = record { at = λ s. value h }

  pub Gives-if : (b : Bool) (m k : M p A) → Gives P m → Gives P k → Gives P (if b then m else k)
  Gives-if true m k hm hk = hm
  Gives-if false m k hm hk = hk

  Value-and_then :
      {B : Type 0} (o : Outcome p B) (f : B → M p A)
      → ((b : B) → Gives P (f b))
      → Value P (and_then o f)
  Value-and_then (ok b s) f hf = (hf b).at s
  Value-and_then fault f hf = value_fault
  Value-and_then hang f hf = value_hang

  -- whatever comes first
  pub Gives-bind :
      {B : Type 0} (m : M p B) (f : B → M p A) → ((b : B) → Gives P (f b)) → Gives P (m >>= f)
  Gives-bind m f hf = record { at = λ s. Value-and_then (m s) f hf }

pub ruleset gives_rules = (Gives-pure, Gives-if, Gives-bind)
