-- ===== src/Driver/Ends.antt =====
-- Actions that come to an end, in a value or in a fault, and do not use up their rounds.
use esphome_pn.Driver.{
  pure, Outcome, M, ◌>>=◌, State, and_then, ok, element, range, fault, at_elem, hang,
}
use esphome_pn.Prelude.{
  Bool, List, ℕ, if◌then◌else◌, Option, leb, true, some, ◌&&◌, false, length, get_elem?, none, take,
  ◌-◌, drop,
}
use esphome_pn.Platform.{Platform}

module _ {p : Platform} where
  pub data Ended {A : Type 0} : Outcome p A → Type 0 where
    with_value : {a : A} {s : State p} → Ended (ok a s)
    with_fault : Ended fault

  pub record Ends {A : Type 0} (m : M p A) : Type 0 where
    pub at : (s : State p) → Ended (m s)

  pub Ends-if : {A : Type 0} (b : Bool) (m k : M p A) → Ends m → Ends k → Ends (if b then m else k)
  Ends-if true m k hm hk = hm
  Ends-if false m k hm hk = hk

  pub Ends-pure : {A : Type 0} (a : A) → Ends {A = A} (pure a)
  Ends-pure a = record { at = λ s. with_value }

  Ended-and_then :
      {A B : Type 0} (o : Outcome p A) (f : A → M p B)
      → Ended o
      → ((a : A) → Ends (f a))
      → Ended (and_then o f)
  Ended-and_then (ok a s) f with_value hf = (hf a).at s
  Ended-and_then fault f with_fault hf = with_fault
  Ended-and_then hang f e hf = elim e [ ]

  pub Ends-bind :
      {A B : Type 0} (m : M p A) (f : A → M p B) → Ends m → ((a : A) → Ends (f a)) → Ends (m >>= f)
  Ends-bind m f hm hf = record { at = λ s. Ended-and_then (m s) f (hm.at s) hf }

  pub Ends-element : {A : Type 0} (xs : List A) (i : ℕ) → Ends (element xs i)
  Ends-element xs i = record { at = λ s. found (get_elem? xs i) s }
    where
      found : {C : Type 0} (x : Option C) (s : State p) → Ended (at_elem x s)
      found none s = with_fault
      found (some x) s = with_value

  pub Ends-range : (xs : List ℕ) (i j : ℕ) → Ends (range xs i j)
  Ends-range xs i j = record {
    at = λ s. inside (leb i j && leb j (length xs)) (take (j - i) (drop i xs)) s;
  }
    where
      inside : (b : Bool) (ys : List ℕ) (s : State p) → Ended (if b then ok ys s else fault)
      inside true ys s = with_value
      inside false ys s = with_fault

pub ruleset ends_rules = (Ends-if, Ends-pure, Ends-bind, Ends-element, Ends-range)
