-- ===== src/Driver/Stays.antt =====
-- An action that keeps a property of the members in `Core`, if it returns, and rules for it.
use esphome_pn.Driver.Quiet.{keeps, IsQuiet, Keeps, Keeps-and_then, keeps_fault, keeps_hang}
use esphome_pn.Prelude.{Bool, if◌then◌else◌, true, ◌≡◌, false, subst, sym}
use esphome_pn.Driver.{M, Device, pure, State, ◌>>=◌, get_dev, Outcome, put_dev, pass}
use esphome_pn.Driver.Core.{Core, core}
use esphome_pn.Platform.{Platform}

module _ {p : Platform} where
  pub record Stays {A : Type 0} (R : Core p → Type 0) (m : M p A) : Type 0 where
    pub at : (s : State p) → R (core s.dev) → Keeps (λ s'. R (core s'.dev)) (m s)

module _ {p : Platform} {R : Core p → Type 0} where
  pub Stays-quiet : {A : Type 0} (m : M p A) → IsQuiet m → Stays R m
  Stays-quiet m q = record { at = λ s w. go w (q.at s) }
    where
      go :
          {C : Type 0} {d : Device p} {o : Outcome p C}
          → R (core d)
          → Keeps (λ s'. s'.dev ≡ d) o
          → Keeps (λ s'. R (core s'.dev)) o
      go w (keeps e) = keeps (subst (λ x. R (core x)) (sym e) w)
      go w keeps_fault = keeps_fault
      go w keeps_hang = keeps_hang

  pub Stays-if :
      {A : Type 0} (b : Bool) (m k : M p A) → Stays R m → Stays R k → Stays R (if b then m else k)
  Stays-if true m k hm hk = hm
  Stays-if false m k hm hk = hk

  pub Stays-pass : Stays {A = Unit {0}} R pass
  Stays-pass = record { at = λ s w. keeps w }

  pub Stays-pure : {A : Type 0} (a : A) → Stays R (pure a)
  Stays-pure a = record { at = λ s w. keeps w }

  pub Stays-put : (d : Device p) → R (core d) → Stays R (put_dev d)
  Stays-put d w = record { at = λ s _. keeps w }

  pub Stays-bind :
      {A B : Type 0} (m : M p A) (f : A → M p B)
      → Stays R m
      → ((a : A) → Stays R (f a))
      → Stays R (m >>= f)
  Stays-bind m f hm hf = record {
    at = λ s w.
        Keeps-and_then (m s) f (λ s'. R (core s'.dev)) (hm.at s w) (λ a s' w'. (hf a).at s' w');
  }

  pub Stays-get :
      {B : Type 0} (f : Device p → M p B)
      → ((d : Device p) → R (core d) → Stays R (f d))
      → Stays R (get_dev >>= f)
  Stays-get f hf = record { at = λ s w. (hf s.dev w).at s w }

pub ruleset stays_rules =
    (Stays-get, Stays-if, Stays-pass, Stays-pure, Stays-put, Stays-bind, Stays-quiet)
