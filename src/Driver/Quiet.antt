-- ===== src/Driver/Quiet.antt =====
-- Actions that leave the members of the driver alone and change only the board.
use esphome_pn.Prelude.{
  refl, ◌≡◌, List, ℕ, Bool, if◌then◌else◌, ◌∙◌, true, false, Option, take, ◌-◌, some, drop,
  get_elem?, leb, none, ◌&&◌, length, subst,
}
use esphome_pn.Platform.{Platform, Pin, Event}
use esphome_pn.Driver.{
  State, Device, Outcome, ok, fault, hang, M, pure, get_dev, ◌>>=◌, pass, and_then, digital_write,
  delay, read_nfcc, setup_pin, range, digital_read, element, millis, emit, at_elem,
}

module _ {p : Platform} where
  -- the state of an action that returned is one of `Q`
  pub data Keeps {A : Type 0} (Q : State p → Type 0) : Outcome p A → Type 0 where
    keeps : {a : A} {s : State p} → Q s → Keeps Q (ok a s)
    keeps_fault : Keeps Q fault
    keeps_hang : Keeps Q hang

  -- what a keeping action says of the state in which it returned
  pub Keeps-ok :
      {A : Type 0} {Q : State p → Type 0} {a : A} {s : State p} {o : Outcome p A}
      → Keeps Q o
      → o ≡ ok a s
      → Q s
  Keeps-ok {Q = Q} {s = s} (keeps {s = s'} q) e = let same : s' ≡ s = cc in subst Q same q
  Keeps-ok keeps_fault e = cc
  Keeps-ok keeps_hang e = cc

  -- the action returned, in a state of `Q`
  pub data Returns {A : Type 0} (Q : State p → Type 0) : Outcome p A → Type 0 where
    returned : {a : A} {s : State p} → Q s → Returns Q (ok a s)

  pub record IsQuiet {A : Type 0} (m : M p A) : Type 0 where
    pub at : (s : State p) → Keeps (λ s'. s'.dev ≡ s.dev) (m s)

module _ {p : Platform} {A : Type 0} where
  pub IsQuiet-pure : (a : A) → IsQuiet {p = p} (pure a)
  IsQuiet-pure a = record { at = λ s. keeps refl }

  pub IsQuiet-if : (b : Bool) (m k : M p A) → IsQuiet m → IsQuiet k → IsQuiet (if b then m else k)
  IsQuiet-if true m k hm hk = hm
  IsQuiet-if false m k hm hk = hk

module _ {p : Platform} where
  pub IsQuiet-get_dev : IsQuiet {p = p} get_dev
  IsQuiet-get_dev = record { at = λ s. keeps refl }

  pub IsQuiet-pass : IsQuiet {p = p} pass
  IsQuiet-pass = record { at = λ s. keeps refl }

  pub IsQuiet-delay : (ms : ℕ) → IsQuiet {p = p} (delay ms)
  IsQuiet-delay ms = record { at = λ s. keeps refl }

  pub IsQuiet-digital_write : (pin : Pin) (level : Bool) → IsQuiet {p = p} (digital_write pin level)
  IsQuiet-digital_write pin level = record { at = λ s. keeps refl }

  pub IsQuiet-read_nfcc : (rx : List ℕ) (timeout : ℕ) → IsQuiet {p = p} (read_nfcc rx timeout)
  IsQuiet-read_nfcc rx timeout = record { at = λ s. keeps refl }

  pub IsQuiet-millis : IsQuiet {p = p} millis
  IsQuiet-millis = record { at = λ s. keeps refl }

  pub IsQuiet-emit : (event : Event p.NfcTag) → IsQuiet {p = p} (emit event)
  IsQuiet-emit event = record { at = λ s. keeps refl }

  pub IsQuiet-digital_read : (pin : Pin) → IsQuiet {p = p} (digital_read pin)
  IsQuiet-digital_read pin = record { at = λ s. keeps refl }

  pub IsQuiet-setup_pin : (pin : Pin) → IsQuiet {p = p} (setup_pin pin)
  IsQuiet-setup_pin pin = record { at = λ s. keeps refl }

  pub IsQuiet-hang : {A : Type 0} → IsQuiet {p = p} {A = A} (λ s. hang)
  IsQuiet-hang = record { at = λ s. keeps_hang }

  pub IsQuiet-element : {A : Type 0} (xs : List A) (i : ℕ) → IsQuiet {p = p} (element xs i)
  IsQuiet-element xs i = record { at = λ s. go (get_elem? xs i) s }
    where
      go :
          {A : Type 0} (o : Option A) (s : State p)
          → Keeps (λ s'. s'.dev ≡ s.dev) (at_elem {p = p} o s)
      go none s = keeps_fault
      go (some a) s = keeps refl

  pub IsQuiet-range : (xs : List ℕ) (i j : ℕ) → IsQuiet {p = p} (range xs i j)
  IsQuiet-range xs i j = record { at = λ s. go (leb i j && leb j (length xs)) s }
    where
      go :
          (b : Bool) (s : State p)
          → Keeps (λ s'. s'.dev ≡ s.dev) (if b then ok (take (j - i) (drop i xs)) s else fault)
      go true s = keeps refl
      go false s = keeps_fault

module _ {p : Platform} {A B : Type 0} where
  pub Keeps-and_then :
      (o : Outcome p A) (f : A → M p B) (Q : State p → Type 0)
      → Keeps Q o
      → ((a : A) (s : State p) → Q s → Keeps Q (f a s))
      → Keeps Q (and_then o f)
  Keeps-and_then (ok a s) f Q (keeps h) k = k a s h
  Keeps-and_then fault f Q h k = keeps_fault
  Keeps-and_then hang f Q h k = keeps_hang

  pub IsQuiet-bind :
      (m : M p A) (f : A → M p B) → IsQuiet m → ((a : A) → IsQuiet (f a)) → IsQuiet (m >>= f)
  IsQuiet-bind m f hm hf = record {
    at = λ s.
        Keeps-and_then (m s) f (λ s'. s'.dev ≡ s.dev) (hm.at s) (λ a s' h. weaken h ((hf a).at s'));
  }
    where
      weaken :
          {C : Type 0} {o : Outcome p C} {d d' : Device p}
          → d ≡ d'
          → Keeps (λ s'. s'.dev ≡ d) o
          → Keeps (λ s'. s'.dev ≡ d') o
      weaken e (keeps h) = keeps (h ∙ e)
      weaken e keeps_fault = keeps_fault
      weaken e keeps_hang = keeps_hang

module _ {p : Platform} {A : Type 0} {Q : State p → Type 0} where
  pub Returns-if :
      (b : Bool) {o o' : Outcome p A} → Returns Q o → Returns Q o' → Returns Q (if b then o else o')
  Returns-if true h h' = h
  Returns-if false h h' = h'

module _ {p : Platform} {A : Type 0} {Q R : State p → Type 0} where
  pub Returns-map : {o : Outcome p A} → ((s : State p) → Q s → R s) → Returns Q o → Returns R o
  Returns-map f (returned {s = s} q) = returned (f s q)

module _ {p : Platform} {A B : Type 0} {Q R : State p → Type 0} where
  pub Returns-and_then :
      {o : Outcome p A} {f : A → M p B}
      → Returns Q o
      → ((a : A) (s : State p) → Q s → Returns R (f a s))
      → Returns R (and_then o f)
  Returns-and_then (returned h) k = k _ _ h

pub ruleset quiet_rules = (
  IsQuiet-pure, IsQuiet-if, IsQuiet-bind, IsQuiet-get_dev, IsQuiet-pass, IsQuiet-delay,
  IsQuiet-digital_write, IsQuiet-read_nfcc, IsQuiet-millis, IsQuiet-emit, IsQuiet-digital_read,
  IsQuiet-setup_pin, IsQuiet-hang, IsQuiet-element, IsQuiet-range,
)
