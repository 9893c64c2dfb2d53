-- ===== src/Driver/Sends.antt =====
-- What an action writes on the bus, by a log of the writes on the board, and rules for it.
use esphome_pn.Driver.{M, pure, State, ◌>>=◌, Outcome, range, element, hang, ok, at_elem, fault}
use esphome_pn.Prelude.{
  List, ℕ, ◌≡◌, ◌++◌, Bool, ◌∷◌, [], ◌∙◌, if◌then◌else◌, All, refl, true, ap, sym, append_assoc,
  append-nil, false, All-append, Option, leb, some, ◌&&◌, get_elem?, none, length, take, ◌-◌, drop,
}
use esphome_pn.Platform.{Platform}
use esphome_pn.Driver.Quiet.{Keeps, keeps, keeps_fault, keeps_hang, Keeps-and_then}

module _ ⦃p : Platform⦄ where
  -- The board keeps a log of the messages that are written on the bus, to which nothing else adds.
  pub record IsLog (log : p.Env → List (List ℕ)) : Type 0 where
    pub wrote : (tx : List ℕ) (e : p.Env) → log (p.write_nfcc tx e).1 ≡ log e ++ tx ∷ []
    pub read : (rx : List ℕ) (timeout : ℕ) (e : p.Env) → log (p.read_nfcc rx timeout e).2 ≡ log e

  -- the messages that were written between two states of the board
  pub record Sent (log : p.Env → List (List ℕ)) (Q : List ℕ → Type 0) (e e' : p.Env) : Type 0 where
    pub messages : List (List ℕ)
    pub logged : log e' ≡ log e ++ messages
    pub every : All Q messages

module _ ⦃p : Platform⦄ (log : p.Env → List (List ℕ)) (Q : List ℕ → Type 0) where
  pub record Sends {A : Type 0} (m : M p A) : Type 0 where
    pub at : (s : State p) → Keeps (λ s'. Sent log Q s.env s'.env) (m s)

module _ ⦃p : Platform⦄ {log : p.Env → List (List ℕ)} {Q : List ℕ → Type 0} where
  Sent-none : {e e' : p.Env} → log e' ≡ log e → Sent log Q e e'
  Sent-none {e = e} h = record { messages = []; logged = h ∙ sym (append-nil (log e)); every = tt }

  Sent-trans : {e e' e'' : p.Env} → Sent log Q e e' → Sent log Q e' e'' → Sent log Q e e''
  Sent-trans {e = e} x y = record {
    messages = x.messages ++ y.messages;
    logged =
        y.logged ∙ ap (λ l. l ++ y.messages) x.logged ∙ append_assoc (log e) x.messages y.messages;
    every = All-append Q x.messages y.messages x.every y.every;
  }

  pub Sends-pure : {A : Type 0} (a : A) → Sends log Q (pure a)
  Sends-pure a = record { at = λ s. keeps (Sent-none refl) }

  pub Sends-if :
      {A : Type 0} (b : Bool) (m k : M p A)
      → Sends log Q m
      → Sends log Q k
      → Sends log Q (if b then m else k)
  Sends-if true m k hm hk = hm
  Sends-if false m k hm hk = hk

  pub Sends-bind :
      {A B : Type 0} (m : M p A) (f : A → M p B)
      → Sends log Q m
      → ((a : A) → Sends log Q (f a))
      → Sends log Q (m >>= f)
  Sends-bind m f hm hf = record {
    at = λ s.
        Keeps-and_then (m s) f (λ s'. Sent log Q s.env s'.env) (hm.at s)
          (λ a s' h. further h ((hf a).at s'));
  }
    where
      further :
          {C : Type 0} {o : Outcome p C} {e e' : p.Env}
          → Sent log Q e e'
          → Keeps (λ s'. Sent log Q e' s'.env) o
          → Keeps (λ s'. Sent log Q e s'.env) o
      further h (keeps h') = keeps (Sent-trans h h')
      further h keeps_fault = keeps_fault
      further h keeps_hang = keeps_hang

  pub Sends-hang : {A : Type 0} → Sends log Q {A = A} (λ s. hang)
  Sends-hang = record { at = λ s. keeps_hang }

  pub Sends-element : {A : Type 0} (xs : List A) (i : ℕ) → Sends log Q (element xs i)
  Sends-element xs i = record { at = λ s. found (get_elem? xs i) s }
    where
      found :
          {A : Type 0} (o : Option A) (s : State p)
          → Keeps (λ s'. Sent log Q s.env s'.env) (at_elem o s)
      found none s = keeps_fault
      found (some a) s = keeps (Sent-none refl)

  pub Sends-range : (xs : List ℕ) (i j : ℕ) → Sends log Q (range xs i j)
  Sends-range xs i j = record {
    at = λ s. inside (leb i j && leb j (length xs)) (take (j - i) (drop i xs)) s;
  }
    where
      inside :
          (b : Bool) (ys : List ℕ) (s : State p)
          → Keeps (λ s'. Sent log Q s.env s'.env) (if b then ok ys s else fault)
      inside true ys s = keeps (Sent-none refl)
      inside false ys s = keeps_fault

pub ruleset sends_rules = (Sends-pure, Sends-if, Sends-bind, Sends-element, Sends-range, Sends-hang)
