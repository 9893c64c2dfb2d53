-- ===== src/Settings/Fresh.antt =====
-- What no setter touches.
use esphome_pn.Driver.Core.{is_live}
use esphome_pn.Driver.Well.{IsWell}
use esphome_pn.Prelude.{List, ◌≡◌, ◌∷◌, ap, arith, [], inr, refl, false}
use esphome_pn.Driver.{Device, nfcc_reset, none_state}
use esphome_pn.Settings.{configured, apply, Setting, emulate, health_check}
use esphome_pn.Platform.{Platform}

module _ {p : Platform} where
  -- a driver that did nothing yet
  pub record IsFresh (d : Device p) : Type 0 where
    pub in_reset : d.nci_state ≡ nfcc_reset
    pub no_error : d.nci_state_error ≡ none_state
    pub no_count : d.error_count ≡ 0
    pub no_fails : d.health_fail_count ≡ 0
    pub no_endpoint : d.discovered_endpoint ≡ []
    pub no_write : d.write_mode ≡ false

  pub IsFresh-IsWell : {d : Device p} → IsFresh d → IsWell d
  IsFresh-IsWell f = record {
    live = ap is_live f.in_reset;
    errors_bounded = omega arith;
    errors_explained = inr f.no_count;
    fails_bounded = omega arith;
  }

module _ ⦃p : Platform⦄ where
  apply-IsFresh : (x : Setting) (d : Device p) → IsFresh d → IsFresh (apply x d)
  unfolding apply
  apply-IsFresh (emulate text) d f = ground arith
  apply-IsFresh (health_check b) d f = record {
    in_reset = f.in_reset;
    no_error = f.no_error;
    no_count = f.no_count;
    no_fails = f.no_fails;
    no_endpoint = f.no_endpoint;
    no_write = f.no_write;
  }
  apply-IsFresh x d f = ground arith

  pub configured-IsFresh : (xs : List Setting) → IsFresh (configured xs)
  unfolding configured
  configured-IsFresh [] = record {
    in_reset = refl;
    no_error = refl;
    no_count = refl;
    no_fails = refl;
    no_endpoint = refl;
    no_write = refl;
  }
  configured-IsFresh (x ∷ xs) = apply-IsFresh x (configured xs) (configured-IsFresh xs)
