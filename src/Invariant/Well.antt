-- ===== src/Invariant/Well.antt =====
-- The bounds of the driver's counters are an invariant.
use esphome_pn.Invariant.Blind.{remember_endpoint-Stays, work_on_tag-Stays}
use esphome_pn.Driver.{Device}
use esphome_pn.States.Well.{set_error_state-KeepsWell}
use esphome_pn.Endpoints.{Endpoint}
use esphome_pn.Prelude.{List, arith, inr, some, refl}
use esphome_pn.Driver.Well.{WellCore}
use esphome_pn.Invariant.{IsInvariant}
use esphome_pn.Driver.Core.{core}
use esphome_pn.Platform.{Platform}

module _ ⦃p : Platform⦄ where
  abbrev blind :
      (d : Device p) (xs : List Endpoint)
      → WellCore (core d)
      → WellCore (core (record d { discovered_endpoint = xs }))
  blind d xs w = w

  instance abbrev pub WellCore-IsInvariant : IsInvariant WellCore
  WellCore-IsInvariant = record {
    new_state = λ c x live w. record {
      live = live;
      errors_bounded = omega arith;
      errors_explained = inr refl;
      fails_bounded = w.fails_bounded;
    };
    error_state = set_error_state-KeepsWell;
    failing = λ c n l w. record {
      live = w.live;
      errors_bounded = w.errors_bounded;
      errors_explained = w.errors_explained;
      fails_bounded = l;
    };
    without = λ c i w. w;
    remembering = remember_endpoint-Stays blind;
    working = λ i protocol tag. work_on_tag-Stays blind i protocol (some tag);
  }
