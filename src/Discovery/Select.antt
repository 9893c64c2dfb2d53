-- ===== src/Discovery/Select.antt =====
-- Which endpoint `select_endpoint_` chooses.
use esphome_pn.Driver.{DiscoveredEndpoint}
use esphome_pn.Discovery.{first_untriggered}
use esphome_pn.Platform.{Platform}
use esphome_pn.Prelude.{
  List, ◌∷◌, [], ℕ, ◌≡◌, some, ◌+◌, get_elem?, false, true, take, Bool-cases, inl, arith, suc, inr,
  none, All,
}

module _ ⦃p : Platform⦄ where
  first_untriggered_from :
      (i j : ℕ) (xs : List (DiscoveredEndpoint p.NfcTag)) (y : DiscoveredEndpoint p.NfcTag)
      → first_untriggered i xs ≡ some (j, y)
      → (k : ℕ) × (j ≡ i + k)
        × (get_elem? xs k ≡ some y)
        × (y.trig_called ≡ false)
        × All (λ x. x.trig_called ≡ true) (take k xs)
  unfolding first_untriggered
  first_untriggered_from i j [] y h = cc
  first_untriggered_from i j (x ∷ xs) y h = elim (Bool-cases x.trig_called) [
    | inl called ↦
        let (k, e, at_k, fresh, before) = first_untriggered_from (i + 1) j xs y (ground arith) in
        (suc k, omega arith, at_k, fresh, (called, before))
    | inr uncalled ↦ (0, ground arith, ground arith, ground arith, tt)
  ]

  -- The endpoint that is chosen stands at the index that is given, its triggers were not called yet,
  -- and those of all endpoints before it were.
  first_untriggered_lem :
      (j : ℕ) (xs : List (DiscoveredEndpoint p.NfcTag)) (y : DiscoveredEndpoint p.NfcTag)
      → first_untriggered 0 xs ≡ some (j, y)
      → (get_elem? xs j ≡ some y)
        × (y.trig_called ≡ false)
        × All (λ x. x.trig_called ≡ true) (take j xs)
  first_untriggered_lem j xs y h =
      let (k, e, at_k, fresh, before) = first_untriggered_from 0 j xs y h in
      let same : j ≡ k = omega arith in rw same (at_k, fresh, before)

  -- If no endpoint is chosen, the triggers of all were called.
  first_untriggered-none :
      (i : ℕ) (xs : List (DiscoveredEndpoint p.NfcTag))
      → first_untriggered i xs ≡ none
      → All (λ x. x.trig_called ≡ true) xs
  unfolding first_untriggered
  first_untriggered-none i [] h = tt
  first_untriggered-none i (x ∷ xs) h = elim (Bool-cases x.trig_called) [
    | inl called ↦ (called, first_untriggered-none (i + 1) xs (ground arith))
    | inr uncalled ↦ absurd (ground arith)
  ]
