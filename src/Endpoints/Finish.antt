-- ===== src/Endpoints/Finish.antt =====
-- `purge_old_tags_` always returns.
use esphome_pn.Endpoints.Parts.{length-erase_at}
use esphome_pn.Driver.Reads.{get_elem?-some}
use esphome_pn.Endpoints.Purge.{same_but_endpoints, erase_tag_lem}
use esphome_pn.Driver.Quiet.{Returns, returned}
use esphome_pn.Prelude.{
  List, ℕ, length, ◌≤◌, ◌≡◌, arith, suc, Bool-cases, inl, ◌%◌, erase_at, inr, zero, refl,
}
use esphome_pn.Driver.{State}
use esphome_pn.Endpoints.{purge_old_tags, purge_loop, purge_round, Endpoint, is_expired}
use esphome_pn.Platform.{Platform}

module _ ⦃p : Platform⦄ where
  -- the members of the state `s`, up to the table of endpoints
  abbrev pub SameButEndpoints : State p → State p → Type 0
  SameButEndpoints s s' = (xs : List Endpoint) × (s'.dev ≡ same_but_endpoints s.dev xs)

  purge_loop-Returns :
      (i : ℕ) (s : State p)
      → i ≤ length s.discovered_endpoint
      → Returns (SameButEndpoints s) (purge_loop i s)
  unfolding purge_loop purge_round
  purge_loop-Returns zero s h = returned (s.discovered_endpoint, refl)
  purge_loop-Returns (suc i) s h =
      let xs = s.discovered_endpoint in
      let (x, at_i) = get_elem?-some xs i (omega arith) in
      let now = (p.millis s.env).0 in
      let e = (p.millis s.env).1 in
      elim (Bool-cases (is_expired now s.tag_ttl x)) [
        | inl old ↦
            let (e', _, erased) =
              erase_tag_lem (λ e'. Unit {0}) (λ event e' q. tt) i (record s { env = e })
                (omega arith) tt in
            let shorter = length-erase_at (i % 256) xs (omega arith) in
            let rest =
              purge_loop-Returns i
                (record s { dev = same_but_endpoints s.dev (erase_at xs (i % 256)); env = e' })
                (omega (arith, shorter)) in
            rw at_i (rw old (rw erased rest))
        | inr young ↦
            let rest = purge_loop-Returns i (record s { env = e }) (omega arith) in
            rw at_i (rw young rest)
      ]

  -- `purge_old_tags_` returns, whatever the clock and the table are, and changes no member but the
  -- table.
  pub purge_old_tags-Returns : (s : State p) → Returns (SameButEndpoints s) (purge_old_tags s)
  unfolding purge_old_tags
  purge_old_tags-Returns s = purge_loop-Returns (length s.discovered_endpoint) s (omega arith)
