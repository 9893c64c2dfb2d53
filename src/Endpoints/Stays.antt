-- ===== src/Endpoints/Stays.antt =====
-- Erasing and purging endpoints keep an invariant.
use esphome_pn.Driver.{Device}
use esphome_pn.Driver.Stays.{Stays-pass, stays_rules, Stays-bind, Stays}
use esphome_pn.Endpoints.Quiet.{emit_all-IsQuiet}
use esphome_pn.Driver.Quiet.{IsQuiet-element, IsQuiet-millis}
use esphome_pn.Prelude.{ℕ, suc, zero, erase_at}
use esphome_pn.Endpoints.{purge_loop, purge_old_tags, purge_round, erase_tag}
use esphome_pn.Invariant.{IsInvariant}
use esphome_pn.Driver.Core.{Core, core}
use esphome_pn.Platform.{Platform}

module _ ⦃p : Platform⦄ {R : Core p → Type 0} ⦃inv : IsInvariant R⦄ where
  pub erase_tag-Stays : (i : ℕ) → Stays R (erase_tag i)
  unfolding erase_tag
  erase_tag-Stays i =
      let erased : (d : Device p) (j : ℕ)
          → R (core d)
          → R (core (record d { discovered_endpoint = erase_at d.discovered_endpoint j })) =
        λ d j w. inv.without (core d) j w in
      search (stays_rules, IsQuiet-element, emit_all-IsQuiet, erased) depth 10

  purge_round-Stays : (i : ℕ) → Stays R (purge_round i)
  unfolding purge_round
  purge_round-Stays i =
      search (stays_rules, IsQuiet-millis, IsQuiet-element, erase_tag-Stays) depth 12

  purge_loop-Stays : (i : ℕ) → Stays R (purge_loop i)
  unfolding purge_loop
  purge_loop-Stays zero = Stays-pass
  purge_loop-Stays (suc i) =
      Stays-bind (purge_round i) (λ _. purge_loop i) (purge_round-Stays i) (λ _. purge_loop-Stays i)

  pub purge_old_tags-Stays : Stays R purge_old_tags
  unfolding purge_old_tags
  purge_old_tags-Stays = search (stays_rules, purge_loop-Stays) depth 10
