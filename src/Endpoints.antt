-- ===== src/Endpoints.antt =====
-- The table of discovered tags: `find_tag_uid_`, `build_tag_`, `erase_tag_` and `purge_old_tags_`
-- of components/pn7160/pn7160.cpp.
pub mod Find
pub mod Quiet
pub mod Distinct
pub mod Stays
pub mod Purge
pub mod Sweep
mod Parts
pub mod Finish
-- `a - b` of two `uint32_t`
use esphome_pn.Driver.{
  M, DiscoveredEndpoint, pass, ◌>>=◌, millis, get_dev, pure, emit, ◌>>◌, element, range, put_dev,
}
use esphome_pn.Platform.{Platform, Event, on_tag_removed, tag_off}
use esphome_pn.Prelude.{
  List, Bool, ℕ, Option, ltb, if◌then◌else◌, ◌+◌, length, ◌^◌, none, ◌%◌, ◌==◌, ◌-◌, ◌∷◌, true, suc,
  bit_or, some, false, ◌&&◌, erase_at, zero, [],
}

abbrev pub sub32 : ℕ → ℕ → ℕ
sub32 a b = (a + 2 ^ 32 - b) % 2 ^ 32

-- The inner loop of `find_tag_uid_`: `uid_match &= (uid[i] == existing_tag_uid[i])`.
abbrev pub match_bytes : Bool → List ℕ → List ℕ → Bool
match_bytes uid_match (x ∷ xs) (y ∷ ys) = match_bytes (uid_match && x == y) xs ys
match_bytes uid_match _ _ = uid_match

unfoldable pub uid_matches : List ℕ → List ℕ → Bool
uid_matches uid existing_tag_uid =
    if length uid == length existing_tag_uid then match_bytes true uid existing_tag_uid else false

module _ ⦃p : Platform⦄ where
  abbrev pub Endpoint : Type 0
  Endpoint = DiscoveredEndpoint p.NfcTag

  unfoldable pub find_from : ℕ → List ℕ → List Endpoint → Option ℕ
  find_from i uid [] = none
  find_from i uid (x ∷ xs) =
      if uid_matches uid (p.get_uid x.tag) then some i else find_from (i + 1) uid xs

  unfoldable pub find_tag_uid : List ℕ → M p (Option ℕ)
  unfolding find_from
  find_tag_uid uid = do d ← get_dev; pure (find_from 0 uid d.discovered_endpoint)

  abbrev pub tag_type_text : ℕ → List ℕ
  tag_type_text uid_length =
      if p.guess_tag_type uid_length == p.tag_type_mifare_classic
      then p.mifare_classic
      else p.nfc_forum_type_2

  unfoldable pub build_tag : ℕ → List ℕ → M p (Option p.NfcTag)
  build_tag mode_tech bytes =
      if mode_tech == bit_or p.mode_poll p.tech_passive_nfca
      then (do
        uid_length ← element bytes 2
        if uid_length == 0 then pure none else do
          uid ← range bytes 3 (3 + uid_length)
          pure (some (p.make_tag uid (tag_type_text uid_length))))
      else pure none

  unfoldable pub emit_all : (ℕ → Event p.NfcTag) → List ℕ → M p (Unit {0})
  emit_all event [] = pass
  emit_all event (x ∷ xs) = emit (event x) >> emit_all event xs

  -- `erase_tag_` takes a `uint8_t`.
  unfoldable pub erase_tag : ℕ → M p (Unit {0})
  unfolding emit_all
  erase_tag index = do
    let tag_index = index % 256
    d ← get_dev
    if ltb tag_index (length d.discovered_endpoint)
        then (do
          x ← element d.discovered_endpoint tag_index
          emit_all (λ trigger. on_tag_removed trigger x.tag) d.triggers_ontagremoved
          emit_all (λ listener. tag_off listener x.tag) d.tag_listeners
          put_dev (record d { discovered_endpoint = erase_at d.discovered_endpoint tag_index }))
        else pass

  abbrev pub is_expired : ℕ → ℕ → Endpoint → Bool
  is_expired now ttl x = ltb ttl (sub32 now x.last_seen)

  -- one round, on the endpoint at `i`
  unfoldable pub purge_round : ℕ → M p (Unit {0})
  purge_round i = do
    now ← millis
    d ← get_dev
    x ← element d.discovered_endpoint i
    if is_expired now d.tag_ttl x then erase_tag i else pass

  unfoldable pub purge_loop : ℕ → M p (Unit {0})
  unfolding purge_round
  purge_loop zero = pass
  purge_loop (suc i) = purge_round i >> purge_loop i

  unfoldable pub purge_old_tags : M p (Unit {0})
  unfolding purge_loop
  purge_old_tags = do d ← get_dev; purge_loop (length d.discovered_endpoint)
