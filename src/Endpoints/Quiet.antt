-- ===== src/Endpoints/Quiet.antt =====
-- Building and finding a tag, and calling the listeners, change no member.
use esphome_pn.Driver.{emit}
use esphome_pn.Driver.Quiet.{IsQuiet, quiet_rules, IsQuiet-pass, IsQuiet-bind, IsQuiet-emit}
use esphome_pn.Prelude.{List, ℕ, ◌∷◌, []}
use esphome_pn.Endpoints.{emit_all, build_tag, find_tag_uid}
use esphome_pn.Platform.{Platform, Event}

module _ ⦃p : Platform⦄ where
  pub emit_all-IsQuiet : (event : ℕ → Event p.NfcTag) (xs : List ℕ) → IsQuiet (emit_all event xs)
  unfolding emit_all
  emit_all-IsQuiet event [] = IsQuiet-pass
  emit_all-IsQuiet event (x ∷ xs) =
      IsQuiet-bind (emit (event x)) (λ _. emit_all event xs) (IsQuiet-emit (event x))
        (λ _. emit_all-IsQuiet event xs)

  pub build_tag-IsQuiet : (mode_tech : ℕ) (bytes : List ℕ) → IsQuiet (build_tag mode_tech bytes)
  unfolding build_tag
  build_tag-IsQuiet mode_tech bytes = search quiet_rules depth 10

  pub find_tag_uid-IsQuiet : (uid : List ℕ) → IsQuiet (find_tag_uid uid)
  unfolding find_tag_uid
  find_tag_uid-IsQuiet uid = search quiet_rules depth 10
