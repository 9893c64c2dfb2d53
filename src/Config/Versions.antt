-- ===== src/Config/Versions.antt =====
-- The read of the versions in the answer to the init command.
use esphome_pn.Driver.Reads.{get_elem?-some, range-ok, get_elem?-none}
use esphome_pn.Driver.{State, ok, fault}
use esphome_pn.Prelude.{
  List, ℕ, get_elem?, ◌≡◌, some, if◌then◌else◌, ltb, ◌+◌, length, Bool-cases, inl, arith, inr, refl,
  none,
}
use esphome_pn.Config.{read_versions}
use esphome_pn.Platform.{Platform}

module _ ⦃p : Platform⦄ where
  -- The versions stand behind a table whose length is byte 8 of the answer. They are read whether
  -- or not the answer is long enough: the read is defined exactly if there are more than 20 bytes
  -- behind that length.
  pub read_versions_cases :
      (rx : List ℕ) (n : ℕ) (s : State p)
      → get_elem? rx 8 ≡ some n
      → read_versions rx s ≡ (if ltb (20 + n) (length rx) then ok tt s else fault)
  unfolding read_versions
  read_versions_cases rx n s h = elim (Bool-cases (ltb (20 + n) (length rx))) [
    | inl long ↦
        let (_, e17) = get_elem?-some rx (17 + n) (ground arith) in
        let (_, e18) = get_elem?-some rx (18 + n) (ground arith) in
        let (_, e19) = get_elem?-some rx (19 + n) (ground arith) in
        let (_, e20) = get_elem?-some rx (20 + n) (ground arith) in
        let features = range-ok rx 4 s 4 (ground arith) in
        rw long (rw h (rw e17 (rw e18 (rw e19 (rw e20 (rw features refl))))))
    | inr short ↦
        let past : get_elem? rx (20 + n) ≡ none = get_elem?-none rx (20 + n) (ground arith) in
        rw short (ground arith)
  ]
