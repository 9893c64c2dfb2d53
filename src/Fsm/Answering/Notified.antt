-- ===== src/Fsm/Answering/Notified.antt =====
-- The notification of a reset passes the checks of `reset_core_`.
use esphome_pn.Driver.Reads.{get_elem?-some}
use esphome_pn.Driver.{State, ok}
use esphome_pn.Prelude.{
  List, ℕ, get_elem?, ◌≡◌, true, ◌++◌, ◌∷◌, some, length, ◌+◌, suc, arith, [], length-append, leb,
  ◌&&◌, refl, subst, ◌∙◌, sym,
}
use esphome_pn.Config.{check_reset_notification}
use esphome_pn.Platform.{Platform}
use esphome_pn.Fsm.Answering.{IsNotified}

module _ ⦃p : Platform⦄ where
  get_elem?-append :
      (xs ys : List ℕ) (y z : ℕ)
      → (get_elem? (xs ++ y ∷ z ∷ ys) (length xs) ≡ some y)
        × (get_elem? (xs ++ y ∷ z ∷ ys) (suc (length xs)) ≡ some z)
  get_elem?-append [] ys y z = (refl, refl)
  get_elem?-append (x ∷ xs) ys y z = get_elem?-append xs ys y z

  notification_parts :
      (m : List ℕ) (s : State p)
      → p.message_type_is m p.nci_pkt_mt_ctrl_notification ≡ true
      → p.message_length_is m 9 ≡ true
      → get_elem? m p.nci_pkt_payload_offset ≡ some 2
      → get_elem? m (p.nci_pkt_payload_offset + 1) ≡ some 1
      → length m ≡ 12
      → check_reset_notification true m s ≡ ok p.status_ok s
  unfolding check_reset_notification
  notification_parts m s type nine e3 e4 size =
      let (_, f4) = get_elem?-some m 4 (omega arith) in
      let (_, f5) = get_elem?-some m 5 (omega arith) in
      let (_, f6) = get_elem?-some m 6 (omega arith) in
      let inside : (leb 8 (length m) && leb (length m) (length m)) ≡ true = ground arith in
      rw type (rw nine (rw e3 (rw e4 (rw f4 (rw f5 (rw f6 (rw inside refl)))))))

  pub notification_lem :
      {rest : List ℕ} (note : IsNotified rest) (s : State p)
      → check_reset_notification true (note.header ++ 2 ∷ 1 ∷ rest) s ≡ ok p.status_ok s
  notification_lem {rest = rest} note s =
      let m = note.header ++ 2 ∷ 1 ∷ rest in
      let size : length m ≡ 12 =
        omega (arith, length-append note.header (2 ∷ 1 ∷ rest), note.three, note.nine) in
      let (at_3, at_4) = get_elem?-append note.header rest 2 1 in
      let e3 : get_elem? m p.nci_pkt_payload_offset ≡ some 2 =
        subst (λ i. get_elem? m i ≡ some 2) (note.three ∙ sym note.offset) at_3 in
      let e4 : get_elem? m (p.nci_pkt_payload_offset + 1) ≡ some 1 =
        subst (λ i. get_elem? m i ≡ some 1) (omega (arith, note.three, note.offset)) at_4 in
      notification_parts m s note.is_notification note.is_nine e3 e4 size
