-- ===== src/Invariant/Distinct.antt =====
-- No UID stands twice in the table of endpoints, if storing a message in a tag keeps the tag's UID.
use esphome_pn.Classic.Quiet.{halt_mifare_classic_tag-IsQuiet}
use esphome_pn.Classic.{halt_mifare_classic_tag}
use esphome_pn.Messages.Quiet.{
  format_endpoint-IsQuiet, write_endpoint-IsQuiet, clean_endpoint-IsQuiet,
  read_endpoint_data-IsQuiet,
}
use esphome_pn.Messages.SameUid.{SameUid, read_endpoint_data-SameUid}
use esphome_pn.Driver.Gives.{Value, value}
use esphome_pn.Endpoints.Purge.{emit_all_lem}
use esphome_pn.Invariant.{IsInvariant}
use esphome_pn.Endpoints.Find.{find_from-none}
use esphome_pn.Driver.Quiet.{
  quiet_rules, Keeps, keeps, keeps_fault, IsQuiet-emit, IsQuiet-element, keeps_hang, Keeps-and_then,
}
use esphome_pn.Driver.Stays.{Stays, stays_rules, Stays-pass, Stays-bind}
use esphome_pn.Endpoints.{find_tag_uid, find_from, Endpoint, emit_all}
use esphome_pn.Prelude.{
  ℕ, Option, get_elem?, ◌≡◌, refl, some, set, none, List, if◌then◌else◌, true, bytes_eq, ap, ◌∙◌,
  Bool-cases, subst, inl, sym, inr,
}
use esphome_pn.Endpoints.Distinct.{
  IsDistinct, append-IsDistinct, set-IsDistinct, erase_at-IsDistinct,
}
use esphome_pn.States.{nci_fsm_set_error_state, give_up, nci_fsm_set_state}
use esphome_pn.Driver.{
  Device, State, NciState, at_elem, ◌>>=◌, put_dev, ◌>>◌, pure, get_dev, M, Outcome, element, Task,
  and_then, ok, pass, fault, hang, ep_clean, ep_format, ep_write, ep_read,
}
use esphome_pn.Driver.Core.{Core}
use esphome_pn.Messages.{
  refresh_or_add, remember_endpoint, work_on_tag, write_task, run_task, read_task, clean_endpoint,
  format_endpoint, read_endpoint_data,
}
use esphome_pn.Platform.{Platform, on_tag, tag_on}

module _ ⦃p : Platform⦄ where
  abbrev pub NoTwins : Core p → Type 0
  NoTwins c = IsDistinct c.endpoints

  error_state-NoTwins : (x : NciState) → Stays NoTwins (nci_fsm_set_error_state x)
  unfolding nci_fsm_set_error_state give_up nci_fsm_set_state
  error_state-NoTwins x = search (stays_rules, quiet_rules) depth 20

  -- an endpoint is replaced by one with its UID
  replaced :
      (d : Device p) (loc : ℕ) (found : Option Endpoint) (f : Endpoint → Endpoint)
      → get_elem? d.discovered_endpoint loc ≡ found
      → ((x : Endpoint) → p.get_uid (f x).tag ≡ p.get_uid x.tag)
      → IsDistinct d.discovered_endpoint
      → (s : State p)
      → Keeps
          (λ s'. IsDistinct s'.discovered_endpoint)
          ((at_elem found >>= λ x.
              put_dev (record d { discovered_endpoint = set d.discovered_endpoint loc (f x) })
              >> pure loc)
            s)
  replaced d loc none f at_loc same h s = keeps_fault
  replaced d loc (some x) f at_loc same h s =
      keeps (set-IsDistinct d.discovered_endpoint loc x (f x) at_loc (same x) h)

  refresh_or_add-NoTwins :
      (i protocol : ℕ) (tag : p.NfcTag) (found : Option ℕ) (s : State p)
      → find_from 0 (p.get_uid tag) s.discovered_endpoint ≡ found
      → IsDistinct s.discovered_endpoint
      → Keeps (λ s'. IsDistinct s'.discovered_endpoint) (refresh_or_add i protocol tag found s)
  unfolding refresh_or_add
  refresh_or_add-NoTwins i protocol tag none s missing h = keeps (
      append-IsDistinct s.discovered_endpoint _ h
        (find_from-none 0 (p.get_uid tag) s.discovered_endpoint missing))
  refresh_or_add-NoTwins i protocol tag (some loc) s found h =
      replaced s.dev loc (get_elem? s.discovered_endpoint loc)
        (λ x. record x { id = i; protocol = protocol; last_seen = (p.millis s.env).0 }) refl
        (λ x. refl) h (record s { env = (p.millis s.env).1 })

  remembering-NoTwins :
      (i protocol : ℕ) (tag : p.NfcTag) → Stays NoTwins (remember_endpoint i protocol tag)
  unfolding remember_endpoint find_tag_uid
  remembering-NoTwins i protocol tag = record {
    at = λ s h.
        refresh_or_add-NoTwins i protocol tag (find_from 0 (p.get_uid tag) s.discovered_endpoint) s
          refl h;
  }

  -- the end of a read task
  abbrev note : ℕ → Endpoint → p.NfcTag → M p (Unit {0})
  note loc x tag = do
    d ← get_dev
    emit_all (λ trigger. on_tag trigger tag) d.triggers_ontag
    emit_all (λ listener. tag_on listener tag) d.tag_listeners
    put_dev (record d {
      discovered_endpoint =
          set d.discovered_endpoint loc (record x { tag = tag; trig_called = true });
    })

  note-NoTwins :
      (loc : ℕ) (x : Endpoint) (tag : p.NfcTag) (s : State p)
      → get_elem? s.discovered_endpoint loc ≡ some x
      → p.get_uid tag ≡ p.get_uid x.tag
      → IsDistinct s.discovered_endpoint
      → Keeps (λ s'. IsDistinct s'.discovered_endpoint) (note loc x tag s)
  note-NoTwins loc x tag s at_loc same h =
      let (e, _, called) =
        emit_all_lem (λ e. Unit {0}) (λ event e q. tt) (λ trigger. on_tag trigger tag)
          s.triggers_ontag s tt in
      let (e', _, listened) =
        emit_all_lem (λ e. Unit {0}) (λ event e q. tt) (λ listener. tag_on listener tag)
          s.tag_listeners (record s { env = e }) tt in
      rw called (
        rw listened (
          keeps (
            set-IsDistinct s.discovered_endpoint loc x (record x { tag = tag; trig_called = true })
              at_loc same h)))

  write_task-NoTwins :
      (uid : List ℕ) (message : Option p.NdefMessage) → Stays NoTwins (write_task uid message)
  unfolding write_task
  write_task-NoTwins uid none = Stays-pass
  write_task-NoTwins uid (some message) =
      search (stays_rules, format_endpoint-IsQuiet, write_endpoint-IsQuiet, IsQuiet-emit) depth 14

  halt-NoTwins :
      (loc : ℕ)
      → Stays NoTwins (do
        d ← get_dev
        x ← element d.discovered_endpoint loc
        if bytes_eq (p.get_tag_type x.tag) p.mifare_classic
            then halt_mifare_classic_tag >> pass
            else pass)
  halt-NoTwins loc = search (stays_rules, IsQuiet-element, halt_mifare_classic_tag-IsQuiet) depth 14

module _ ⦃p : Platform⦄
    (same_uid : (m : p.NdefMessage) (tag : p.NfcTag)
      → p.get_uid (p.set_ndef_message m tag) ≡ p.get_uid tag) where
  -- a tag that was read, whether or not with success
  read-NoTwins :
      (loc : ℕ) (x : Endpoint) (s : State p) (o : Outcome p (ℕ × p.NfcTag))
      → get_elem? s.discovered_endpoint loc ≡ some x
      → IsDistinct s.discovered_endpoint
      → Keeps (λ s'. s'.dev ≡ s.dev) o
      → Value (SameUid same_uid x.tag) o
      → Keeps (λ s'. IsDistinct s'.discovered_endpoint) (and_then o (λ r. note loc x r.1))
  read-NoTwins loc x s (ok (status, tag) s') at_loc h (keeps e) (value same) =
      note-NoTwins loc x tag s' (ap (λ d. get_elem? d.discovered_endpoint loc) e ∙ at_loc) same
        (subst (λ d. IsDistinct d.discovered_endpoint) (sym e) h)
  read-NoTwins loc x s fault at_loc h k v = keeps_fault
  read-NoTwins loc x s hang at_loc h k v = keeps_hang

  run_task-NoTwins :
      (task : Task) (loc : ℕ) (x : Endpoint) (s : State p)
      → get_elem? s.discovered_endpoint loc ≡ some x
      → IsDistinct s.discovered_endpoint
      → Keeps (λ s'. IsDistinct s'.discovered_endpoint) (run_task task loc x s)
  unfolding run_task read_task
  run_task-NoTwins ep_clean loc x s at_loc h =
      let done : Stays NoTwins (clean_endpoint (p.get_uid x.tag) >> pass) =
        search (stays_rules, clean_endpoint-IsQuiet) depth 10 in
      done.at s h
  run_task-NoTwins ep_format loc x s at_loc h =
      let done : Stays NoTwins (format_endpoint (p.get_uid x.tag) >> pass) =
        search (stays_rules, format_endpoint-IsQuiet) depth 10 in
      done.at s h
  run_task-NoTwins ep_write loc x s at_loc h =
      (write_task-NoTwins (p.get_uid x.tag) s.next_task_message_to_write).at s h
  run_task-NoTwins ep_read loc x s at_loc h = elim (Bool-cases x.trig_called) [
    | inl called ↦ rw called (keeps h)
    | inr new ↦ rw new (
        read-NoTwins loc x s (read_endpoint_data x.tag s) at_loc h
          ((read_endpoint_data-IsQuiet x.tag).at s)
          ((read_endpoint_data-SameUid same_uid x.tag).at s))
  ]

  -- the element that a task is run on, and what comes after the task
  work-NoTwins :
      (loc : ℕ) (found : Option Endpoint) (s : State p) (after : M p (Unit {0}))
      → Stays NoTwins after
      → get_elem? s.discovered_endpoint loc ≡ found
      → IsDistinct s.discovered_endpoint
      → Keeps
          (λ s'. IsDistinct s'.discovered_endpoint)
          ((at_elem found >>= λ x. run_task s.next_task loc x >> after) s)
  work-NoTwins loc none s after rest at_loc h = keeps_fault
  work-NoTwins loc (some x) s after rest at_loc h =
      Keeps-and_then (run_task s.next_task loc x s) (λ _. after)
        (λ s'. IsDistinct s'.discovered_endpoint) (run_task-NoTwins s.next_task loc x s at_loc h)
        (λ _ s' h'. rest.at s' h')

  working-NoTwins :
      (i protocol : ℕ) (tag : p.NfcTag) → Stays NoTwins (work_on_tag i protocol (some tag))
  unfolding work_on_tag
  working-NoTwins i protocol tag =
      Stays-bind (remember_endpoint i protocol tag) _ (remembering-NoTwins i protocol tag) (λ loc.
        record {
          at = λ s h.
              work-NoTwins loc (get_elem? s.discovered_endpoint loc) s _ (halt-NoTwins loc) refl h;
        })

  pub NoTwins-IsInvariant : IsInvariant NoTwins
  NoTwins-IsInvariant = record {
    new_state = λ c x live h. h;
    error_state = λ x given. error_state-NoTwins x;
    failing = λ c n l h. h;
    without = λ c i h. erase_at-IsDistinct c.endpoints i h;
    remembering = remembering-NoTwins;
    working = working-NoTwins;
  }
