-- ===== src/Tests/Logged.antt =====
-- A tag that does what it is asked to, on a bus whose messages are logged.
use esphome_pn.Classic.Format.{format_mifare_classic_mifare, format_mifare_classic_ndef}
use esphome_pn.Classic.{trailer_buffer, ndef_trailer, block_3_trailer}
use esphome_pn.Classic.Trailers.{OnFormat, formats_write_trailers}
use esphome_pn.Classic.Blocks.{IsTraffic}
use esphome_pn.Driver.{State, rfst_poll_active}
use esphome_pn.Driver.Quiet.{Keeps}
use esphome_pn.Prelude.{
  ℕ, List, ◌∷◌, ◌%◌, ◌/◌, ◌≡◌, suc, ◌*◌, [], ◌==◌, true, if◌then◌else◌, zero, ◌+◌, refl, ◌++◌, ◌⊎◌,
}
use esphome_pn.Platform.{Platform}
use esphome_pn.Tests.Sim.{sim, nth, device}
use esphome_pn.Driver.Sends.{IsLog, Sent}

record Bus : Type 0 where
  log : List (List ℕ)
  last : List ℕ
  reads : ℕ

-- the credits, then an answer with the acknowledgement of the tag
abbrev reply : ℕ → Bus → ℕ × List ℕ × Bus
reply zero e = (0, 0x60 ∷ 6 ∷ 3 ∷ 1 ∷ 0 ∷ 1 ∷ [], record e { reads = 1 })
reply (suc n) e = (0, 0 ∷ 0 ∷ 2 ∷ nth e.last 3 ∷ (if nth e.last 3 == 0x40 then 0 else 0x0A) ∷ [], e)

abbrev logged_sim : Platform
logged_sim = record sim {
  get_mifare_ultralight_buffer_size = λ n. n / 4 * 4 + 4;
  mifare_classic_is_trailer_block = λ n. n % 4 == 3;
  Env = Bus;
  millis = λ e. (10000, e);
  delay = λ ms e. e;
  setup_pin = λ pin e. e;
  digital_write = λ pin level e. e;
  digital_read = λ pin e. (true, e);
  emit = λ event e. e;
  read_nfcc = λ rx timeout e. reply e.reads e;
  write_nfcc = λ tx e. (0, record e { log = e.log ++ tx ∷ []; last = tx; reads = 0 });
}

reply-log : (n : ℕ) (e : Bus) → (reply n e).2.log ≡ e.log
reply-log zero e = refl
reply-log (suc n) e = refl

logged_sim-IsLog : IsLog ⦃p = logged_sim⦄ (λ e. e.log)
logged_sim-IsLog = record { wrote = λ tx e. refl; read = λ rx timeout e. reply-log e.reads e }

abbrev on_tag : State logged_sim
on_tag = record {
  dev = device {p = logged_sim} rfst_poll_active 0 [];
  env = record { log = []; last = []; reads = 0 };
}

formats_write_trailers_example :
    Keeps
      (λ s'.
        Sent ⦃p = logged_sim⦄
          (λ e. e.log)
          (IsTraffic ⦃p = logged_sim⦄ (OnFormat (λ xs. xs ≡ trailer_buffer)))
          on_tag.env
          s'.env)
      (format_mifare_classic_mifare ⦃p = logged_sim⦄ on_tag)
    × Keeps
        (λ s'.
          Sent ⦃p = logged_sim⦄
            (λ e. e.log)
            (IsTraffic ⦃p = logged_sim⦄
              (OnFormat (λ xs. (xs ≡ ndef_trailer) ⊎ (xs ≡ block_3_trailer))))
            on_tag.env
            s'.env)
        (format_mifare_classic_ndef ⦃p = logged_sim⦄ on_tag)
formats_write_trailers_example = formats_write_trailers ⦃p = logged_sim⦄ logged_sim-IsLog on_tag
