-- ===== src/Tests/Memory.antt =====
-- A MIFARE Ultralight tag with a memory, in the field of a controller that answers and on a bus
-- whose messages are logged.
use esphome_pn.Driver.Sends.{IsLog}
use esphome_pn.Ultralight.Memory.Block.{IsBlock}
use esphome_pn.Ultralight.Memory.RoundTrip.{ultralight_round_trip}
use esphome_pn.Ultralight.Memory.Reading.{read_mifare_ultralight_bytes_lem}
use esphome_pn.Ultralight.{
  read_mifare_ultralight_tag, encode_ultralight, read_mifare_ultralight_bytes,
  write_mifare_ultralight_tag,
}
use esphome_pn.Transceive.{is_credits}
use esphome_pn.Driver.{State, rfst_poll_active, ◌>>=◌, pure}
use esphome_pn.Ultralight.Memory.Tag.{read_mifare_ultralight_tag_lem}
use esphome_pn.Ultralight.Memory.{IsTag, sixteen, Leaves}
use esphome_pn.Prelude.{
  List, ◌+◌, ℕ, if◌then◌else◌, ◌/◌, arith, ◌∷◌, ◌*◌, ◌==◌, [], put, true, suc, refl, drop, ◌++◌,
  zero, replicate, take, length, resize, ◌≡◌,
}
use esphome_pn.Platform.{Platform}
use esphome_pn.Tests.Sim.{sim, nth, device}

pub record Field : Type 0 where
  pub held : List ℕ
  pub log : List (List ℕ)
  pub last : List ℕ
  pub reads : ℕ

-- what the tag does on a command: a write puts a page
abbrev obey : List ℕ → List ℕ → List ℕ
obey tx bytes = if nth tx 3 == 0xA2 then put bytes (nth tx 4 * 4) (drop 5 tx) else bytes

-- the credits, then the answer of the tag
abbrev reply : ℕ → Field → ℕ × List ℕ × Field
reply zero e = (0, 0x60 ∷ 6 ∷ 3 ∷ 1 ∷ 0 ∷ 1 ∷ [], record e { reads = 1 })
reply (suc n) e = (0, 0 ∷ 0 ∷ 17 ∷ (sixteen e.held (nth e.last 4) ++ 0 ∷ []), e)

-- the board after a message was written, and after the credits were read
abbrev told : List ℕ → ℕ → Field → Field
told tx n e = record { held = obey tx e.held; log = e.log ++ tx ∷ []; last = tx; reads = n }

abbrev pub field_sim : Platform
field_sim = record sim {
  set_ndef_message = λ message tag. message;
  get_mifare_ultralight_buffer_size = λ n. (n + 6) / 4 * 4;
  Env = Field;
  millis = λ e. (10000, e);
  delay = λ ms e. e;
  setup_pin = λ pin e. e;
  digital_write = λ pin level e. e;
  digital_read = λ pin e. (true, e);
  emit = λ event e. e;
  read_nfcc = λ rx timeout e. reply e.reads e;
  write_nfcc = λ tx e. (0, told tx 0 e);
}

field_sim-IsTag : IsTag ⦃p = field_sim⦄ (λ e. e.held)
unfolding is_credits
field_sim-IsTag = record {
  page_size = refl;
  read_size = refl;
  data_start = refl;
  patient = omega arith;
  reading = λ page last e l. record {
    header = 0 ∷ 0 ∷ 17 ∷ [];
    status = 0;
    board = told (0 ∷ 0 ∷ 2 ∷ 0x30 ∷ last ∷ []) 1 e;
    sized = refl;
    full = refl;
    exchange = record {
      credits = 0x60 ∷ 6 ∷ 3 ∷ 1 ∷ 0 ∷ 1 ∷ [];
      begun = told (0 ∷ 0 ∷ 2 ∷ 0x30 ∷ last ∷ []) 0 e;
      middle = told (0 ∷ 0 ∷ 2 ∷ 0x30 ∷ last ∷ []) 1 e;
      is_data = refl;
      are_credits = refl;
      wrote = refl;
      credited = λ rx timeout. refl;
      came = λ rx timeout. refl;
    };
    same = refl;
  };
  writing = λ page page_data e low four l. record {
    message = 0 ∷ 0 ∷ 17 ∷ (sixteen (put e.held (page * 4) page_data) page ++ 0 ∷ []);
    board = told (0 ∷ 0 ∷ suc (suc (length page_data)) ∷ 0xA2 ∷ page ∷ page_data) 1 e;
    exchange = record {
      credits = 0x60 ∷ 6 ∷ 3 ∷ 1 ∷ 0 ∷ 1 ∷ [];
      begun = told (0 ∷ 0 ∷ suc (suc (length page_data)) ∷ 0xA2 ∷ page ∷ page_data) 0 e;
      middle = told (0 ∷ 0 ∷ suc (suc (length page_data)) ∷ 0xA2 ∷ page ∷ page_data) 1 e;
      is_data = refl;
      are_credits = refl;
      wrote = refl;
      credited = λ rx timeout. refl;
      came = λ rx timeout. refl;
    };
    changed = refl;
  };
}

-- twelve pages, of which the fourth says that 144 bytes may be used
abbrev pub blank : List ℕ
blank = replicate 12 7 ++ (0xE1 ∷ 0x10 ∷ 0x12 ∷ 0 ∷ replicate 32 0)

abbrev pub holding : List ℕ → State field_sim
holding bytes = record {
  dev = device {p = field_sim} rfst_poll_active 0 [];
  env = record { held = bytes; log = []; last = []; reads = 0 };
}

abbrev pub ten_bytes : List ℕ
ten_bytes = 0xD1 ∷ 1 ∷ 6 ∷ 0x55 ∷ 4 ∷ 1 ∷ 2 ∷ 3 ∷ 4 ∷ 5 ∷ []

ultralight_round_trip_example :
    Leaves ⦃p = field_sim⦄ {A = ℕ × ℕ × List ℕ}
      (λ e. e.held)
      (put blank 16 (resize (encode_ultralight ten_bytes) 16))
      (0, 0, ten_bytes)
      (holding blank)
      ((do
        written ← write_mifare_ultralight_tag ⦃p = field_sim⦄ ten_bytes
        (status, t') ← read_mifare_ultralight_tag ⦃p = field_sim⦄ []
        pure (written, status, t'))
        (holding blank))
ultralight_round_trip_example =
    ultralight_round_trip ⦃p = field_sim⦄ field_sim-IsTag ten_bytes [] 4 0x12 (holding blank)
      (omega arith) (omega arith) refl (omega arith) (omega arith) (omega arith) refl (omega arith)

-- a message of three bytes, its end, and what stood there before
abbrev counted : List ℕ
counted = 0xD0 ∷ 0 ∷ 0 ∷ 0xFE ∷ 5 ∷ 6 ∷ 7 ∷ 8 ∷ 9 ∷ 10 ∷ []

abbrev written_tag : List ℕ
written_tag = replicate 16 7 ++ (3 ∷ 3 ∷ counted)

read_mifare_ultralight_bytes_lem_example :
    Leaves ⦃p = field_sim⦄ {A = ℕ × List ℕ}
      (λ e. e.held)
      written_tag
      (0, take 20 (drop 8 written_tag))
      (holding written_tag)
      (read_mifare_ultralight_bytes ⦃p = field_sim⦄ 2 20 [] (holding written_tag))
read_mifare_ultralight_bytes_lem_example =
    read_mifare_ultralight_bytes_lem ⦃p = field_sim⦄ field_sim-IsTag 2 20 [] written_tag
      (holding written_tag) refl (omega arith) (omega arith) (omega arith)

written_tag-IsBlock : IsBlock 3 counted written_tag
written_tag-IsBlock = record {
  some_bytes = omega arith;
  short = omega arith;
  size = refl;
  room = omega arith;
  block = refl;
}

read_mifare_ultralight_tag_lem_example :
    Leaves ⦃p = field_sim⦄ {A = ℕ × List ℕ}
      (λ e. e.held)
      written_tag
      (0, counted)
      (holding written_tag)
      (read_mifare_ultralight_tag ⦃p = field_sim⦄ [] (holding written_tag))
read_mifare_ultralight_tag_lem_example =
    read_mifare_ultralight_tag_lem ⦃p = field_sim⦄ field_sim-IsTag [] 3 counted written_tag
      (holding written_tag) refl written_tag-IsBlock (omega arith)

reply-log : (n : ℕ) (e : Field) → (reply n e).2.log ≡ e.log
reply-log zero e = refl
reply-log (suc n) e = refl

pub field_sim-IsLog : IsLog ⦃p = field_sim⦄ (λ e. e.log)
field_sim-IsLog = record { wrote = λ tx e. refl; read = λ rx timeout e. reply-log e.reads e }
