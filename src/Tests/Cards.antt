-- ===== src/Tests/Cards.antt =====
-- A MIFARE Classic card with blocks, in the field of a controller that answers and on a bus whose
-- messages are logged.
use esphome_pn.Driver.Sends.{IsLog}
use esphome_pn.Classic.Card.Loops.{write_mifare_classic_tag_lem, read_mifare_classic_tag_lem}
use esphome_pn.Classic.Card.RoundTrip.{padding, classic_round_trip}
use esphome_pn.Classic.Tag.{encode_classic, write_mifare_classic_tag, read_mifare_classic_tag}
use esphome_pn.Transceive.Answered.{IsExchange}
use esphome_pn.Classic.Card.{IsCard, scatter, update}
use esphome_pn.Driver.{State, rfst_poll_active, ◌>>=◌, pure}
use esphome_pn.Driver.Reaches.{Reaches}
use esphome_pn.Classic.{sect_to_auth, auth_request}
use esphome_pn.Transceive.{is_credits}
use esphome_pn.Prelude.{
  ℕ, take, List, ◌≡◌, ◌+◌, ◌∷◌, ◌++◌, replicate, if◌then◌else◌, suc, ◌%◌, zero, length, ◌==◌, true,
  [], false, some, ◌/◌, resize, ◌∙◌, drop, arith, ◌*◌, refl,
}
use esphome_pn.Platform.{Platform}
use esphome_pn.Tests.Sim.{sim, nth, device}

-- the card remembers the sector that is open, and the block that a request was about
pub record Field : Type 0 where
  pub blocks : ℕ → List ℕ
  pub sector : ℕ
  pub about : ℕ
  pub log : List (List ℕ)
  pub last : List ℕ
  pub reads : ℕ

-- what the card does on a message: data of a write, an authentication, or a request
abbrev obey : List ℕ → Field → Field
obey tx e =
    if nth tx 2 == 1
    then record e { blocks = update e.blocks e.about (drop 4 tx) }
    else if nth tx 3 == 0x40
    then record e { sector = nth tx 4 }
    else record e { about = nth tx 5 }

abbrev answer : Field → List ℕ
answer e =
    if nth e.last 2 == 1
    then 0 ∷ 0 ∷ 2 ∷ 0x10 ∷ 0x0A ∷ []
    else if nth e.last 3 == 0x40
    then 0 ∷ 0 ∷ 2 ∷ 0x40 ∷ 0 ∷ []
    else 0 ∷ 0 ∷ 18 ∷ 0x10 ∷ (e.blocks e.about ++ 0 ∷ [])

abbrev granted_credits : List ℕ
granted_credits = 0x60 ∷ 6 ∷ 3 ∷ 1 ∷ 0 ∷ 1 ∷ []

abbrev reply : ℕ → Field → ℕ × List ℕ × Field
reply zero e = (0, granted_credits, record e { reads = 1 })
reply (suc n) e = (0, answer e, e)

-- the board after a message was written, and after the credits were read
abbrev told : List ℕ → ℕ → Field → Field
told tx n e = record (obey tx e) { log = e.log ++ tx ∷ []; last = tx; reads = n }

abbrev pub card_sim : Platform
card_sim = record sim {
  set_payload = λ message payload. take 2 message ++ (length payload ∷ payload);
  message_length_is = λ rx n. nth rx 2 == n;
  get_mifare_classic_buffer_size = λ n. (n + 18) / 16 * 16;
  decode_mifare_classic_tlv = λ bytes. some (nth bytes 1, 2);
  set_ndef_message = λ message tag. message;
  Env = Field;
  millis = λ e. (10000, e);
  delay = λ ms e. e;
  setup_pin = λ pin e. e;
  digital_write = λ pin level e. e;
  digital_read = λ pin e. (true, e);
  emit = λ event e. e;
  read_nfcc = λ rx timeout e. reply e.reads e;
  write_nfcc = λ tx e. (0, told tx 0 e);
}

told-IsExchange :
    (tx : List ℕ) (e : Field)
    → card_sim.message_type_is tx 0 ≡ true
    → IsExchange ⦃p = card_sim⦄ tx (answer (told tx 1 e)) e (told tx 1 e)
unfolding is_credits
told-IsExchange tx e is_data = record {
  credits = granted_credits;
  begun = told tx 0 e;
  middle = told tx 1 e;
  is_data = is_data;
  are_credits = refl;
  wrote = refl;
  credited = λ rx timeout. refl;
  came = λ rx timeout. refl;
}

abbrev OpenOn : Field → ℕ → Type 0
OpenOn e block = e.sector ≡ sect_to_auth ⦃p = card_sim⦄ block

-- a sector goes on where no first block of one comes
sect_to_auth-suc :
    (block : ℕ)
    → ((block + 1) % 4 == 0) ≡ false
    → sect_to_auth ⦃p = card_sim⦄ block ≡ sect_to_auth ⦃p = card_sim⦄ (block + 1)
unfolding sect_to_auth
sect_to_auth-suc block h = ground arith

behind :
    (block : ℕ)
    → (block % 4 == 3) ≡ true
    → (((block + 1) % 4 == 0) ≡ true) × (((block + 1) % 4 == 3) ≡ false)
behind block h = ground arith

card_sim-IsCard : IsCard ⦃p = card_sim⦄ (λ e. e.blocks) OpenOn
unfolding auth_request
card_sim-IsCard = record {
  block_size = refl;
  authenticating = λ block e. record {
    message = 0 ∷ 0 ∷ 2 ∷ 0x40 ∷ 0 ∷ [];
    board = told (auth_request ⦃p = card_sim⦄ block 0x60 (some card_sim.ndef_key)) 1 e;
    exchange =
        told-IsExchange (auth_request ⦃p = card_sim⦄ block 0x60 (some card_sim.ndef_key)) e refl;
    is_answer = refl;
    granted = refl;
    same = refl;
    opens = refl;
  };
  reading = λ block e o. record {
    header = 0 ∷ 0 ∷ 18 ∷ 0x10 ∷ [];
    status = 0;
    board = told (0 ∷ 0 ∷ 3 ∷ 0x10 ∷ 0x30 ∷ block ∷ []) 1 e;
    sized = refl;
    exchange = told-IsExchange (0 ∷ 0 ∷ 3 ∷ 0x10 ∷ 0x30 ∷ block ∷ []) e refl;
    is_answer = refl;
    full = refl;
    same = refl;
    stays = o;
  };
  writing = λ block block_data e o off size. record {
    accepted = 0 ∷ 0 ∷ 18 ∷ 0x10 ∷ (e.blocks block ++ 0 ∷ []);
    between = told (0 ∷ 0 ∷ 3 ∷ 0x10 ∷ 0xA0 ∷ block ∷ []) 1 e;
    request = told-IsExchange (0 ∷ 0 ∷ 3 ∷ 0x10 ∷ 0xA0 ∷ block ∷ []) e refl;
    message = 0 ∷ 0 ∷ 2 ∷ 0x10 ∷ 0x0A ∷ [];
    board =
        told (0 ∷ 0 ∷ 1 ∷ 0x10 ∷ block_data) 1 (told (0 ∷ 0 ∷ 3 ∷ 0x10 ∷ 0xA0 ∷ block ∷ []) 1 e);
    exchange =
        told-IsExchange (0 ∷ 0 ∷ 1 ∷ 0x10 ∷ block_data)
          (told (0 ∷ 0 ∷ 3 ∷ 0x10 ∷ 0xA0 ∷ block ∷ []) 1 e) refl;
    is_answer = refl;
    acknowledged = refl;
    changed = refl;
    stays = o;
  };
  same_sector = λ block e o inside. o ∙ sect_to_auth-suc block inside;
  behind_trailer = behind;
  begins = (refl, refl);
}

-- before any authentication
abbrev pub put_down : State card_sim
put_down = record {
  dev = device {p = card_sim} rfst_poll_active 0 [];
  env = record {
    blocks = λ block. replicate 16 block;
    sector = 0;
    about = 0;
    log = [];
    last = [];
    reads = 0;
  };
}

abbrev pub four_blocks : List ℕ
four_blocks = replicate 60 5

announced :
    card_sim.decode_mifare_classic_tlv (take 16 (resize (encode_classic four_blocks) 64))
    ≡ some (60, 2)
unfolding encode_classic
announced = refl

-- the blocks 4, 5, 6 and 8
classic_round_trip_example :
    Reaches {p = card_sim} {A = ℕ × ℕ × List ℕ}
      (λ e.
        e.blocks
        ≡ scatter ⦃p = card_sim⦄ 4 4 (resize (encode_classic four_blocks) 64) put_down.env.blocks)
      (0, 0, four_blocks ++ padding four_blocks 64)
      put_down
      ((do
        written ← write_mifare_classic_tag ⦃p = card_sim⦄ four_blocks
        (status, t') ← read_mifare_classic_tag ⦃p = card_sim⦄ []
        pure (written, status, t'))
        put_down)
classic_round_trip_example =
    classic_round_trip ⦃p = card_sim⦄ card_sim-IsCard four_blocks [] 4 put_down (omega arith) refl
      (omega arith) (omega arith) announced

write_mifare_classic_tag_lem_example :
    Reaches {p = card_sim}
      (λ e.
        e.blocks
        ≡ scatter ⦃p = card_sim⦄ 2 4
            (resize (encode_classic (1 ∷ 2 ∷ replicate 14 3)) 32)
            put_down.env.blocks)
      0
      put_down
      (write_mifare_classic_tag ⦃p = card_sim⦄ (1 ∷ 2 ∷ replicate 14 3) put_down)
write_mifare_classic_tag_lem_example =
    write_mifare_classic_tag_lem ⦃p = card_sim⦄ card_sim-IsCard (1 ∷ 2 ∷ replicate 14 3) 2 put_down
      refl (omega arith)

-- block 4 announces four bytes
read_mifare_classic_tag_lem_example :
    Reaches {p = card_sim} {A = ℕ × List ℕ}
      (λ e. e.blocks ≡ put_down.env.blocks)
      (0, replicate 14 4)
      put_down
      (read_mifare_classic_tag ⦃p = card_sim⦄ [] put_down)
read_mifare_classic_tag_lem_example =
    read_mifare_classic_tag_lem ⦃p = card_sim⦄ card_sim-IsCard [] 4 2 1 put_down refl refl
      (omega arith) (omega arith)

reply-log : (n : ℕ) (e : Field) → (reply n e).2.log ≡ e.log
reply-log zero e = refl
reply-log (suc n) e = refl

pub card_sim-IsLog : IsLog ⦃p = card_sim⦄ (λ e. e.log)
card_sim-IsLog = record { wrote = λ tx e. refl; read = λ rx timeout e. reply-log e.reads e }
