-- ===== src/Driver.antt =====
-- The state of the driver (components/pn7160/pn7160.h) and the monad in which its members run.
pub mod Quiet
pub mod Core
pub mod Well
pub mod Reads
pub mod Gives
pub mod Ends
pub mod Stays
pub mod Sends
pub mod Reaches
use esphome_pn.Prelude.{
  ℕ, ◌-◌, Bool, Option, none, some, List, get_elem?, take, drop, length, leb, if◌then◌else◌, ◌&&◌,
}
use esphome_pn.Platform.{Platform, Event, Pin}

pub data Sensitivity : Type 0 where
  low medium high : Sensitivity

pub data NciState : Type 0 where
  none_state nfcc_reset nfcc_init nfcc_config nfcc_set_discover_map : NciState
  nfcc_set_listen_mode_routing rfst_idle rfst_discovery rfst_w4_all_discoveries : NciState
  rfst_w4_host_select rfst_poll_active rfst_listen_active rfst_listen_sleep : NciState
  ep_selecting ep_deactivating test failed : NciState

pub data CardEmulationState : Type 0 where
  card_emu_idle card_emu_discovered card_emu_ndef_app_selected : CardEmulationState
  card_emu_cc_selected card_emu_ndef_selected card_emu_t4t_select_ndef_app : CardEmulationState
  card_emu_t4t_select_ndef_file card_emu_t4t_read_size card_emu_t4t_read_data : CardEmulationState

pub data Task : Type 0 where
  ep_read ep_write ep_clean ep_format : Task

pub record DiscoveredEndpoint (Tag : Type 0) : Type 0 where
  pub id : ℕ
  pub protocol : ℕ
  pub last_seen : ℕ
  pub tag : Tag
  pub trig_called : Bool

-- The members of `PN7160` that its methods read. A pin is given by whether its pointer is set.
pub record Device (p : Platform) : Type 0 where
  pub has_dwl_req_pin : Bool
  pub has_wkup_req_pin : Bool
  pub health_check_enabled : Bool
  pub health_check_interval : ℕ
  pub last_health_check : ℕ
  pub health_fail_count : ℕ
  pub max_failed_checks : ℕ
  pub auto_reset_on_failure : Bool
  pub sensitivity : Sensitivity
  pub proprietary_config : List ℕ
  pub last_nci_state_change : ℕ
  pub tag_ttl : ℕ
  pub polling_enabled : Bool
  pub listening_enabled : Bool
  pub selecting_endpoint : Bool
  pub write_mode : Bool
  pub config_refresh_pending : Bool
  pub core_config_is_solo : Bool
  pub next_task : Task
  pub discovered_endpoint : List (DiscoveredEndpoint p.NfcTag)
  pub ce_state : CardEmulationState
  pub nci_state : NciState
  pub nci_state_error : NciState
  pub error_count : ℕ
  pub card_emulation_message : Option p.NdefMessage
  pub next_task_message_to_write : Option p.NdefMessage
  pub triggers_ontag : List ℕ
  pub triggers_ontagremoved : List ℕ
  pub tag_listeners : List ℕ

pub record State (p : Platform) : Type 0 where
  pub dev : Device p
  pub open dev use *
  pub env : p.Env

-- `fault` is a read outside a vector, which C++ leaves undefined; `hang` says that a loop which no
-- counter bounds used up the rounds of `Platform.patience`.
pub data Outcome (p : Platform) (A : Type 0) : Type 0 where
  ok : A → State p → Outcome p A
  fault : Outcome p A
  hang : Outcome p A

abbrev pub M : Platform → Type 0 → Type 0
M p A = State p → Outcome p A

module _ {p : Platform} {A : Type 0} where
  abbrev pub pure : A → M p A
  pure a = λ s. ok a s

module _ {p : Platform} {A B : Type 0} where
  abbrev pub and_then : Outcome p A → (A → M p B) → Outcome p B
  and_then (ok a s) k = k a s
  and_then fault k = fault
  and_then hang k = hang

  infixl 5 ◌>>=◌ ◌>>◌
  abbrev pub ◌>>=◌ : M p A → (A → M p B) → M p B
  m >>= k = λ s. and_then (m s) k

  abbrev pub ◌>>◌ : M p A → M p B → M p B
  m >> k = m >>= λ _. k

-- Reads of a vector: an element, and the iterator range from `i` up to `j`.
module _ {p : Platform} where
  abbrev pub get_dev : M p (Device p)
  get_dev s = ok s.dev s

  abbrev pub put_dev : Device p → M p (Unit {0})
  put_dev d s = ok tt (record s { dev = d })

  abbrev pub pass : M p (Unit {0})
  pass s = ok tt s

  abbrev pub at_elem : {A : Type 0} → Option A → M p A
  at_elem none s = fault
  at_elem (some a) s = ok a s

  abbrev pub element : {A : Type 0} → List A → ℕ → M p A
  element xs i = at_elem (get_elem? xs i)

  abbrev pub range : List ℕ → ℕ → ℕ → M p (List ℕ)
  range xs i j s = if leb i j && leb j (length xs) then ok (take (j - i) (drop i xs)) s else fault

  -- the board
  abbrev pub millis : M p ℕ
  millis s = let (now, e) = p.millis s.env in ok now (record s { env = e })

  abbrev pub delay : ℕ → M p (Unit {0})
  delay ms s = ok tt (record s { env = p.delay ms s.env })

  abbrev pub setup_pin : Pin → M p (Unit {0})
  setup_pin pin s = ok tt (record s { env = p.setup_pin pin s.env })

  abbrev pub digital_write : Pin → Bool → M p (Unit {0})
  digital_write pin level s = ok tt (record s { env = p.digital_write pin level s.env })

  abbrev pub digital_read : Pin → M p Bool
  digital_read pin s = let (level, e) = p.digital_read pin s.env in ok level (record s { env = e })

  abbrev pub emit : Event p.NfcTag → M p (Unit {0})
  emit event s = ok tt (record s { env = p.emit event s.env })

  -- the virtual members: the status, and the message with it
  abbrev pub read_nfcc : List ℕ → ℕ → M p (ℕ × List ℕ)
  read_nfcc rx timeout s =
      let (status, rx', e) = p.read_nfcc rx timeout s.env in ok (status, rx') (record s { env = e })

  abbrev pub write_nfcc : List ℕ → M p ℕ
  write_nfcc tx s = let (status, e) = p.write_nfcc tx s.env in ok status (record s { env = e })
