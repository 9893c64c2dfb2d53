-- ===== src/Lib.antt =====
-- The driver of the PN7160 NFC controller for ESPHome: components/pn7160, components/pn7160_spi
-- and components/pn7160_i2c of the repository.
--
-- The driver is one class, `PN7160`, whose `loop` runs over and over. A round checks the health of
-- the controller (`perform_health_check_`), lets the state machine take a step
-- (`nci_fsm_transition_`) and forgets the tags that were not seen for a while (`purge_old_tags_`).
-- The machine resets and configures the controller, starts the discovery of tags, and then hands
-- every message of the controller to `process_message_`, which keeps the table of endpoints, reads,
-- writes or formats a tag, or answers a reader as an emulated card. All of it talks to the
-- controller through `transceive_`, one write and a few reads.
--
-- The files, each with the code that it models:
--   Platform       the parameters: what the driver calls outside the repository
--   Driver         the members of `PN7160` in pn7160.h, and the monad of its methods
--   Transceive     `transceive_` in pn7160.cpp
--   States         `nci_fsm_set_state_`, `nci_fsm_set_error_state_`
--   Config         `reset_core_`, `init_core_`, `send_*_config_`, `set_discover_map_`,
--                  `set_listen_mode_routing_`, with the tables of pn7160.h
--   Discovery      `start_discovery_`, `deactivate_`, `refresh_core_config_`, `select_endpoint_`
--   Endpoints      `build_tag_`, `find_tag_uid_`, `erase_tag_`, `purge_old_tags_`
--   Classic        pn7160_mifare_classic.cpp
--   Ultralight     pn7160_mifare_ultralight.cpp
--   CardEmulation  `card_emu_t4t_get_response_`, `process_data_message_`
--   Messages       `process_message_` and the handlers of the notifications
--   Fsm            `nci_fsm_transition_`; a function is the code from one label of the `switch` to
--                  its end, with the fall through
--   Health         `setup`, `loop`, `perform_health_check_`, `reset_via_ven_`
--   Modes          the switches, the tasks and `set_test_mode`
--   Settings       the initialisers of the members, and the setters that the generated code calls
--   Transport      `wait_for_irq_`, and components/pn7160_spi and components/pn7160_i2c with their
--                  `read_nfcc` and `write_nfcc`
--   Invariant      what a property of the members must satisfy to be an invariant, and the
--                  properties that do
--   Run            the life of a driver: configuration, `setup`, rounds of the loop, and the calls
--                  of the actions in components/pn7160/automation.h
--   Tests          a simulated platform, runs on it, and the theorems at concrete inputs
-- A child module holds what is proved about its parent, in a file named for the subject. The files
-- named Stays go through every method once, for any property `R` of the members for which an
-- instance of `IsInvariant R` is given; `Run/Stays` puts them together for the states that a driver
-- comes to, and an invariant is then its instance alone.
--
-- How the code is modelled. A method is a function from the state, the members and the board, to an
-- outcome: a value and the state after it, `fault` for a read outside a vector or an array, which
-- C++ leaves undefined, or `hang` for a loop that nothing bounds and that used up its rounds. An
-- `NciMessage` is its byte vector, a text its bytes, a member `foo_` the field `foo`, a pointer to a
-- message an option, a pin whether its pointer is set. Numbers are natural numbers with the
-- wrap-around of their type written out where the code can reach it: the differences of `millis()`
-- are modulo 2^32, `error_count_` and `health_fail_count_` modulo 256. The library `nfc` of ESPHome,
-- the clock, the pins and the virtual calls of the transport are the record `Platform`, which nothing
-- is assumed of except where a theorem says so. A transport is modelled on the same board, with the
-- bus of ESPHome as a parameter (`SpiBus`, `I2cBus`); a theorem on the driver over a transport has
-- the equations of its virtual calls as hypotheses. The laws of the clock, the line and the bus are
-- the records `IsTime`, `IsClock`, `IsTicking`, `IsOffer`, `IsSpiOffer` and `IsI2cOffer`. What is written on
-- the bus is read off a log of the board (`IsLog`); a MIFARE Ultralight tag that keeps to its data
-- sheet is a memory on the board with the law `IsTag`, and a MIFARE Classic card blocks of memory
-- with the law `IsCard`.
--
-- Bounds and fuel. The loops over blocks and pages of a tag move on by 16 or 4 bytes and get one
-- round more than there are bytes. The loop in `read_mifare_ultralight_bytes_` that reads until the
-- answer is long enough has no bound in the code: it gets `Platform.patience` rounds, then the
-- outcome is `hang`. So does the loop of `wait_for_irq_`, where `rounds_in` says how many are enough.
-- The sweep of the table is recursion on its index.
--
-- What is left out. Lines of the log, with the clock reads that only they make; what they read of a
-- vector is kept where it is outside the arguments of a verbose line. Callbacks, triggers and
-- listeners are events for the board, and do not call back into the driver. Not modelled are the
-- Python that generates the configuration, `dump_config`, and the setters of the pins that every
-- board has. The four actions of automation.h that set a mode call methods that no file defines; `Run`
-- calls `clean_mode`, `format_mode`, `read_mode` and `write_mode` in their place.
mod Prelude
pub mod Platform
pub mod Driver
pub mod Transceive
pub mod States
pub mod Config
pub mod Discovery
pub mod Endpoints
pub mod Classic
pub mod Ultralight
pub mod CardEmulation
pub mod Messages
pub mod Fsm
pub mod Health
pub mod Modes
pub mod Settings
pub mod Invariant
pub mod Run
pub mod Transport
mod Tests
