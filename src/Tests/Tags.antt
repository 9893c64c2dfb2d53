-- ===== src/Tests/Tags.antt =====
-- The table of endpoints, and the messages on a tag.
use esphome_pn.Platform.{Platform}
use esphome_pn.Endpoints.Sweep.{Sweeps, purge_old_tags-Sweeps, IsTime}
use esphome_pn.Classic.Ends.{transfers-Ended}
use esphome_pn.Driver.Ends.{Ended}
use esphome_pn.Ultralight.Encoding.{encode_ultralight_long}
use esphome_pn.Endpoints.Purge.{same_but_endpoints}
use esphome_pn.Ultralight.{encode_ultralight}
use esphome_pn.Tests.Sim.{sim, three_endpoints, start, device, endpoint}
use esphome_pn.Prelude.{
  get_elem?, List, ℕ, ◌≡◌, ◌∷◌, some, replicate, take, [], ◌++◌, refl, ◌≢◌, none, arith,
  if◌then◌else◌, ◌^◌, ◌+◌, ltb, ◌%◌, true, ◌-◌,
}
use esphome_pn.Driver.Quiet.{Returns}
use esphome_pn.Endpoints.{
  find_from, find_tag_uid, uid_matches, purge_old_tags, purge_loop, purge_round, erase_tag,
}
use esphome_pn.Driver.{State, DiscoveredEndpoint, ok, rfst_idle}
use esphome_pn.Classic.Tag.{encode_classic, write_mifare_classic_tag, read_mifare_classic_tag}
use esphome_pn.Endpoints.Find.{Absent, find_tag_uid-some}

abbrev idle : State sim
idle = start rfst_idle []

second_found : find_tag_uid ⦃p = sim⦄ (5 ∷ 6 ∷ 7 ∷ 8 ∷ []) idle ≡ ok (some 1) idle
unfolding find_tag_uid find_from uid_matches
second_found = refl

find_tag_uid-some_example :
    (x : DiscoveredEndpoint (List ℕ)) × (get_elem? three_endpoints 1 ≡ some x)
    × (x.tag ≡ 5 ∷ 6 ∷ 7 ∷ 8 ∷ [])
    × Absent ⦃p = sim⦄ (5 ∷ 6 ∷ 7 ∷ 8 ∷ []) (take 1 three_endpoints)
find_tag_uid-some_example =
    find_tag_uid-some ⦃p = sim⦄ 1 (5 ∷ 6 ∷ 7 ∷ 8 ∷ []) idle idle second_found

not_found : find_from ⦃p = sim⦄ 0 (5 ∷ []) three_endpoints ≡ none
unfolding find_from uid_matches
not_found = refl

-- a board whose clock moves on: by five milliseconds while it is read, and by one with an event
abbrev ticking : Platform
ticking = record sim {
  Env = ℕ;
  millis = λ e. (e % 2 ^ 32, e + 5);
  delay = λ ms e. e + ms;
  setup_pin = λ pin e. e;
  digital_write = λ pin level e. e;
  digital_read = λ pin e. (true, e);
  emit = λ event e. e + 1;
  read_nfcc = λ rx timeout e. (3, rx, e + timeout);
  write_nfcc = λ tx e. (0, e + 1);
}

ticking-IsTime : IsTime ⦃p = ticking⦄ (λ e. e)
ticking-IsTime = record {
  shows = λ e. refl;
  reading = λ e. omega arith;
  emitting = λ event e. omega arith;
}

-- in a call that begins 100 ms after the clock wrapped: the second endpoint was seen then and the two
-- others before
abbrev wrapped : State ticking
wrapped = record {
  dev = device {p = ticking} rfst_idle 0 (
      endpoint (1 ∷ []) (2 ^ 32 - 100) true
      ∷ endpoint (2 ∷ []) 50 true
      ∷ endpoint (3 ∷ []) (2 ^ 32 - 200) true
      ∷ []);
  env = 2 ^ 32 + 100;
}

abbrev seen : DiscoveredEndpoint (List ℕ) → ℕ
seen x = if ltb x.last_seen 100 then 2 ^ 32 + x.last_seen else x.last_seen

third_dropped :
    purge_old_tags ⦃p = ticking⦄ wrapped
    ≡ ok tt (record {
      dev = record wrapped.dev { discovered_endpoint = take 2 wrapped.discovered_endpoint };
      env = 2 ^ 32 + 115;
    })
unfolding purge_old_tags purge_loop purge_round erase_tag
third_dropped = refl

purge_old_tags-Sweeps_example :
    Returns
      (λ s'.
        (xs : List (DiscoveredEndpoint (List ℕ))) × Sweeps ⦃p = ticking⦄ seen
          (2 ^ 32 + 100)
          s'.env
          250
          wrapped.discovered_endpoint
          xs
        × (s'.dev ≡ same_but_endpoints ⦃p = ticking⦄ wrapped.dev xs))
      (purge_old_tags ⦃p = ticking⦄ wrapped)
purge_old_tags-Sweeps_example =
    purge_old_tags-Sweeps ⦃p = ticking⦄ ticking-IsTime seen wrapped (omega arith)
      ((refl, omega arith), ((refl, omega arith), ((refl, omega arith), tt)))

abbrev long_message : List ℕ
long_message = replicate 256 0

encode_ultralight_long_example :
    (encode_ultralight long_message ≡ 0x03 ∷ 0xFF ∷ 0 ∷ 1 ∷ long_message ++ 0xFE ∷ [])
    × (encode_ultralight long_message ≢ encode_classic long_message)
encode_ultralight_long_example =
    encode_ultralight_long long_message (omega arith) (omega arith) (omega arith)

transfers-Ended_example :
    Ended (read_mifare_classic_tag ⦃p = sim⦄ (1 ∷ 2 ∷ 3 ∷ 4 ∷ []) idle)
    × Ended (write_mifare_classic_tag ⦃p = sim⦄ (0xD0 ∷ 0 ∷ 0 ∷ []) idle)
transfers-Ended_example =
    transfers-Ended ⦃p = sim⦄ (1 ∷ 2 ∷ 3 ∷ 4 ∷ []) (0xD0 ∷ 0 ∷ 0 ∷ []) idle (omega arith)
