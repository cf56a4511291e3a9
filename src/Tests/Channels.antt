-- ===== src/Tests/Channels.antt =====
-- A channel that is registered with the events of a reader.
use uiconnect.Base.{◌≡◌, refl, true, none, [], ◌∷◌}
use uiconnect.Net.Epoll.{Handle, lookup}
use uiconnect.Net.Channel.{
  Env, Channel, wants, read_event, write_event, disable, enable_reading, enable_writing,
}
use uiconnect.Net.Channel.Registered.{IsRegistered, Tracks, enable-Registered, disable-enable}

abbrev socket : Handle
socket = record { id = 1; fd = 9 }

abbrev reader : Channel
reader = record {
  handle = socket;
  target_event = 0x011;
  active_event = 0;
  epoll = record { valid = true; events = 20; channels = (9, socket) ∷ [] };
}

abbrev works : Env
works = record { loop_alive = true; owned = true; in_thread = true; kernel = true }

tracks : Tracks reader
unfolding lookup
tracks h = refl

enable-Registered_example :
    ((enable_reading works reader).0 ≡ true → IsRegistered (enable_reading works reader).1)
    × ((enable_writing works reader).0 ≡ true → IsRegistered (enable_writing works reader).1)
enable-Registered_example = enable-Registered works reader tracks

disabled : (disable works reader).0 ≡ true
unfolding disable
disabled = refl

disable-enable_example :
    let c' = (disable works reader).1 in
    (lookup 9 c'.epoll.channels ≡ none)
    × (c'.target_event ≡ 0x011)
    × (wants reader read_event ≡ true → enable_reading works c' ≡ (true, c'))
    × (wants reader write_event ≡ true → enable_writing works c' ≡ (true, c'))
disable-enable_example = disable-enable works works reader disabled
