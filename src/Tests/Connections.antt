-- ===== src/Tests/Connections.antt =====
-- A connected connection with four unread bytes to write.
use uiconnect.Base.{ℕ, suc, ◌≤◌, ◌≡◌, refl, ◌≢◌, ◌⊎◌, true, List, [], ◌∷◌, drop, arith}
use uiconnect.Base.Outcome.{ok}
use uiconnect.ByteArray.{at, ByteArray}
use uiconnect.ByteArray.Iov.{IoVec, get_read_buffers}
use uiconnect.ByteArray.Sound.{IsSound}
use uiconnect.ByteArray.Sound.Read.{pending}
use uiconnect.Net.Channel.{Env, Channel}
use uiconnect.Net.Socket.{Sent, took, retry, broken, within}
use uiconnect.Net.Connection.{Connection, connected, disconnected, on_close, on_error, on_write}
use uiconnect.Net.Connection.Lifecycle.Calls.{no_close, settled}
use uiconnect.Net.Connection.Lifecycle.{fails, closes_it, next, here, steps_lem}
use uiconnect.Net.Connection.Closing.{GoesOn, on_write_lem}

abbrev four : ByteArray
four = record {
  base_size = 4;
  write_pos = 4;
  read_pos = 0;
  capacity = 4;
  endian = 2;
  chain = record { cells = 1 ∷ 2 ∷ 3 ∷ 4 ∷ []; live = true } ∷ [];
  write_block = at 0;
  read_block = at 0;
  fill = 0;
}

four-IsSound : IsSound four
four-IsSound = record {
  base_pos = omega arith;
  blocks = (refl, refl, tt);
  sized = refl;
  read_le = omega arith;
  write_le = omega arith;
  write_behind = omega arith;
  read_behind = omega arith;
}

abbrev channel : Channel
channel = record {
  handle = record { id = 1; fd = 9 };
  target_event = 0;
  active_event = 0;
  epoll = record { valid = true; events = 20; channels = [] };
}

abbrev pub works : Env
works = record { loop_alive = true; owned = true; in_thread = true; kernel = true }

abbrev pub busy : Connection
busy = record {
  state = connected;
  read_buffer = four;
  write_buffer = four;
  fd = 9;
  nonblock = true;
  channel = channel;
  reads = true;
  writes = true;
  errors = true;
  closes = true;
  calls = [];
}

busy_live : busy.state ≢ disconnected
busy_live e = cc

abbrev pieces : List IoVec
pieces = record { block = 0; offset = 0; len = 4 } ∷ []

iovs_of_four : get_read_buffers four 4 ≡ ok (4, pieces)
unfolding get_read_buffers
iovs_of_four = refl

all_inside : within four.chain pieces ≡ true
unfolding within
all_inside = refl

-- sendmsg takes three bytes of whatever it is given
abbrev pub three_taken : List IoVec → Sent
three_taken iovs = took 3

on_write_lem_example :
    ((took 3 ≡ took 0) ⊎ ((took 3 ≡ broken) ⊎ (took 3 ≡ retry))
      → on_write works three_taken busy ≡ ok (on_close works busy))
    × ((n : ℕ)
        → took 3 ≡ took (suc n)
        → suc n ≤ 4
        → (b : ByteArray) × GoesOn works three_taken busy n b
          × IsSound b
          × (pending b ≡ drop (suc n) (1 ∷ 2 ∷ 3 ∷ 4 ∷ [])))
on_write_lem_example =
    on_write_lem works three_taken busy 4 pieces refl refl four-IsSound iovs_of_four all_inside

steps_lem_example :
    ((on_close works (on_error works busy)).state ≢ disconnected
      → no_close (on_close works (on_error works busy)).calls ≡ true)
    × ((on_close works (on_error works busy)).state ≡ disconnected
        → ((on_close works (on_error works busy)).fd ≡ 0)
          × (settled (on_close works (on_error works busy)).calls ≡ true))
steps_lem_example =
    steps_lem busy (on_close works (on_error works busy)) refl busy_live refl
      (next (fails works) (next (closes_it works) here))
