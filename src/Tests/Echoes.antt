-- ===== src/Tests/Echoes.antt =====
-- A session that answers a packet of three bytes, and one that is handed what getPack finds in a
-- stream with two zeros before a head.
use uiconnect.Base.{ℕ, ◌≡◌, refl, true, false, none, some, List, [], ◌∷◌, ◌++◌, arith}
use uiconnect.Base.Outcome.{ok, fault, ◌>>=◌}
use uiconnect.ByteArray.{at, ByteArray}
use uiconnect.ByteArray.Read.{read}
use uiconnect.ByteArray.Moves.{has_read}
use uiconnect.ByteArray.Sound.{IsSound}
use uiconnect.ByteArray.Sound.Read.{pending}
use uiconnect.Packet.{Packet, invalid, create_empty, is_valid, create}
use uiconnect.Buffer.{get_pack}
use uiconnect.Net.Connection.{Connection, on_write}
use uiconnect.Server.Sessions.Messages.{
  TcpSession, ProcessorProxy, set_processor, handle_message, echo,
}
use uiconnect.Server.Sessions.Messages.Echo.{echo-create, echo-get_pack}
use uiconnect.Tests.Packets.{empty, empty-IsSound, three}
use uiconnect.Tests.Connections.{works, three_taken, busy}

abbrev quiet : Connection
quiet = record busy { write_buffer = empty }

abbrev session : TcpSession
session = record { control = record { active_time = 5; processed = 100 }; connection = some quiet }

abbrev unset : ProcessorProxy
unset = record { processor = none }

echo-create_example :
    (b : ByteArray) × (handle_message
        (set_processor (echo true works three_taken) unset)
        9
        (create 1 three)
        session
      ≡ (on_write works three_taken (record quiet { write_buffer = b }) >>= λ c'.
          ok (record {
            control = record { active_time = 9; processed = 117 };
            connection = some c';
          })))
    × IsSound b
    × (pending b ≡ pending empty ++ (create 1 three).pack_data)
echo-create_example =
    echo-create unset true works three_taken 9 1 three session quiet refl empty-IsSound refl
      (omega arith)

abbrev zeros_first : List ℕ
zeros_first = 0 ∷ 0 ∷ 0xFF ∷ 0xFE ∷ 0 ∷ 0 ∷ 0 ∷ 0 ∷ 0 ∷ 0 ∷ 0 ∷ 0 ∷ 5 ∷ 0 ∷ 0 ∷ 0 ∷ []

abbrev stream : ℕ → ByteArray
stream n = record {
  base_size = 16;
  write_pos = 14;
  read_pos = n;
  capacity = 16;
  endian = 2;
  chain = record { cells = zeros_first; live = true } ∷ [];
  write_block = at 0;
  read_block = at 0;
  fill = 0;
}

abbrev found : Packet
found = record {
  head = 0xFEFF;
  length_field = 0;
  cmd = 5;
  data_load_pos = 12;
  data_load_size = 0xFFFFFFFFFFFFFFFC;
  check_sum = 0;
  pack_data = [];
}

found_lem : get_pack (stream 0) (create_empty invalid) ≡ ok (found, stream 2)
unfolding get_pack read has_read create_empty
found_lem = refl

found_valid : is_valid found ≡ true
unfolding is_valid
found_valid = refl

cleared : (create_empty invalid).cmd ≡ invalid
unfolding create_empty
cleared = refl

echo-get_pack_example :
    handle_message (set_processor (echo false works three_taken) unset) 9 found session ≡ fault
echo-get_pack_example =
    echo-get_pack unset false works three_taken 9 (stream 0) (stream 2) (create_empty invalid) found
      session (omega arith) cleared found_lem found_valid
