-- ===== src/Tests/HttpConnections.antt =====
-- An HTTP connection that has two requests of a toy protocol to read, and one that has another text.
use uiconnect.Base.{
  ℕ, ◌-◌, ◌≡◌, refl, ◌≢◌, ◌⊎◌, inl, true, false, none, some, List, [], ◌∷◌, ◌++◌, replicate, length,
  leb, arith,
}
use uiconnect.Base.Text.{codes}
use uiconnect.Base.Outcome.{ok}
use uiconnect.ByteArray.{at, ByteArray}
use uiconnect.ByteArray.Iov.{IoVec}
use uiconnect.ByteArray.Read.{read_next}
use uiconnect.ByteArray.Sound.{IsSound}
use uiconnect.Buffer.{find, find_from, is_prefix}
use uiconnect.Net.Channel.{Env}
use uiconnect.Net.Socket.{Sent, took}
use uiconnect.Net.Connection.{connected}
use uiconnect.Http.Names.{to_method, method_from}
use uiconnect.Http.Request.{HttpRequest}
use uiconnect.Http.Parser.{RequestEvent, request_method, http_version, RequestRun, ResponseRun}
use uiconnect.Http.Connection.{HttpConnection, read_loop, is_response}
use uiconnect.Http.Connection.Ahead.{IsAhead, first_word}
use uiconnect.Http.Connection.Ends.{IsWrong, read_loop-IsWrong, read_loop_lem}
use uiconnect.Http.Connection.Pipeline.{
  request_of, Pipeline, ends, next, Delivered, read_loop-Pipeline,
}

abbrev events : List RequestEvent
events = request_method (codes "PUT /a") 3 ∷ http_version (codes "HTTP/2.0") 8 ∷ []

abbrev pub buffer : List ℕ → ByteArray
buffer text = record {
  base_size = 16;
  write_pos = length text;
  read_pos = 0;
  capacity = 16;
  endian = 2;
  chain = record { cells = text ++ replicate (16 - length text) 0; live = true } ∷ [];
  write_block = at 0;
  read_block = at 0;
  fill = 0;
}

abbrev two : ByteArray
two = buffer (codes "GET a GET b ")

two-IsSound : IsSound two
two-IsSound = record {
  base_pos = omega arith;
  blocks = (refl, refl, tt);
  sized = refl;
  read_le = omega arith;
  write_le = omega arith;
  write_behind = omega arith;
  read_behind = omega arith;
}

two-IsAhead : IsAhead two
two-IsAhead = (two-IsSound, refl, omega arith)

abbrev pub works : Env
works = record { loop_alive = true; owned = true; in_thread = true; kernel = true }

abbrev pub connection : ByteArray → HttpConnection
connection buf = record {
  tcp = record {
    state = connected;
    read_buffer = buf;
    write_buffer = buffer [];
    fd = 9;
    nonblock = true;
    channel = record {
      handle = record { id = 1; fd = 9 };
      target_event = 0;
      active_event = 0;
      epoll = record { valid = true; events = 20; channels = [] };
    };
    reads = true;
    writes = true;
    errors = true;
    closes = true;
    calls = [];
  };
  reads = true;
  incomplete = 0;
  requests = [];
  close_tasks = 0;
}

-- a request is six characters
abbrev toy_request : List ℕ → RequestRun
toy_request text = record {
  events = [];
  offset = 6;
  finished = leb 6 (length text);
  failed = false;
}

abbrev toy_response : List ℕ → ResponseRun
toy_response text = record { events = []; offset = 0; finished = false; failed = false }

abbrev no_number : List ℕ → ℕ
no_number text = 0

abbrev pub none_taken : List IoVec → Sent
none_taken iovs = took 0

abbrev requests : List HttpRequest
requests =
    request_of toy_request toy_response no_number (codes "GET a GET b ")
    ∷ request_of toy_request toy_response no_number (codes "GET b ")
    ∷ []

two-Pipeline : Pipeline toy_request toy_response no_number (codes "GET a GET b ") requests []
unfolding first_word find_from is_prefix to_method method_from
two-Pipeline =
    next _ _ _ (3, codes "GET", refl, refl) refl (omega arith) (omega arith)
      (next _ _ _ (3, codes "GET", refl, refl) refl (omega arith) (omega arith)
        (ends [] (inl refl)))

read_loop-Pipeline_example :
    (out : HttpConnection) × (read_loop toy_request toy_response no_number works none_taken 13
        (connection two)
      ≡ ok (some out))
    × Delivered toy_request toy_response no_number works none_taken (connection two) out requests []
read_loop-Pipeline_example =
    read_loop-Pipeline toy_request toy_response no_number works none_taken (connection two) requests
      [] two-IsAhead refl two-Pipeline

abbrev other : ByteArray
other = buffer (codes "HELO you")

other-IsWrong : IsWrong other
unfolding find find_from is_prefix to_method method_from is_response read_next
other-IsWrong = (4, codes "HELO", refl, refl, refl, refl)

read_loop-IsWrong_example :
    read_loop toy_request toy_response no_number works none_taken 100 (connection other) ≡ ok none
read_loop-IsWrong_example =
    read_loop-IsWrong toy_request toy_response no_number works none_taken (connection other) 100
      refl other-IsWrong

read_loop_lem_example :
    (read_loop toy_request toy_response no_number works none_taken 9 (connection other) ≢ ok none)
    ⊎ ((fuel : ℕ)
        → read_loop toy_request toy_response no_number works none_taken fuel (connection other)
          ≡ ok none)
read_loop_lem_example =
    read_loop_lem toy_request toy_response no_number works none_taken (connection other) 9 refl
      (omega arith)
