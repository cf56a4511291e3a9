-- ===== src/Server/Sessions/Messages.antt =====
-- server/library/network/TcpSession.cpp with the processors of reactor/Processor.h and
-- reactor/EchoProcessor.cpp: what a session does with the packets of its connection. A processor
-- takes a packet and the session; m_loop and m_sessionId are not kept, since no processor of the
-- repository reads them.
pub mod Echo
use uiconnect.Base.{ℕ, Bool, true, false, Option, none, some, List, if◌then◌else◌}
use uiconnect.Base.Outcome.{Outcome, ok, fault, ◌>>=◌}
use uiconnect.ByteArray.Iov.{IoVec}
use uiconnect.Packet.{Packet, pack_size, data_load}
use uiconnect.Net.Channel.{Env}
use uiconnect.Net.Socket.{Sent}
use uiconnect.Net.Connection.{Connection}
use uiconnect.Net.Connection
use uiconnect.Server.Sessions.{Control, count_message}

-- m_connection is a pointer that may have been reset.
pub record TcpSession : Type 0 where
  pub control : Control
  pub connection : Option Connection

-- TcpSession::TcpSession
unfoldable pub construct : ℕ → Connection → TcpSession
construct now c = record {
  control = record { active_time = now; processed = 0 };
  connection = some c;
}

-- TcpSession::init
unfoldable pub init : Env → TcpSession → Outcome (Bool × TcpSession)
unfolding Connection.init
init env s = elim s.connection [
  | none ↦ fault
  | some c ↦
      let (done, c') = Connection.init env c in
      if done
      then ok (true, record s { connection = some (record c' { reads = true; closes = true }) })
      else ok (false, record s { connection = none })
]

-- TcpSession::send
unfoldable pub send : Env → (List IoVec → Sent) → Packet → TcpSession → Outcome TcpSession
unfolding Connection.send
send env kernel pack s = elim s.connection [
  | none ↦ fault
  | some c ↦ Connection.send env kernel c pack >>= λ r. ok (record s { connection = some r.1 })
]

-- Processor::handleMsg
abbrev pub Processor : Type 0
Processor = Packet → TcpSession → Outcome TcpSession

-- m_processor of ProcessorProxy, which is null until setProcessor is called
pub record ProcessorProxy : Type 0 where
  pub processor : Option Processor

abbrev pub set_processor : Processor → ProcessorProxy → ProcessorProxy
set_processor processor proxy = record { processor = some processor }

-- ProcessorProxy::handleMsg
unfoldable pub handle_msg : ProcessorProxy → Packet → TcpSession → Outcome TcpSession
handle_msg proxy msg s = elim proxy.processor [ none ↦ fault | some processor ↦ processor msg s ]

-- TcpSession::handleMessage
unfoldable pub handle_message : ProcessorProxy → ℕ → Packet → TcpSession → Outcome TcpSession
unfolding count_message pack_size handle_msg
handle_message proxy now pack s =
    handle_msg proxy pack (record s { control = count_message now (pack_size pack) s.control })

-- EchoProcessor::handleMsg; the logger of "system" takes the load where its level is DEBUG.
unfoldable pub echo : Bool → Env → (List IoVec → Sent) → Processor
unfolding send data_load
echo debug env kernel msg session =
    send env kernel msg session >>= λ s. if debug then (data_load msg >>= λ text. ok s) else ok s
