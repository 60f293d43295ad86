-- ===== src/TcpMessages.antt =====
-- The messages that the two halves of a TCP endpoint exchange: util/tcp_sender_message.hh and
-- util/tcp_receiver_message.hh.
use os_stream_socket.Base.{ℕ, ◌+◌, List, [], Bool, true, false, Option, length}
use os_stream_socket.WrappingIntegers.{Wrap32}

pub record TcpSenderMessage : Type 0 where
  pub seqno : Wrap32
  pub syn : Bool
  pub payload : List ℕ
  pub fin : Bool

-- The members' default initializers.
unfoldable pub default_message : TcpSenderMessage
default_message = record {
  seqno = record { raw_value = 0 };
  syn = false;
  payload = [];
  fin = false;
}

-- A flag as the summand that C++ makes of it.
abbrev pub flag_size : Bool → ℕ
flag_size true = 1
flag_size false = 0

-- The size of a payload in memory is far below 2 ^ 64, so the sum does not wrap.
unfoldable pub sequence_length : TcpSenderMessage → ℕ
sequence_length m = flag_size m.syn + length m.payload + flag_size m.fin

pub record TcpReceiverMessage : Type 0 where
  pub ackno : Option Wrap32
  pub window_size : ℕ
