-- ===== src/TcpReceiver/Tests.antt =====
-- Runs of the receiver, and its theorems at concrete segments.
use os_stream_socket.Base.{ℕ, ◌+◌, ◌-◌, ◌^◌, ◌≡◌, ◌&&◌, [], ◌∷◌, true, false, arith, some, none}
use os_stream_socket.ByteStream
use os_stream_socket.ByteStream.{ByteStream}
use os_stream_socket.ByteStream.Invariant.{IsValid}
use os_stream_socket.WrappingIntegers.{Wrap32, unwrap}
use os_stream_socket.Reassembler
use os_stream_socket.Reassembler.{Reassembler}
use os_stream_socket.TcpMessages.{TcpSenderMessage, flag_size}
use os_stream_socket.TcpReceiver.{TcpReceiver, send}
use os_stream_socket.TcpReceiver.Send.{ackno-send}

abbrev letters : ℕ → ℕ
letters i = 97 + i

abbrev isn : Wrap32
isn = record { raw_value = 2 ^ 32 - 1 }

abbrev listening : TcpReceiver
listening = record { isn = record { raw_value = 0 }; fin = false; syn = false }

abbrev synced : TcpReceiver
synced = record { isn = isn; fin = false; syn = true }

abbrev four : ByteStream
four = record {
  capacity = 4;
  stream = [];
  bytes_read = 0;
  bytes_write = 0;
  error = false;
  closed = false;
}

four-IsValid : IsValid four
four-IsValid = omega arith

-- The SYN with the first two bytes.
abbrev opening : TcpSenderMessage
opening = record { seqno = isn; syn = true; payload = 97 ∷ 98 ∷ []; fin = false }

ackno-send_example :
    (synced.syn ≡ false → (send synced four).ackno ≡ none)
    × (synced.syn ≡ true
        → (ackno : Wrap32) × ((send synced four).ackno ≡ some ackno)
          × (unwrap ackno isn 7
              ≡ ByteStream.bytes_pushed four + 1 + flag_size (false && ByteStream.is_closed four)))
unfolding ByteStream.bytes_pushed
ackno-send_example =
    ackno-send synced four 7 (omega arith) (omega arith) (omega arith) (omega arith)
