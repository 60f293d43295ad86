-- ===== src/StreamCopy/Rounds.antt =====
-- The four rules in the event loop, over any turns.
use os_stream_socket.Base.{
  ℕ, ◌≡◌, sym, ap, ◌∙◌, ◌<◌, List, ◌++◌, append_assoc, Bool, ok, OnReturn, bind-OnReturn,
  if-OnReturn, OnReturn-true,
}
use os_stream_socket.ByteStream.{ByteStream}
use os_stream_socket.ByteStream
use os_stream_socket.ByteStream.Invariant.{new-IsValid, close-IsValid}
use os_stream_socket.FileDescriptor.{close}
use os_stream_socket.StreamCopy.{
  StreamCopy, Answers, pull, pour, from_input, shutdown_if, shutdown_write, to_socket, from_socket,
  close_if, to_output, close_outbound, close_inbound,
}
use os_stream_socket.StreamCopy.Conserve.{IsDelivery, Pulled, Poured, pull-Pulled, pour-Poured}

-- What has come in is what has gone out and then what is in the stream, in both directions.
pub record Copied (c : StreamCopy) : Type 0 where
  pub outbound : ByteStream.Invariant.IsValid c.outbound
  pub inbound : ByteStream.Invariant.IsValid c.inbound
  pub out : c.sent ++ c.outbound.stream ≡ c.typed
  pub back : c.printed ++ c.inbound.stream ≡ c.received

abbrev pub IsAnswering : Answers → Type 0
IsAnswering a = IsDelivery a.read_input × IsDelivery a.read_socket

abbrev pub P : StreamCopy → Type 0
P c = Copied c × IsAnswering c.answers

-- The rules that read have room.
abbrev pub R : ℕ → StreamCopy → Type 0
R k c =
    (k ≡ 0 → 0 < ByteStream.available_capacity c.outbound)
    × (k ≡ 2 → 0 < ByteStream.available_capacity c.inbound)

abbrev pub Q : ℕ → StreamCopy → Type 0
Q k c = P c

pub close_outbound-P : (c : StreamCopy) → P c → P (close_outbound c)
unfolding close_outbound ByteStream.close
close_outbound-P c (h, a) = (
  record {
    outbound = close-IsValid c.outbound h.outbound;
    inbound = h.inbound;
    out = h.out;
    back = h.back;
  },
  a,
)

pub close_inbound-P : (c : StreamCopy) → P c → P (close_inbound c)
unfolding close_inbound ByteStream.close
close_inbound-P c (h, a) = (
  record {
    outbound = h.outbound;
    inbound = close-IsValid c.inbound h.inbound;
    out = h.out;
    back = h.back;
  },
  a,
)

-- A stream that bytes have come to, or gone from, still has what it had.
into :
    (sent xs bytes typed ys : List ℕ)
    → sent ++ xs ≡ typed
    → ys ≡ xs ++ bytes
    → sent ++ ys ≡ typed ++ bytes
into sent xs bytes typed ys h e =
    ap (λ l. sent ++ l) e ∙ sym (append_assoc sent xs bytes) ∙ ap (λ l. l ++ bytes) h

out_of :
    (sent xs bytes typed ys : List ℕ)
    → sent ++ xs ≡ typed
    → bytes ++ ys ≡ xs
    → (sent ++ bytes) ++ ys ≡ typed
out_of sent xs bytes typed ys h e = append_assoc sent bytes ys ∙ ap (λ l. sent ++ l) e ∙ h

pub from_input-P :
    (c : StreamCopy)
    → P c
    → 0 < ByteStream.available_capacity c.outbound
    → OnReturn P (from_input c)
unfolding from_input
from_input-P c (h, a) room =
    bind-OnReturn (Pulled c.outbound) P (pull c.answers.read_input c.input c.outbound) _
      (pull-Pulled c.answers.read_input c.input c.outbound h.outbound room a.0)
      (λ (bytes, fd, s) (v, e). (
        record {
          outbound = v;
          inbound = h.inbound;
          out = into c.sent c.outbound.stream bytes c.typed s.stream h.out e;
          back = h.back;
        },
        a,
      ))

pub from_socket-P :
    (c : StreamCopy)
    → P c
    → 0 < ByteStream.available_capacity c.inbound
    → OnReturn P (from_socket c)
unfolding from_socket
from_socket-P c (h, a) room =
    bind-OnReturn (Pulled c.inbound) P (pull c.answers.read_socket c.socket c.inbound) _
      (pull-Pulled c.answers.read_socket c.socket c.inbound h.inbound room a.1)
      (λ (bytes, fd, s) (v, e). (
        record {
          outbound = h.outbound;
          inbound = v;
          out = h.out;
          back = into c.printed c.inbound.stream bytes c.received s.stream h.back e;
        },
        a,
      ))

shutdown_if-P : (b : Bool) (c : StreamCopy) → P c → OnReturn P (shutdown_if b c)
unfolding shutdown_if
shutdown_if-P b c (h, a) =
    if-OnReturn P b _ (ok c)
      (λ _.
        bind-OnReturn (λ _. Unit {0}) P (shutdown_write c.answers.shutdown_socket c.socket) _
          (OnReturn-true (shutdown_write c.answers.shutdown_socket c.socket))
          (λ fd _.
            (record { outbound = h.outbound; inbound = h.inbound; out = h.out; back = h.back }, a)))
      (λ _. (h, a))

close_if-P : (b : Bool) (c : StreamCopy) → P c → OnReturn P (close_if b c)
unfolding close_if
close_if-P b c (h, a) =
    if-OnReturn P b _ (ok c)
      (λ _.
        bind-OnReturn (λ _. Unit {0}) P (close c.answers.close_output c.output) _
          (OnReturn-true (close c.answers.close_output c.output))
          (λ fd _.
            (record { outbound = h.outbound; inbound = h.inbound; out = h.out; back = h.back }, a)))
      (λ _. (h, a))

pub to_socket-P : (c : StreamCopy) → P c → OnReturn P (to_socket c)
unfolding to_socket
to_socket-P c (h, a) =
    bind-OnReturn (Poured c.outbound) P (pour c.answers.write_socket c.socket c.outbound) _
      (pour-Poured c.answers.write_socket c.socket c.outbound h.outbound)
      (λ (bytes, fd, s) (v, e).
        shutdown_if-P (ByteStream.is_finished s)
          (record c { socket = fd; outbound = s; sent = c.sent ++ bytes })
          (
            record {
              outbound = v;
              inbound = h.inbound;
              out = out_of c.sent c.outbound.stream bytes c.typed s.stream h.out e;
              back = h.back;
            },
            a,
          ))

pub to_output-P : (c : StreamCopy) → P c → OnReturn P (to_output c)
unfolding to_output
to_output-P c (h, a) =
    bind-OnReturn (Poured c.inbound) P (pour c.answers.write_output c.output c.inbound) _
      (pour-Poured c.answers.write_output c.output c.inbound h.inbound)
      (λ (bytes, fd, s) (v, e).
        close_if-P (ByteStream.is_finished s)
          (record c { output = fd; inbound = s; printed = c.printed ++ bytes })
          (
            record {
              outbound = h.outbound;
              inbound = v;
              out = h.out;
              back = out_of c.printed c.inbound.stream bytes c.received s.stream h.back e;
            },
            a,
          ))
