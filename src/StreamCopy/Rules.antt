-- ===== src/StreamCopy/Rules.antt =====
-- The four rules as rules of the event loop: what they keep, and what is known when one of them rests.
use os_stream_socket.Base.{
  false, [], eq_nil_of_length, ℕ, ◌≡◌, refl, sym, ◌∙◌, ◌<◌, Bool, true, arith,
}
use os_stream_socket.ByteStream.{ByteStream}
use os_stream_socket.ByteStream
use os_stream_socket.ByteStream.Invariant.{bytes_buffered_lem}
use os_stream_socket.EventLoop.{FdRule}
use os_stream_socket.EventLoop.Leads.{Leads, Upkept}
use os_stream_socket.StreamCopy.{
  StreamCopy, wants_out, wants_more, close_outbound, close_inbound, input_rule, socket_out_rule,
  socket_in_rule, output_rule,
}
use os_stream_socket.EventLoop.Idle.{Rests}
use os_stream_socket.StreamCopy.Rounds.{
  P, R, Q, close_outbound-P, close_inbound-P, from_input-P, from_socket-P, to_socket-P, to_output-P,
}

-- When a rule that writes rests, its stream is empty.
abbrev pub N : ℕ → StreamCopy → Type 0
N k c = (k ≡ 1 → c.outbound.stream ≡ []) × (k ≡ 3 → c.inbound.stream ≡ [])

abbrev pub X : FdRule StreamCopy → Type 0
X = Rests P N

close_outbound-stays : (k : ℕ) (c : StreamCopy) → N k c → N k (close_outbound c)
unfolding close_outbound ByteStream.close
close_outbound-stays k c n = n

close_inbound-stays : (k : ℕ) (c : StreamCopy) → N k c → N k (close_inbound c)
unfolding close_inbound ByteStream.close
close_inbound-stays k c n = n

close_outbound-Upkept : (c : StreamCopy) → P c → Upkept X P R Q c (close_outbound c)
unfolding close_outbound ByteStream.close ByteStream.available_capacity
close_outbound-Upkept c h = (close_outbound-P c h, λ k x. x)

close_inbound-Upkept : (c : StreamCopy) → P c → Upkept X P R Q c (close_inbound c)
unfolding close_inbound ByteStream.close ByteStream.available_capacity
close_inbound-Upkept c h = (close_inbound-P c h, λ k x. x)

wants_out-empty :
    (s : ByteStream) (shutdown : Bool)
    → ByteStream.Invariant.IsValid s
    → wants_out s shutdown ≡ false
    → s.stream ≡ []
unfolding wants_out
wants_out-empty s shutdown v e =
    let none_left : ByteStream.bytes_buffered s ≡ 0 = ground (arith, e) in
    eq_nil_of_length s.stream (sym (bytes_buffered_lem s v) ∙ none_left)

wants_more-room : (s o : ByteStream) → wants_more s o ≡ true → 0 < ByteStream.available_capacity s
unfolding wants_more
wants_more-room s o e = ground (arith, e)

pub input_rule-Leads : Leads X P R Q (input_rule 0)
unfolding input_rule
input_rule-Leads = record {
  also = record {
    rests = λ c h e. ((λ e'. absurd (omega arith)), λ e'. absurd (omega arith));
    ends = close_outbound-P;
    stays = close_outbound-stays;
  };
  ends = close_outbound-Upkept;
  recovers = λ c h. (h, λ k x. x);
  asked = λ c h e. ((λ _. wants_more-room c.outbound c.inbound e), λ e'. absurd (omega arith));
  calls = λ c h x. from_input-P c h (x.0 refl);
}

pub socket_out_rule-Leads : Leads X P R Q (socket_out_rule 1)
unfolding socket_out_rule
socket_out_rule-Leads = record {
  also = record {
    rests = λ c h e. (
      (λ _. wants_out-empty c.outbound c.outbound_shutdown h.0.outbound e),
      λ e'. absurd (omega arith),
    );
    ends = close_outbound-P;
    stays = close_outbound-stays;
  };
  ends = close_outbound-Upkept;
  recovers = λ c h. (h, λ k x. x);
  asked = λ c h e. ((λ e'. absurd (omega arith)), λ e'. absurd (omega arith));
  calls = λ c h x. to_socket-P c h;
}

pub socket_in_rule-Leads : Leads X P R Q (socket_in_rule 2)
unfolding socket_in_rule
socket_in_rule-Leads = record {
  also = record {
    rests = λ c h e. ((λ e'. absurd (omega arith)), λ e'. absurd (omega arith));
    ends = close_inbound-P;
    stays = close_inbound-stays;
  };
  ends = close_inbound-Upkept;
  recovers = λ c h. (h, λ k x. x);
  asked = λ c h e. ((λ e'. absurd (omega arith)), λ _. wants_more-room c.inbound c.outbound e);
  calls = λ c h x. from_socket-P c h (x.1 refl);
}

pub output_rule-Leads : Leads X P R Q (output_rule 3)
unfolding output_rule
output_rule-Leads = record {
  also = record {
    rests = λ c h e. (
      (λ e'. absurd (omega arith)),
      λ _. wants_out-empty c.inbound c.inbound_shutdown h.0.inbound e,
    );
    ends = close_inbound-P;
    stays = close_inbound-stays;
  };
  ends = close_inbound-Upkept;
  recovers = λ c h. (h, λ k x. x);
  asked = λ c h e. ((λ e'. absurd (omega arith)), λ e'. absurd (omega arith));
  calls = λ c h x. to_output-P c h;
}
