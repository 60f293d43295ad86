-- ===== src/LossyFdAdapter.antt =====
-- The adapter of util/lossy_fd_adapter.hh, which drops some of what the adapter below it reads and
-- writes. The adapter below and the random engine are parameters: their states and their operations.
use os_stream_socket.Base.{
  ℕ, ◌%◌, ◌^◌, Bool, true, false, ◌==◌, ltb, if◌then◌else◌, Option, none, ◌≡◌, ap,
}
use os_stream_socket.TcpSegment.{TcpSegment}
use os_stream_socket.TcpOverIp.{FdAdapterConfig}

-- What is used of the adapter below.
pub record AdapterT (State : Type 0) : Type 0 where
  pub config : State → FdAdapterConfig
  pub read : State → Option TcpSegment × State
  pub write : TcpSegment → State → State

pub record LossyFdAdapter (State Engine : Type 0) : Type 0 where
  pub rand : Engine
  pub adapter : State

module _ {State Engine : Type 0} (below : AdapterT State) (draw : Engine → ℕ × Engine) where
  -- A number is drawn only if there is a loss rate.
  unfoldable pub should_drop :
      Bool → LossyFdAdapter State Engine → Bool × LossyFdAdapter State Engine
  should_drop uplink l =
      let cfg = below.config l.adapter in
      let loss = (if uplink then cfg.loss_rate_up else cfg.loss_rate_dn) in
      let (number, rand) = draw l.rand in
      if loss == 0 then (false, l) else (ltb (number % 2 ^ 16) loss, record l { rand = rand })

  -- The datagram that is dropped has been read.
  unfoldable pub read :
      LossyFdAdapter State Engine → Option TcpSegment × LossyFdAdapter State Engine
  unfolding should_drop
  read l =
      let (ret, adapter) = below.read l.adapter in
      let (dropped, l') = should_drop false (record l { adapter = adapter }) in
      (if dropped then none else ret, l')

  unfoldable pub write : TcpSegment → LossyFdAdapter State Engine → LossyFdAdapter State Engine
  unfolding should_drop
  write seg l =
      let (dropped, l') = should_drop true l in
      if dropped then l' else record l' { adapter = below.write seg l'.adapter }

  -- Without loss rates.
  pub read_lossless :
      (l : LossyFdAdapter State Engine)
      → (below.config (below.read l.adapter).1).loss_rate_dn ≡ 0
      → read l ≡ ((below.read l.adapter).0, record l { adapter = (below.read l.adapter).1 })
  unfolding read should_drop
  read_lossless l e =
      let bare : ((below.config (below.read l.adapter).1).loss_rate_dn == 0) ≡ true =
        ap (λ n. n == 0) e in
      simp bare
