-- ===== src/Config/Transport.antt =====
-- `build_quic_transport_config` of src/lib.rs, as the settings it makes; an unset option stands
-- for quinn's default.
use rstun.Base.{
  ℕ, zero, suc, ◌*◌, ◌/◌, ◌%◌, ◌^◌, ◌<◌, ◌≡◌, refl, Option, none, some, ltb, if◌then◌else◌, arith,
  ◌⊎◌, inl, inr,
}

pub record TransportConfig : Type 0 where
  pub stream_receive_window : ℕ
  pub receive_window : ℕ
  pub send_window : ℕ
  pub max_concurrent_bidi_streams : ℕ
  pub max_idle_timeout : Option ℕ
  pub keep_alive_interval : Option ℕ

-- A window of 0 stands for the default.
abbrev window_or : ℕ → ℕ → ℕ
window_or window default_window = if ltb 0 window then window else default_window

-- The cast to `u32` keeps the low 32 bits, and `quic_timeout_ms * 2` is a product of `u64`.
unfoldable pub build_quic_transport_config : ℕ → ℕ → ℕ → ℕ → TransportConfig
build_quic_transport_config quic_timeout_ms quic_receive_window stream_receive_window
      quic_send_window =
    record {
      stream_receive_window = window_or stream_receive_window 33554432;
      receive_window = window_or quic_receive_window 67108864;
      send_window = window_or quic_send_window 67108864;
      max_concurrent_bidi_streams = 1024;
      max_idle_timeout = if ltb 0 quic_timeout_ms then some (quic_timeout_ms % 2 ^ 32) else none;
      keep_alive_interval =
          if ltb 0 quic_timeout_ms then some (quic_timeout_ms * 2 % 2 ^ 64 / 3) else none;
    }

-- No window is 0, and either both times are unset or the keep-alive goes out within the idle timeout.
pub record Sound (quic_timeout_ms : ℕ) (c : TransportConfig) : Type 0 where
  pub windows : (0 < c.stream_receive_window) × (0 < c.receive_window) × (0 < c.send_window)
  pub times :
      ((c.max_idle_timeout ≡ none) × (c.keep_alive_interval ≡ none))
      ⊎ ((k : ℕ) × (c.max_idle_timeout ≡ some quic_timeout_ms)
          × (c.keep_alive_interval ≡ some k)
          × (k < quic_timeout_ms))

by_timeout :
    (t : ℕ)
    → t < 2 ^ 32
    → (((if ltb 0 t then some (t % 2 ^ 32) else none) ≡ none)
        × ((if ltb 0 t then some (t * 2 % 2 ^ 64 / 3) else none) ≡ none))
      ⊎ ((k : ℕ) × ((if ltb 0 t then some (t % 2 ^ 32) else none) ≡ some t)
          × ((if ltb 0 t then some (t * 2 % 2 ^ 64 / 3) else none) ≡ some k)
          × (k < t))
by_timeout zero lt = inl (refl, refl)
by_timeout (suc n) lt = inr (suc n * 2 % 2 ^ 64 / 3, ground arith, ground arith, omega arith)

-- For a timeout below 2 ^ 32 ms and any windows, no window of the transport is 0, and either neither
-- an idle timeout nor a keep-alive is set, or the idle timeout is the given one and the keep-alive
-- interval is shorter.
pub build_quic_transport_config-Sound :
    (quic_timeout_ms quic_receive_window stream_receive_window quic_send_window : ℕ)
    → quic_timeout_ms < 2 ^ 32
    → Sound quic_timeout_ms (
        build_quic_transport_config quic_timeout_ms quic_receive_window stream_receive_window
          quic_send_window)
unfolding build_quic_transport_config
build_quic_transport_config-Sound t r s w lt = record {
  windows = (ground arith, ground arith, ground arith);
  times = by_timeout t lt;
}
