-- ===== src/Mux/Defs.antt =====
-- Constants and frames of the multiplexer.
use capsudo_rs.Base.{ℕ, ◌+◌, ◌-◌, ◌*◌, ◌^◌, List}
use capsudo_rs.Proto.Defs.{max_payload, Message}
use capsudo_rs.Proto.Header

abbrev pub kind_control : ℕ
kind_control = 1

abbrev pub kind_fds : ℕ
kind_fds = 2

abbrev pub kind_stream_data : ℕ
kind_stream_data = 3

abbrev pub kind_stream_close : ℕ
kind_stream_close = 4

abbrev pub kind_hello : ℕ
kind_hello = 5

abbrev pub kind_window : ℕ
kind_window = 6

abbrev pub mux_header : ℕ
mux_header = 9

abbrev pub pump_buf : ℕ
pump_buf = 16 * 1024

abbrev pub window_version : ℕ
window_version = 1

abbrev pub stream_window : ℕ
stream_window = 1024 * 1024

-- `u32::MAX` less one frame.
abbrev pub max_window : ℕ
max_window = 2 ^ 32 - 1 - (mux_header + pump_buf)

abbrev pub min_stream_frame : ℕ
min_stream_frame = mux_header + pump_buf

abbrev pub max_owed_streams : ℕ
max_owed_streams = 64

abbrev pub max_frame_payload : ℕ
max_frame_payload = Header.size + max_payload

abbrev pub max_live_streams : ℕ
max_live_streams = 8

pub data Side : Type 0 where
  dialer listener : Side

-- A frame queued for the writer.
pub data OutFrame : Type 0 where
  control fds : List ℕ → OutFrame
  stream_data : ℕ → List ℕ → OutFrame
  stream_close : ℕ → OutFrame
  window : ℕ → ℕ → OutFrame

-- A message handed up to `recv`.
pub data CtrlItem : Type 0 where
  control : Message → CtrlItem
  fds : List ℕ → CtrlItem

-- Payload routed to a stream's writer pump.
pub data StreamMsg : Type 0 where
  bytes : List ℕ → StreamMsg
  close : StreamMsg
