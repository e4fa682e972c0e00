-- ===== src/Network/Frame.antt =====
-- elfo-network/src/frame: the framing strategies, which put encoded envelopes into the bytes of a
-- socket and take them out again.
use elfo.Base.{ℕ, ◌*◌}
use elfo.Network.Codec.{NetworkEnvelope}
use elfo.Network.Codec.Decode.{EnvelopeDetails}
pub mod Lz4
pub mod Write
pub mod Read
pub mod FramedRead
pub mod Progress
pub mod Lz4RoundTrip
pub mod Fifo
pub mod Holding
pub mod Writing
pub mod Delivery

abbrev pub compressed_data_buffer_capacity : ℕ
compressed_data_buffer_capacity = 64 * 1024

abbrev pub decompressed_data_buffer_capacity : ℕ
decompressed_data_buffer_capacity = 128 * 1024

abbrev pub output_flush_threshold : ℕ
output_flush_threshold = 64 * 1024

pub data FrameState : Type 0 where
  accumulating flush_advised : FrameState

-- The buffer of `need_more_data` is given by its length: it is the free end of the reader's buffer.
pub data FramedReadState (M R : Type 0) : Type 0 where
  need_more_data : ℕ → FramedReadState M R
  envelope_skipped : EnvelopeDetails R → FramedReadState M R
  done : NetworkEnvelope M R → FramedReadState M R
