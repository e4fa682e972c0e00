-- ===== src/Network/Frame/Read.antt =====
-- elfo-network/src/frame/read.rs. A step is one round of a loop of the source; a violated debug
-- assertion is a panic.
use elfo.Base.{
  ℕ, ◌+◌, ◌-◌, Option, none, some, ltb, ◌==◌, if◌then◌else◌, length, drop, Run, done, panic, ◌>>=◌,
}
use elfo.Base.Loop.{Step, again, break, Outcome, run}
use elfo.Network.Codec.{Libraries}
use elfo.Network.Codec.Decode.{DecodeStats, DecodeState, skipped, decode}
use elfo.Network.ReadBuffer.{
  ReadBuffer, with_capacity, filled_len, filled_slice, consume_filled, extend_to_contain,
}
use elfo.Network.Frame.Lz4.{
  Lz4, Lz4Buffer, DecompressState, lz4_with_capacity, lz4_filled_slice, decompress_frame,
}
use elfo.Network.Frame.{
  compressed_data_buffer_capacity, decompressed_data_buffer_capacity, FramedReadState,
  envelope_skipped,
}

pub record FramedReadStats : Type 0 where
  pub total_uncompressed_bytes : ℕ
  pub decode_stats : DecodeStats

abbrev pub no_read_stats : FramedReadStats
no_read_stats = record {
  total_uncompressed_bytes = 0;
  decode_stats = record { total_messages_decoded = 0; total_messages_decoding_skipped = 0 };
}

pub record Lz4FramedRead : Type 0 where
  pub compressed_buffer : ReadBuffer
  pub decompressed_buffer : Lz4Buffer
  pub stats : FramedReadStats
  pub position : ℕ

pub record NoneFramedRead : Type 0 where
  pub buffer : ReadBuffer
  pub stats : FramedReadStats

unfoldable pub new_lz4 : Lz4FramedRead
new_lz4 = record {
  compressed_buffer = with_capacity compressed_data_buffer_capacity;
  decompressed_buffer = lz4_with_capacity decompressed_data_buffer_capacity;
  stats = no_read_stats;
  position = 0;
}

unfoldable pub new_none : NoneFramedRead
new_none = record {
  buffer = with_capacity decompressed_data_buffer_capacity;
  stats = no_read_stats;
}

-- The part of the buffer that is free after `extend_to_contain`.
abbrev pub room : ReadBuffer → ℕ
room b = length b.buffer - b.filled_end

-- The loops of `LZ4FramedRead::read`.
pub data Phase : Type 0 where
  decompression decoding : Phase

module _ (lib : Libraries) where
  open lib use {AnyMessage, RequestId}

  -- What a reader gives back: `none` is an error.
  abbrev pub ReadResult : Type 0
  ReadResult = Option (FramedReadState AnyMessage RequestId)

  -- The bytes that were decoded or skipped are consumed and counted.
  unfoldable pub consume_none : NoneFramedRead → ℕ → Run NoneFramedRead
  consume_none r count = do
    b ← consume_filled r.buffer count
    done (record r {
      buffer = b;
      stats = record (r.stats) {
        total_uncompressed_bytes = r.stats.total_uncompressed_bytes + count;
      };
    })

  unfoldable pub on_decoded_none :
      NoneFramedRead → DecodeState AnyMessage RequestId → Run (NoneFramedRead × Step ReadResult)
  on_decoded_none r (DecodeState.need_more_data n) =
      if ltb (filled_len r.buffer) n
      then (do
        b ← extend_to_contain r.buffer n
        done (record r { buffer = b }, break (some (FramedReadState.need_more_data (room b)))))
      else panic
  on_decoded_none r (skipped count (some details)) = do
    r ← consume_none r count
    done (r, break (some (envelope_skipped details)))
  on_decoded_none r (skipped count none) = do r ← consume_none r count; done (r, again)
  on_decoded_none r (DecodeState.done count e) = do
    r ← consume_none r count
    done (r, break (some (FramedReadState.done e)))

  -- One round of the loop of `NoneFramedRead::read`.
  unfoldable pub step_none : NoneFramedRead → Run (NoneFramedRead × Step ReadResult)
  step_none r =
      let (state, decode_stats) = decode lib (filled_slice r.buffer) r.stats.decode_stats in
      on_decoded_none (record r { stats = record (r.stats) { decode_stats = decode_stats } }) state

  unfoldable pub read_none : ℕ → NoneFramedRead → Outcome NoneFramedRead ReadResult
  read_none fuel r = run step_none fuel r

  unfoldable pub on_decoded_lz4 :
      Lz4FramedRead → DecodeState AnyMessage RequestId → (Lz4FramedRead × Phase) × Step ReadResult
  on_decoded_lz4 r (DecodeState.need_more_data n) =
      if r.position == r.decompressed_buffer.len
      then ((r, decompression), again)
      else ((r, decoding), break none)
  on_decoded_lz4 r (skipped count (some details)) = (
    (record r { position = r.position + count }, decoding),
    break (some (envelope_skipped details)),
  )
  on_decoded_lz4 r (skipped count none) =
      ((record r { position = r.position + count }, decoding), again)
  on_decoded_lz4 r (DecodeState.done count e) = (
    (record r { position = r.position + count }, decoding),
    break (some (FramedReadState.done e)),
  )

  unfoldable pub on_decompressed :
      Lz4FramedRead → Option DecompressState → Run ((Lz4FramedRead × Phase) × Step ReadResult)
  on_decompressed r none = done ((r, decompression), break none)
  on_decompressed r (some (DecompressState.need_more_data n)) =
      if ltb (filled_len r.compressed_buffer) n
      then (do
        b ← extend_to_contain r.compressed_buffer n
        done (
          (record r { compressed_buffer = b }, decompression),
          break (some (FramedReadState.need_more_data (room b))),
        ))
      else panic
  on_decompressed r (some (DecompressState.done size)) = do
    b ← consume_filled r.compressed_buffer size
    done ((record r { compressed_buffer = b }, decoding), again)

module _ (lib : Libraries) (block : Lz4) where
  -- One round of the loops of `LZ4FramedRead::read`; the slice of the decompressed bytes panics
  -- when the position is behind them.
  unfoldable pub step_lz4 :
      Lz4FramedRead × Phase → Run ((Lz4FramedRead × Phase) × Step (ReadResult lib))
  step_lz4 (r, decompression) =
      if r.position == r.decompressed_buffer.len
      then (do
        (b, total, state) ←
            decompress_frame block r.decompressed_buffer (filled_slice r.compressed_buffer)
              r.stats.total_uncompressed_bytes
        on_decompressed lib
            (record r {
              position = 0;
              decompressed_buffer = b;
              stats = record (r.stats) { total_uncompressed_bytes = total };
            })
            state)
      else done ((r, decoding), again)
  step_lz4 (r, decoding) =
      if ltb r.decompressed_buffer.len r.position
      then panic
      else (let (state, decode_stats) =
            decode lib (drop r.position (lz4_filled_slice r.decompressed_buffer))
              r.stats.decode_stats in
          done (
            on_decoded_lz4 lib
              (record r { stats = record (r.stats) { decode_stats = decode_stats } }) state))

  unfoldable pub read_lz4 : ℕ → Lz4FramedRead → Outcome (Lz4FramedRead × Phase) (ReadResult lib)
  read_lz4 fuel r = run step_lz4 fuel (r, decompression)
