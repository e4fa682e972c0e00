-- ===== src/Network/Frame/Write.antt =====
-- elfo-network/src/frame/write.rs. Allocating a vector is left out.
use elfo.Base.{
  ℕ, ◌+◌, ◌/◌, Bool, true, false, Option, some, List, [], ltb, if◌then◌else◌, length, Run, done,
  ◌>>=◌,
}
use elfo.Network.Codec.{Libraries, NetworkEnvelope}
use elfo.Network.Codec.Encode.{EncodeStats, EncodeResult, encoded, encode}
use elfo.Network.Frame.Lz4.{Lz4, Lz4Buffer, lz4_with_capacity, lz4_filled_slice, compress_frame}
use elfo.Network.Frame.{
  compressed_data_buffer_capacity, output_flush_threshold, FrameState, accumulating, flush_advised,
}

pub record FramedWriteStats : Type 0 where
  pub encode_stats : EncodeStats
  pub total_uncompressed_bytes : ℕ

abbrev pub no_write_stats : FramedWriteStats
no_write_stats = record {
  encode_stats = record { total_messages_encoded = 0; total_messages_encoding_skipped = 0 };
  total_uncompressed_bytes = 0;
}

pub record Lz4FramedWrite : Type 0 where
  pub decompressed_buffer : List ℕ
  pub compressed_buffer : Lz4Buffer
  pub stats : FramedWriteStats
  pub envelope_size_limit : Option ℕ

pub record NoneFramedWrite : Type 0 where
  pub buffer : List ℕ
  pub stats : FramedWriteStats
  pub after_finalize : Bool
  pub envelope_size_limit : Option ℕ

pub data FramedWrite : Type 0 where
  lz4 : Lz4FramedWrite → FramedWrite
  none : NoneFramedWrite → FramedWrite

-- `Result<FrameState, EncodeError>`.
pub data WriteResult : Type 0 where
  ok : FrameState → WriteResult
  skipped : WriteResult

unfoldable pub new_lz4 : Option ℕ → Lz4FramedWrite
new_lz4 limit = record {
  decompressed_buffer = [];
  compressed_buffer = lz4_with_capacity compressed_data_buffer_capacity;
  stats = no_write_stats;
  envelope_size_limit = limit;
}

unfoldable pub new_none : Option ℕ → NoneFramedWrite
new_none limit = record {
  buffer = [];
  stats = no_write_stats;
  after_finalize = false;
  envelope_size_limit = limit;
}

-- The result of a write, from that of `encode`.
abbrev pub frame_state : EncodeResult → Bool → WriteResult
frame_state EncodeResult.skipped full = WriteResult.skipped
frame_state encoded full = ok (if full then flush_advised else accumulating)

-- The buffer that a write appends to: the first write after `finalize` clears it.
abbrev pub write_buffer : NoneFramedWrite → List ℕ
write_buffer w = if w.after_finalize then [] else w.buffer

module _ (lib : Libraries) where
  open lib use {AnyMessage, RequestId}

  unfoldable pub write_lz4 :
      Lz4FramedWrite → NetworkEnvelope AnyMessage RequestId → Run (Lz4FramedWrite × WriteResult)
  write_lz4 w e = do
    (buffer, encode_stats, result) ←
        encode lib e w.decompressed_buffer w.stats.encode_stats w.envelope_size_limit
    done (
      record w {
        decompressed_buffer = buffer;
        stats = record (w.stats) { encode_stats = encode_stats };
      },
      frame_state result (ltb output_flush_threshold (length buffer / 2)),
    )

  unfoldable pub write_none :
      NoneFramedWrite → NetworkEnvelope AnyMessage RequestId → Run (NoneFramedWrite × WriteResult)
  write_none w e = do
    (buffer, encode_stats, result) ←
        encode lib e (write_buffer w) w.stats.encode_stats w.envelope_size_limit
    done (
      record w {
        buffer = buffer;
        after_finalize = false;
        stats = record (w.stats) { encode_stats = encode_stats };
      },
      frame_state result (ltb output_flush_threshold (length buffer)),
    )

  unfoldable pub write :
      FramedWrite → NetworkEnvelope AnyMessage RequestId → Run (FramedWrite × WriteResult)
  write (FramedWrite.lz4 w) e = do (w, r) ← write_lz4 w e; done (FramedWrite.lz4 w, r)
  write (FramedWrite.none w) e = do (w, r) ← write_none w e; done (FramedWrite.none w, r)

module _ (block : Lz4) where
  -- `none` is an error.
  unfoldable pub finalize_lz4 : Lz4FramedWrite → Lz4FramedWrite × Option (List ℕ)
  finalize_lz4 w =
      let (b, total, is_ok) =
        compress_frame block w.compressed_buffer w.decompressed_buffer
          w.stats.total_uncompressed_bytes in
      (
        record w {
          decompressed_buffer = [];
          compressed_buffer = b;
          stats = record (w.stats) { total_uncompressed_bytes = total };
        },
        if is_ok then some (lz4_filled_slice b) else Option.none,
      )

  unfoldable pub finalize_none : NoneFramedWrite → NoneFramedWrite × Option (List ℕ)
  finalize_none w = (
    record w {
      after_finalize = true;
      stats = record (w.stats) {
        total_uncompressed_bytes = w.stats.total_uncompressed_bytes + length w.buffer;
      };
    },
    some w.buffer,
  )

  unfoldable pub finalize : FramedWrite → FramedWrite × Option (List ℕ)
  finalize (FramedWrite.lz4 w) = let (w', bytes) = finalize_lz4 w in (FramedWrite.lz4 w', bytes)
  finalize (FramedWrite.none w) = let (w', bytes) = finalize_none w in (FramedWrite.none w', bytes)

-- `take_stats`: the counts so far, which start anew.
unfoldable pub take_stats : FramedWrite → FramedWrite × FramedWriteStats
take_stats (FramedWrite.lz4 w) = (FramedWrite.lz4 (record w { stats = no_write_stats }), w.stats)
take_stats (FramedWrite.none w) = (FramedWrite.none (record w { stats = no_write_stats }), w.stats)
