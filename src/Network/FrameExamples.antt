-- ===== src/Network/FrameExamples.antt =====
-- The theorems about frames at concrete inputs: a block is the bytes themselves.
use elfo.Network.Codec.Encode.{put_str, header, put_message, do_encode, finish, encode}
use elfo.Network.Frame.FramedRead.{FramedRead}
use elfo.Network.Frame.Holding.{Holds}
use elfo.Network.Frame.Writing.{write_all, none_left, and_valid}
use elfo.Network.Frame.Delivery.{Receives, read_many, written_is_read}
use elfo.Base.{
  ℕ, ◌≤◌, ◌≡◌, refl, true, Option, some, List, [], ◌∷◌, ◌++◌, arith, leb, if◌then◌else◌, length,
  Run,
}
use elfo.Base.Bytes.{write_le, read_le}
use elfo.Base.Loop.{returned, out_of_fuel}
use elfo.Network.Codec.Examples.{bytes, answer, answer-IsValid, answer_frame, one_encoded}
use elfo.Network.ReadBuffer.{filled_len, filled_slice}
use elfo.Network.Frame.Lz4.{
  Lz4, Lz4Buffer, DecompressState, lz4_filled_slice, decompress_frame, finish_compress,
  compress_frame,
}
use elfo.Network.Frame.Lz4RoundTrip.{lz4_round_trip}
use elfo.Network.Frame.Read.{
  no_read_stats, Lz4FramedRead, NoneFramedRead, room, ReadResult, read_none,
}
use elfo.Network.Frame.Write.{
  no_write_stats, Lz4FramedWrite, FramedWrite, write_lz4, write, finalize_lz4, finalize,
}
use elfo.Network.Frame.Progress.{Sized, short, sized, Ends, read_none_returns, read_none_forever}
use elfo.Network.Frame.Fifo.{gathered}

-- What fits, as it is.
abbrev stored : List ℕ → ℕ → Option (List ℕ)
stored input room = if leb (length input) room then some input else Option.none

stored_fits :
    (input : List ℕ) (room : ℕ)
    → length input ≤ room
    → (block : List ℕ) × (stored input room ≡ some block) × (length block ≤ length input)
stored_fits input room h = (input, ground arith, omega arith)

stored-stored :
    (input block : List ℕ) (room room' : ℕ)
    → stored input room ≡ some block
    → length input ≤ room'
    → stored block room' ≡ some input
stored-stored input block room room' e h = ground arith

abbrev plain_blocks : Lz4
plain_blocks = record {
  get_maximum_output_size = λ n. n;
  compress_into = stored;
  decompress_into = stored;
  compress_fits = stored_fits;
  decompress-compress = stored-stored;
}

abbrev empty_buffer : Lz4Buffer
empty_buffer = record { buffer = []; len = 0 }

lz4_round_trip_example :
    (b' : Lz4Buffer) × (d' : Lz4Buffer) × (compress_frame plain_blocks empty_buffer (1 ∷ 2 ∷ []) 0
      ≡ (b', 2, true))
    × (decompress_frame plain_blocks empty_buffer (lz4_filled_slice b' ++ 7 ∷ []) 0
        ≡ Run.done (d', 2, some (DecompressState.done (length (lz4_filled_slice b')))))
    × (lz4_filled_slice d' ≡ 1 ∷ 2 ∷ [])
lz4_round_trip_example =
    lz4_round_trip plain_blocks empty_buffer empty_buffer (1 ∷ 2 ∷ []) (7 ∷ []) 0 0 (omega arith)
      (omega arith)

-- A size of four and the first byte of another frame.
abbrev bad_frame : NoneFramedRead
bad_frame = record {
  buffer = record { buffer = 4 ∷ 0 ∷ 0 ∷ 0 ∷ 9 ∷ []; filled_start = 0; filled_end = 5 };
  stats = no_read_stats;
}

bad_frame-Sized : Sized (filled_slice bad_frame.buffer)
unfolding filled_slice read_le
bad_frame-Sized = sized _ refl (omega arith) (omega arith) (short _ refl)

read_none_returns_example :
    (r' : NoneFramedRead) × (a : ReadResult bytes) × (read_none bytes 6 bad_frame ≡ returned r' a)
    × Ends bytes 5 r' a
unfolding filled_slice filled_len
read_none_returns_example =
    read_none_returns bytes 6 bad_frame (record { ordered = omega arith; inside = omega arith })
      bad_frame-Sized (omega arith)

abbrev zero_sized : NoneFramedRead
zero_sized = record {
  buffer = record { buffer = 0 ∷ 0 ∷ 0 ∷ 0 ∷ 7 ∷ []; filled_start = 0; filled_end = 5 };
  stats = no_read_stats;
}

read_none_forever_example : read_none bytes 1000 zero_sized ≡ out_of_fuel
unfolding filled_slice
read_none_forever_example =
    read_none_forever bytes 1000 7 [] zero_sized
      (record { ordered = omega arith; inside = omega arith }) refl (omega arith)

abbrev compressing : Lz4FramedWrite
compressing = record {
  decompressed_buffer = [];
  compressed_buffer = empty_buffer;
  stats = no_write_stats;
  envelope_size_limit = Option.none;
}

abbrev gathering : Lz4FramedWrite
gathering = record compressing {
  decompressed_buffer = answer_frame;
  stats = record { encode_stats = one_encoded; total_uncompressed_bytes = 0 };
}

abbrev wire : List ℕ
wire = 50 ∷ 0 ∷ 0 ∷ 0 ∷ 42 ∷ 0 ∷ 0 ∷ 0 ∷ answer_frame

abbrev finalized : Lz4FramedWrite
finalized = record {
  decompressed_buffer = [];
  compressed_buffer = record { buffer = wire; len = 50 };
  stats = record { encode_stats = one_encoded; total_uncompressed_bytes = 42 };
  envelope_size_limit = Option.none;
}

abbrev reader : Lz4FramedRead
reader = record {
  compressed_buffer = record { buffer = wire ++ 5 ∷ []; filled_start = 0; filled_end = 51 };
  decompressed_buffer = empty_buffer;
  stats = no_read_stats;
  position = 0;
}

gathered_one :
    write_all bytes (FramedWrite.lz4 compressing) (answer ∷ [])
    ≡ Run.done (FramedWrite.lz4 gathering, answer ∷ [])
unfolding write_all write write_lz4 encode do_encode finish header put_message put_str write_le
gathered_one = refl

finalized_one :
    finalize plain_blocks (FramedWrite.lz4 gathering) ≡ (FramedWrite.lz4 finalized, some wire)
unfolding finalize finalize_lz4 compress_frame finish_compress lz4_filled_slice write_le
finalized_one = refl

written_is_read_example :
    (r' : FramedRead) × (read_many bytes plain_blocks 1 2 (FramedRead.lz4 reader)
      ≡ some (answer ∷ [], r'))
    × Holds bytes plain_blocks r' []
    × (gathered (FramedWrite.lz4 finalized) ≡ [])
unfolding filled_slice
written_is_read_example =
    written_is_read bytes plain_blocks (FramedWrite.lz4 compressing) (FramedRead.lz4 reader) 0
      answer [] refl (and_valid answer [] answer-IsValid none_left) gathered_one finalized_one
      (Receives.compressed gathering reader (5 ∷ []) (omega arith) (omega arith) refl
        (record { ordered = omega arith; inside = omega arith }) refl)
