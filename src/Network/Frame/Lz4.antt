-- ===== src/Network/Frame/Lz4.antt =====
-- elfo-network/src/frame/lz4.rs. The block format is that of the crate `lz4_flex`; the bytes of a
-- buffer behind what is written are kept.
use elfo.Base.{
  ℕ, ◌+◌, ◌-◌, ◌%◌, ◌^◌, ◌≤◌, ◌≡◌, Bool, true, false, Option, none, some, List, ◌++◌, ltb, ◌==◌,
  if◌then◌else◌, length, take, drop, replicate, Run, panic,
}
use elfo.Base.Bytes.{write_le, read_le}

-- `lz4_flex::block`: a compressor that is given room for its largest output does not fail, and
-- what it gives is decompressed to its input in any buffer that has room for that.
pub record Lz4 : Type 0 where
  pub get_maximum_output_size : ℕ → ℕ
  pub compress_into : List ℕ → ℕ → Option (List ℕ)
  pub decompress_into : List ℕ → ℕ → Option (List ℕ)
  pub compress_fits :
      (input : List ℕ) (room : ℕ)
      → get_maximum_output_size (length input) ≤ room
      → (block : List ℕ) × (compress_into input room ≡ some block)
        × (length block ≤ get_maximum_output_size (length input))
  pub decompress-compress :
      (input block : List ℕ) (room room' : ℕ)
      → compress_into input room ≡ some block
      → length input ≤ room'
      → decompress_into block room' ≡ some input

pub record Lz4Buffer : Type 0 where
  pub buffer : List ℕ
  pub len : ℕ

pub data DecompressState : Type 0 where
  need_more_data : ℕ → DecompressState
  done : ℕ → DecompressState

unfoldable pub lz4_with_capacity : ℕ → Lz4Buffer
lz4_with_capacity capacity = record { buffer = replicate capacity 0; len = 0 }

unfoldable pub lz4_filled_slice : Lz4Buffer → List ℕ
lz4_filled_slice b = take b.len b.buffer

abbrev pub resized : List ℕ → ℕ → List ℕ
resized buffer size = buffer ++ replicate (size - length buffer) 0

-- `written` over the front of the buffer.
abbrev pub over : List ℕ → List ℕ → List ℕ
over written buffer = written ++ drop (length written) buffer

module _ (lz4 : Lz4) where
  open lz4 use {get_maximum_output_size, compress_into, decompress_into}

  -- The end of `decompress_frame`, from the result of `decompress_into`; a result of `none` is an
  -- error.
  unfoldable pub finish_decompress :
      Lz4Buffer → ℕ → ℕ → ℕ → Option (List ℕ) → Lz4Buffer × ℕ × Option DecompressState
  finish_decompress b frame_size size total none = (b, total, none)
  finish_decompress b frame_size size total (some out) =
      if length out == size
      then (
        record { buffer = over out b.buffer; len = size },
        total + size,
        some (DecompressState.done frame_size),
      )
      else (record b { buffer = over out b.buffer }, total, none)

  -- The slice of the block panics when the frame is said to be shorter than its header.
  unfoldable pub decompress_block :
      Lz4Buffer → List ℕ → ℕ → ℕ → ℕ → Run (Lz4Buffer × ℕ × Option DecompressState)
  decompress_block b raw frame_size size total =
      if ltb frame_size 8
      then panic
      else (let b' = record b { buffer = resized b.buffer size } in
          Run.done (
            finish_decompress b' frame_size size total
              (decompress_into (take (frame_size - 8) (drop 8 raw)) (length b'.buffer))))

  unfoldable pub decompress_sized :
      Lz4Buffer → List ℕ → ℕ → ℕ → List ℕ → Run (Lz4Buffer × ℕ × Option DecompressState)
  decompress_sized b raw total frame_size rest =
      if ltb (length raw) frame_size
      then Run.done (b, total, some (need_more_data frame_size))
      else elim (read_le 4 rest) [
        | none ↦ Run.done (b, total, none)
        | some (size, block) ↦ decompress_block b raw frame_size size total
      ]

  -- With the bytes that were decompressed so far, from `DecompressStats`.
  unfoldable pub decompress_frame :
      Lz4Buffer → List ℕ → ℕ → Run (Lz4Buffer × ℕ × Option DecompressState)
  decompress_frame b raw total =
      let b' = record b { len = 0 } in
      elim (read_le 4 raw) [
        | none ↦ Run.done (b', total, some (need_more_data 4))
        | some (frame_size, rest) ↦ decompress_sized b' raw total frame_size rest
      ]

  -- The end of `compress_frame`, from the result of `compress_into` behind the header.
  unfoldable pub finish_compress : Lz4Buffer → List ℕ → ℕ → Option (List ℕ) → Lz4Buffer × ℕ × Bool
  finish_compress b input total none = (
    record b { buffer = over (write_le 4 0 ++ write_le 4 (length input % 2 ^ 32)) b.buffer },
    total,
    false,
  )
  finish_compress b input total (some block) =
      let frame_size = length block + 8 in
      (
        record {
          buffer =
              over
                (write_le 4 (frame_size % 2 ^ 32) ++ (write_le 4 (length input % 2 ^ 32) ++ block))
                b.buffer;
          len = frame_size;
        },
        total + length input,
        true,
      )

  -- The result is false when `compress_into` fails.
  unfoldable pub compress_frame : Lz4Buffer → List ℕ → ℕ → Lz4Buffer × ℕ × Bool
  compress_frame b input total =
      let b' = record b {
        buffer = resized b.buffer (8 + get_maximum_output_size (length input));
      } in
      finish_compress b' input total (compress_into input (length b'.buffer - 8))
