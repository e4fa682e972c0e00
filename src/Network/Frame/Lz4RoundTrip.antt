-- ===== src/Network/Frame/Lz4RoundTrip.antt =====
-- elfo-network/src/frame/lz4.rs: frames that are compressed and decompressed.
use elfo.Base.{
  ℕ, ◌+◌, ◌-◌, ◌^◌, ◌≤◌, ◌<◌, ◌≡◌, refl, sym, ap, ◌∙◌, true, false, some, List, ◌++◌, append_assoc,
  arith, ltb, ◌==◌, length, length-append, take, drop, replicate, length-replicate,
  take-length-append, Run,
}
use elfo.Base.Bytes.{write_le, read_le, length-write_le, read_le-write_le}
use native.Mathlib.Nat.{mod-eq_of_lt}
use elfo.Network.Frame.Lz4.{
  Lz4, Lz4Buffer, DecompressState, lz4_filled_slice, resized, over, finish_decompress,
  decompress_block, decompress_sized, decompress_frame, finish_compress, compress_frame,
}

abbrev pub frame_of : ℕ → List ℕ → List ℕ
frame_of size block = write_le 4 (length block + 8) ++ (write_le 4 size ++ block)

pub length-frame_of : (size : ℕ) (block : List ℕ) → length (frame_of size block) ≡ length block + 8
length-frame_of size block = omega (
  arith,
  length-append (write_le 4 (length block + 8)) (write_le 4 size ++ block),
  length-append (write_le 4 size) block,
  length-write_le 4 (length block + 8),
  length-write_le 4 size,
)

length-resized : (buffer : List ℕ) (size : ℕ) → size ≤ length (resized buffer size)
length-resized buffer size = omega (
  arith,
  length-append buffer (replicate (size - length buffer) 0),
  length-replicate {A = ℕ} (size - length buffer) 0,
)

take-over :
    (n : ℕ) (written buffer : List ℕ) → n ≡ length written → take n (over written buffer) ≡ written
take-over n written buffer e =
    ap (λ k. take k (over written buffer)) e
    ∙ take-length-append written (drop (length written) buffer)

-- The block of a frame, with any bytes behind it.
block_of :
    (size : ℕ) (block rest : List ℕ)
    → take (length block + 8 - 8) (drop 8 (frame_of size block ++ rest)) ≡ block
unfolding write_le
block_of size block rest =
    let whole : length block + 8 - 8 ≡ length block = omega arith in
    rw whole (take-length-append block rest)

sizes_of :
    (size : ℕ) (block rest : List ℕ)
    → size < 2 ^ 32
    → length block + 8 < 2 ^ 32
    → let body = (write_le 4 size ++ block) ++ rest in
      (read_le 4 (frame_of size block ++ rest) ≡ some (length block + 8, body))
      × (read_le 4 body ≡ some (size, block ++ rest))
sizes_of size block rest small fits = (
  rw (append_assoc (write_le 4 (length block + 8)) (write_le 4 size ++ block) rest)
      (read_le-write_le 4 (length block + 8) ((write_le 4 size ++ block) ++ rest) fits),
  rw (append_assoc (write_le 4 size) block rest) (read_le-write_le 4 size (block ++ rest) small),
)

module _ (lz4 : Lz4) where
  open lz4 use {
    get_maximum_output_size, compress_into, decompress_into, compress_fits, decompress-compress,
  }

  -- The compressed frame, and that its block is what the compressor gave.
  pub compress_frame_lem :
      (b : Lz4Buffer) (input : List ℕ) (total : ℕ)
      → length input < 2 ^ 32
      → get_maximum_output_size (length input) + 8 < 2 ^ 32
      → (block : List ℕ) × (room : ℕ) × (b' : Lz4Buffer) × (compress_into input room ≡ some block)
        × (length block + 8 < 2 ^ 32)
        × (compress_frame lz4 b input total ≡ (b', total + length input, true))
        × (lz4_filled_slice b' ≡ frame_of (length input) block)
        × (b'.len ≡ length block + 8)
  unfolding compress_frame finish_compress lz4_filled_slice
  compress_frame_lem b input total small fits =
      let most = get_maximum_output_size (length input) in
      let buffer = resized b.buffer (8 + most) in
      let room = length buffer - 8 in
      let (block, e, le) =
        compress_fits input room (omega (arith, length-resized b.buffer (8 + most))) in
      let size : length block + 8 < 2 ^ 32 = omega arith in
      let frame = frame_of (length input) block in
      (
        block,
        room,
        record { buffer = over frame buffer; len = length block + 8 },
        e,
        size,
        rw (e, mod-eq_of_lt small, mod-eq_of_lt size) refl,
        take-over (length block + 8) frame buffer (sym (length-frame_of (length input) block)),
        refl,
      )

  pub decompress_frame_lem :
      (d : Lz4Buffer) (input block rest : List ℕ) (room total : ℕ)
      → length input < 2 ^ 32
      → length block + 8 < 2 ^ 32
      → compress_into input room ≡ some block
      → (d' : Lz4Buffer) × (decompress_frame lz4 d (frame_of (length input) block ++ rest) total
          ≡ Run.done (d', total + length input, some (DecompressState.done (length block + 8))))
        × (lz4_filled_slice d' ≡ input)
        × (d'.len ≡ length input)
  unfolding decompress_frame decompress_sized decompress_block finish_decompress lz4_filled_slice
  decompress_frame_lem d input block rest room total small fits e =
      let size = length input in
      let raw = frame_of size block ++ rest in
      let (first, second) = sizes_of size block rest small fits in
      let buffer = resized d.buffer size in
      let whole = length-append (frame_of size block) rest in
      let there : ltb (length raw) (length block + 8) ≡ false =
        ground (arith, whole, length-frame_of size block) in
      let header : ltb (length block + 8) 8 ≡ false = ground arith in
      let out : decompress_into block (length buffer) ≡ some input =
        decompress-compress input block room (length buffer) e (length-resized d.buffer size) in
      let same : (size == size) ≡ true = ground arith in
      (
        record { buffer = over input buffer; len = size },
        rw (first, decompress_frame)
            (rw (there, second, decompress_sized)
              (rw (header, block_of size block rest, out, decompress_block)
                (rw (same, finish_decompress) refl))),
        take-over size input buffer refl,
        refl,
      )

  -- Input of less than 4 GiB, compressed to a frame of less than 4 GiB, is decompressed from the
  -- frame, with any bytes behind it and into any buffer; what is consumed is the frame, and both
  -- sides count the bytes of the input.
  pub lz4_round_trip :
      (b d : Lz4Buffer) (input rest : List ℕ) (total total' : ℕ)
      → length input < 2 ^ 32
      → get_maximum_output_size (length input) + 8 < 2 ^ 32
      → (b' : Lz4Buffer) × (d' : Lz4Buffer) × (compress_frame lz4 b input total
          ≡ (b', total + length input, true))
        × (decompress_frame lz4 d (lz4_filled_slice b' ++ rest) total'
            ≡ Run.done (
              d',
              total' + length input,
              some (DecompressState.done (length (lz4_filled_slice b'))),
            ))
        × (lz4_filled_slice d' ≡ input)
  lz4_round_trip b d input rest total total' small fits =
      let (block, room, b', e, size, compressed, slice, len) =
        compress_frame_lem b input total small fits in
      let (d', decompressed, out, n) =
        decompress_frame_lem d input block rest room total' small size e in
      (b', d', compressed, rw (slice, length-frame_of (length input) block) decompressed, out)
