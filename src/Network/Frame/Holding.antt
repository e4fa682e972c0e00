-- ===== src/Network/Frame/Holding.antt =====
-- elfo-network/src/frame/read.rs: a reader that holds the bytes of some envelopes gives the first.
use elfo.Base.Bytes.{read_le}
use elfo.Network.Codec.Decode.{DecodeStats, decode}
use elfo.Base.{
  ℕ, suc, ◌+◌, ◌^◌, ◌≤◌, ◌<◌, ◌≡◌, refl, sym, ap, subst, ◌∙◌, true, false, some, List, [], ◌∷◌,
  ◌++◌, append_assoc, arith, ltb, ◌==◌, length, length-append, drop, length-take, length-drop,
  drop-length-append, drop-drop, Run,
}
use elfo.Base.Loop.{again, break, returned, run}
use elfo.Network.Codec.{Libraries, NetworkEnvelope}
use elfo.Network.ReadBuffer.{filled_len, filled_slice, IsValid}
use elfo.Network.ReadBuffer.Consume.{length-filled_slice, consume_filled_keeps}
use elfo.Network.Frame.Lz4.{Lz4, lz4_filled_slice}
use elfo.Network.Frame.Lz4RoundTrip.{frame_of, length-frame_of, decompress_frame_lem}
use elfo.Network.Frame.Read.{
  Lz4FramedRead, NoneFramedRead, decompression, decoding, consume_none, on_decoded_none, step_none,
  read_none, on_decoded_lz4, on_decompressed, step_lz4, read_lz4,
}
use elfo.Network.Frame.FramedRead.{FramedRead, read}
use elfo.Network.Frame.Fifo.{IsFrame, Frames, a_frame, Frames-cons}
use elfo.Network.Frame.{FramedReadState}

abbrev read_one : DecodeStats → DecodeStats
read_one stats = record stats { total_messages_decoded = stats.total_messages_decoded + 1 }

module _ (lib : Libraries) (block : Lz4) where
  open lib use {AnyMessage, RequestId}
  open block use {compress_into}

  -- The queue of a reader: of one without compression, the envelopes at the front of its buffer; of
  -- one with compression, those that are decompressed, or those of the frame that comes next.
  pub data Holds : FramedRead → List (NetworkEnvelope AnyMessage RequestId) → Type 0 where
    plain :
        (r : NoneFramedRead) (es : List (NetworkEnvelope AnyMessage RequestId)) (bs tail : List ℕ)
        → IsValid r.buffer
        → filled_slice r.buffer ≡ bs ++ tail
        → Frames lib es bs
        → Holds (FramedRead.none r) es
    decompressed :
        (r : Lz4FramedRead) (es : List (NetworkEnvelope AnyMessage RequestId))
        → r.position ≤ r.decompressed_buffer.len
        → Frames lib es (drop r.position (lz4_filled_slice r.decompressed_buffer))
        → Holds (FramedRead.lz4 r) es
    compressed :
        (r : Lz4FramedRead) (es : List (NetworkEnvelope AnyMessage RequestId))
        (bs frame tail : List ℕ) (space : ℕ)
        → r.position ≡ r.decompressed_buffer.len
        → IsValid r.compressed_buffer
        → filled_slice r.compressed_buffer ≡ frame_of (length bs) frame ++ tail
        → compress_into bs space ≡ some frame
        → length bs < 2 ^ 32
        → length frame + 8 < 2 ^ 32
        → Frames lib es bs
        → Holds (FramedRead.lz4 r) es

  -- A step of the decoder when the bytes start with an envelope.
  step_none-Frames :
      (r : NoneFramedRead) (e : NetworkEnvelope AnyMessage RequestId) (f rest : List ℕ)
      → IsValid r.buffer
      → filled_slice r.buffer ≡ f ++ rest
      → IsFrame lib e f
      → (r' : NoneFramedRead) × (step_none lib r
          ≡ Run.done (r', break (some (FramedReadState.done e))))
        × IsValid r'.buffer
        × (filled_slice r'.buffer ≡ rest)
  unfolding step_none on_decoded_none consume_none
  step_none-Frames r e f rest v slice i =
      let fits : length f ≤ filled_len r.buffer =
        omega (arith, length-filled_slice r.buffer v, ap length slice, length-append f rest) in
      let (b, eq, left, v') = consume_filled_keeps r.buffer (length f) v fits in
      (
        record r {
          buffer = b;
          stats = record {
            total_uncompressed_bytes = r.stats.total_uncompressed_bytes + length f;
            decode_stats = read_one r.stats.decode_stats;
          };
        },
        rw (slice, i.decodes rest r.stats.decode_stats, eq) refl,
        v',
        left ∙ ap (drop (length f)) slice ∙ drop-length-append f rest,
      )

  -- No envelope is encoded by no bytes.
  pub frame_nonempty :
      (e : NetworkEnvelope AnyMessage RequestId) (f : List ℕ) → IsFrame lib e f → 0 < length f
  unfolding decode read_le
  frame_nonempty e [] i = absurd (
      let h =
        i.decodes [] (record { total_messages_decoded = 0; total_messages_decoding_skipped = 0 }) in
      cc)
  frame_nonempty e (x ∷ f) i = omega arith

  -- The next round of `LZ4FramedRead::read` when the decompressed bytes start with an envelope.
  decoding-Frames :
      (r : Lz4FramedRead) (e : NetworkEnvelope AnyMessage RequestId) (f rest : List ℕ)
      → r.position ≤ r.decompressed_buffer.len
      → drop r.position (lz4_filled_slice r.decompressed_buffer) ≡ f ++ rest
      → IsFrame lib e f
      → (r' : Lz4FramedRead) × (step_lz4 lib block (r, decoding)
          ≡ Run.done ((r', decoding), break (some (FramedReadState.done e))))
        × (r'.position ≤ r'.decompressed_buffer.len)
        × (drop r'.position (lz4_filled_slice r'.decompressed_buffer) ≡ rest)
  unfolding step_lz4 on_decoded_lz4 lz4_filled_slice
  decoding-Frames r e f rest inside slice i =
      let bytes = lz4_filled_slice r.decompressed_buffer in
      let in_range : ltb r.decompressed_buffer.len r.position ≡ false = ground arith in
      (
        record r {
          position = r.position + length f;
          stats = record (r.stats) { decode_stats = read_one r.stats.decode_stats };
        },
        rw (in_range, slice, i.decodes rest r.stats.decode_stats) refl,
        omega (
          arith,
          ap length slice,
          length-append f rest,
          length-drop r.position bytes,
          length-take r.decompressed_buffer.len r.decompressed_buffer.buffer,
        ),
        sym (drop-drop (r.position + length f) r.position (length f) bytes refl)
            ∙ ap (drop (length f)) slice
            ∙ drop-length-append f rest,
      )

  -- Bytes that are left in the decompressed frame are decoded first.
  still-decoding :
      (r : Lz4FramedRead)
      → 0 < length (drop r.position (lz4_filled_slice r.decompressed_buffer))
      → step_lz4 lib block (r, decompression) ≡ Run.done ((r, decoding), again)
  unfolding step_lz4 lz4_filled_slice
  still-decoding r h =
      let more : (r.position == r.decompressed_buffer.len) ≡ false = ground (
        arith,
        length-drop r.position (lz4_filled_slice r.decompressed_buffer),
        length-take r.decompressed_buffer.len r.decompressed_buffer.buffer,
      ) in
      rw more refl

  -- When all is decoded, the next frame is decompressed and consumed.
  decompression-next :
      (r : Lz4FramedRead) (bs frame tail : List ℕ) (space : ℕ)
      → r.position ≡ r.decompressed_buffer.len
      → IsValid r.compressed_buffer
      → filled_slice r.compressed_buffer ≡ frame_of (length bs) frame ++ tail
      → compress_into bs space ≡ some frame
      → length bs < 2 ^ 32
      → length frame + 8 < 2 ^ 32
      → (r' : Lz4FramedRead) × (step_lz4 lib block (r, decompression)
          ≡ Run.done ((r', decoding), again))
        × (r'.position ≡ 0)
        × (lz4_filled_slice r'.decompressed_buffer ≡ bs)
  unfolding step_lz4 on_decompressed
  decompression-next r bs frame tail space done_all v slice eq small fits =
      let total = r.stats.total_uncompressed_bytes in
      let whole = length-append (frame_of (length bs) frame) tail in
      let there : length frame + 8 ≤ filled_len r.compressed_buffer = omega (
        arith,
        length-filled_slice r.compressed_buffer v,
        ap length slice,
        whole,
        length-frame_of (length bs) frame,
      ) in
      let at_end : (r.position == r.decompressed_buffer.len) ≡ true = ground arith in
      let (d, out, same, n) =
        decompress_frame_lem block r.decompressed_buffer bs frame tail space total small fits eq in
      let (b, taken, left, v') =
        consume_filled_keeps r.compressed_buffer (length frame + 8) v there in
      (
        record {
          compressed_buffer = b;
          decompressed_buffer = d;
          stats = record (r.stats) { total_uncompressed_bytes = total + length bs };
          position = 0;
        },
        rw (at_end, slice, out, taken) refl,
        refl,
        same,
      )

  -- A reader that holds an envelope gives it and keeps the rest; two rounds are enough.
  pub read_next :
      (fuel : ℕ) (r : FramedRead) (e : NetworkEnvelope AnyMessage RequestId)
      (es : List (NetworkEnvelope AnyMessage RequestId))
      → Holds r (e ∷ es)
      → (r' : FramedRead) × (read lib block (suc (suc fuel)) r
          ≡ returned r' (some (FramedReadState.done e)))
        × Holds r' es
  unfolding read read_none read_lz4 run
  read_next fuel _ e es (plain r _ _ tail v slice (a_frame _ f _ bs i more)) =
      let (r', eq, v', left) =
        step_none-Frames r e f (bs ++ tail) v (slice ∙ append_assoc f bs tail) i in
      (FramedRead.none r', rw eq refl, plain r' es bs tail v' left more)
  read_next fuel _ e es (decompressed r _ inside fs) =
      let (f, rest, slice, i, more) = Frames-cons lib fs in
      let some_left : 0 < length (drop r.position (lz4_filled_slice r.decompressed_buffer)) =
        omega (arith, ap length slice, length-append f rest, frame_nonempty e f i) in
      let (r', eq, inside', left) = decoding-Frames r e f rest inside slice i in
      (
        FramedRead.lz4 r',
        rw (still-decoding r some_left, eq) refl,
        decompressed r' es inside' (subst (Frames lib es) (sym left) more),
      )
  read_next fuel _ e es (compressed r _ bs frame tail space done_all v slice eq small fits fs) =
      let (f, rest, parts, i, more) = Frames-cons lib fs in
      let (r₁, first, start, out) =
        decompression-next r bs frame tail space done_all v slice eq small fits in
      let whole : drop r₁.position (lz4_filled_slice r₁.decompressed_buffer) ≡ f ++ rest =
        rw (start, out) parts in
      let (r₂, second, inside, left) = decoding-Frames r₁ e f rest (omega (arith, start)) whole i in
      (
        FramedRead.lz4 r₂,
        rw (first, second) refl,
        decompressed r₂ es inside (subst (Frames lib es) (sym left) more),
      )
