-- ===== src/Network/Frame/Delivery.antt =====
-- elfo-network/src/frame: a writer and a reader of the same strategy. A run of writes is finalized,
-- its bytes come to the reader, and the reader is read once for each envelope.
use mathlib.Core.Option
use elfo.Network.Frame.Lz4RoundTrip.{frame_of, compress_frame_lem}
use elfo.Base.Loop.{Outcome, returned}
use elfo.Network.ReadBuffer.{filled_slice, IsValid}
use elfo.Network.Frame.Lz4.{Lz4}
use elfo.Network.Frame.Read.{Lz4FramedRead, NoneFramedRead, ReadResult}
use elfo.Network.Frame.FramedRead.{FramedRead, read}
use elfo.Network.Frame.Holding.{Holds, read_next}
use elfo.Network.Frame.{FramedReadState}
use elfo.Base.{
  ℕ, zero, suc, ◌+◌, ◌^◌, ◌<◌, ◌≡◌, refl, sym, ap, subst, ◌∙◌, true, Option, some, List, [], ◌∷◌,
  ◌++◌, arith, length, Run,
}
use elfo.Network.Codec.{Libraries, NetworkEnvelope}
use elfo.Network.Frame.Write.{
  Lz4FramedWrite, NoneFramedWrite, FramedWrite, write_buffer, finalize_lz4, finalize_none, finalize,
}
use elfo.Network.Frame.Fifo.{gathered, Frames, no_frames}
use elfo.Network.Frame.Writing.{is_open, write_all, AllValid, written-open, write_all-Frames}

some_injective : {A : Type 0} {a b : A} → Option.some a ≡ Option.some b → a ≡ b
some_injective h = cc

module _ (lib : Libraries) (block : Lz4) where
  open lib use {AnyMessage, RequestId}
  open block use {get_maximum_output_size}

  -- The bytes of a writer have come to a reader of its strategy that has read all before them.
  pub data Receives (bytes : List ℕ) : FramedWrite → FramedRead → Type 0 where
    plain :
        (w : NoneFramedWrite) (r : NoneFramedRead) (tail : List ℕ)
        → IsValid r.buffer
        → filled_slice r.buffer ≡ bytes ++ tail
        → Receives bytes (FramedWrite.none w) (FramedRead.none r)
    compressed :
        (w : Lz4FramedWrite) (r : Lz4FramedRead) (tail : List ℕ)
        → length w.decompressed_buffer < 2 ^ 32
        → get_maximum_output_size (length w.decompressed_buffer) + 8 < 2 ^ 32
        → r.position ≡ r.decompressed_buffer.len
        → IsValid r.compressed_buffer
        → filled_slice r.compressed_buffer ≡ bytes ++ tail
        → Receives bytes (FramedWrite.lz4 w) (FramedRead.lz4 r)

  finalize-Holds :
      (w : FramedWrite) (r : FramedRead) (es : List (NetworkEnvelope AnyMessage RequestId))
      (bytes : List ℕ) (w' : FramedWrite)
      → Frames lib es (gathered w)
      → is_open w ≡ true
      → finalize block w ≡ (w', some bytes)
      → Receives bytes w r
      → Holds lib block r es × (gathered w' ≡ [])
  unfolding finalize finalize_lz4 finalize_none
  finalize-Holds _ _ es bytes w' fs o h (plain w r tail v slice) =
      let same : w.buffer ≡ bytes = some_injective (ap (λ p. p.1) h) in
      let kept : write_buffer w ≡ bytes = ground (arith, o, same) in
      (
        Holds.plain r es bytes tail v slice (subst (Frames lib es) kept fs),
        sym (ap (λ p. gathered p.0) h),
      )
  finalize-Holds _ _ es bytes w' fs o h (compressed w r tail small fits start v slice) =
      let input = w.decompressed_buffer in
      let (frame, space, b, packed, short, framed, out, len) =
        compress_frame_lem block w.compressed_buffer input w.stats.total_uncompressed_bytes small
          fits in
      let h' = rw framed at h in
      let same : frame_of (length input) frame ≡ bytes =
        sym out ∙ some_injective (ap (λ p. p.1) h') in
      (
        Holds.compressed r es input frame tail space start v
            (slice ∙ ap (λ bs. bs ++ tail) (sym same)) packed small short fs,
        sym (ap (λ p. gathered p.0) h'),
      )

  -- Reading as often as there are envelopes.
  abbrev received :
      Outcome FramedRead (ReadResult lib)
      → (FramedRead → Option (List (NetworkEnvelope AnyMessage RequestId) × FramedRead))
      → Option (List (NetworkEnvelope AnyMessage RequestId) × FramedRead)
  received (returned r (some (FramedReadState.done e))) go = Option.map (λ p. (e ∷ p.0, p.1)) (go r)
  received other go = Option.none

  unfoldable pub read_many :
      ℕ → ℕ → FramedRead → Option (List (NetworkEnvelope AnyMessage RequestId) × FramedRead)
  read_many zero fuel r = some ([], r)
  read_many (suc n) fuel r = received (read lib block fuel r) (read_many n fuel)

  read_many-Holds :
      (fuel : ℕ) (r : FramedRead) (es : List (NetworkEnvelope AnyMessage RequestId))
      → Holds lib block r es
      → (r' : FramedRead) × (read_many (length es) (suc (suc fuel)) r ≡ some (es, r'))
        × Holds lib block r' []
  unfolding read_many
  read_many-Holds fuel r [] h = (r, refl, h)
  read_many-Holds fuel r (e ∷ es) h =
      let (r₁, eq, h₁) = read_next lib block fuel r e es h in
      let (r₂, eq₂, h₂) = read_many-Holds fuel r₁ es h₁ in (r₂, rw (eq, eq₂) refl, h₂)

  -- Some valid envelopes, at least one, are written to a writer that has gathered nothing, and the
  -- frame is finalized; a reader of the same strategy that has read all before then reads, for
  -- either strategy, just the envelopes that were not skipped, in the order of the writes, with
  -- fuel of two rounds for each. The writer has again gathered nothing, so this can be repeated.
  -- With compression the frame and its input are less than 4 GiB.
  pub written_is_read :
      (w : FramedWrite) (r : FramedRead) (fuel : ℕ) (e : NetworkEnvelope AnyMessage RequestId)
      (es : List (NetworkEnvelope AnyMessage RequestId)) {w₁ w₂ : FramedWrite}
      {written : List (NetworkEnvelope AnyMessage RequestId)} {bytes : List ℕ}
      → gathered w ≡ []
      → AllValid lib (e ∷ es)
      → write_all lib w (e ∷ es) ≡ Run.done (w₁, written)
      → finalize block w₁ ≡ (w₂, some bytes)
      → Receives bytes w₁ r
      → (r' : FramedRead) × (read_many (length written) (suc (suc fuel)) r ≡ some (written, r'))
        × Holds lib block r' []
        × (gathered w₂ ≡ [])
  written_is_read w r fuel e es {w₁ = w₁} {w₂ = w₂} {written = written} {bytes = bytes} nothing
        valid h f i =
      let fs =
        write_all-Frames lib w [] (e ∷ es) (w₁, written) valid
          (subst (Frames lib []) (sym nothing) no_frames) h in
      let o = written-open lib w e es (w₁, written) h in
      let (holds, ready) = finalize-Holds w₁ r written bytes w₂ fs o f i in
      let (r', eq, left) = read_many-Holds fuel r written holds in (r', eq, left, ready)
