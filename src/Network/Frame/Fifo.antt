-- ===== src/Network/Frame/Fifo.antt =====
-- elfo-network/src/frame: what one side writes to a frame the other side reads, in that order. The
-- abstract view of a writer and of a reader is the queue of the envelopes in its buffer.
use elfo.Network.Codec.RoundTrip.{encode_round_trip}
use elfo.Network.Codec.Progress.{encode_keeps_buffer}
use elfo.Base.{
  ℕ, ◌+◌, ◌≡◌, refl, sym, ap, subst, ◌∙◌, inl, inr, Bool, Option, List, [], ◌∷◌, ◌++◌, append-nil,
  append_assoc, length, drop, drop-length-append, Run, >>=-eq-done, done_injective,
}
use elfo.Network.Codec.{Libraries, NetworkEnvelope}
use elfo.Network.Codec.Encode.{EncodeStats, EncodeResult, encoded, encode}
use elfo.Network.Codec.Decode.{DecodeStats, DecodeState, decode}
use elfo.Network.Frame.Write.{
  Lz4FramedWrite, NoneFramedWrite, FramedWrite, WriteResult, frame_state, write_buffer, write_lz4,
  write_none, write,
}
use elfo.Network.Codec.Frame.{IsValid as IsValidEnvelope}

append_cancel : {A : Type 0} (xs ys zs : List A) → xs ++ ys ≡ xs ++ zs → ys ≡ zs
append_cancel xs ys zs e =
    sym (drop-length-append xs ys) ∙ ap (drop (length xs)) e ∙ drop-length-append xs zs

-- The bytes that a writer has gathered.
abbrev pub gathered : FramedWrite → List ℕ
gathered (FramedWrite.lz4 w) = w.decompressed_buffer
gathered (FramedWrite.none w) = write_buffer w

module _ (lib : Libraries) where
  open lib use {AnyMessage, RequestId}

  -- The bytes of a single envelope: with any bytes behind, they decode to it.
  pub record IsFrame (e : NetworkEnvelope AnyMessage RequestId) (f : List ℕ) : Type 0 where
    pub decodes :
        (rest : List ℕ) (stats : DecodeStats)
        → decode lib (f ++ rest) stats ≡ (
          DecodeState.done (length f) e,
          record stats { total_messages_decoded = stats.total_messages_decoded + 1 },
        )

  -- The bytes of several envelopes.
  pub data Frames : List (NetworkEnvelope AnyMessage RequestId) → List ℕ → Type 0 where
    no_frames : Frames [] []
    a_frame :
        (e : NetworkEnvelope AnyMessage RequestId) (f : List ℕ)
        (es : List (NetworkEnvelope AnyMessage RequestId)) (bs : List ℕ)
        → IsFrame e f
        → Frames es bs
        → Frames (e ∷ es) (f ++ bs)

  pub Frames-cons :
      {e : NetworkEnvelope AnyMessage RequestId} {es : List (NetworkEnvelope AnyMessage RequestId)}
      {bs : List ℕ}
      → Frames (e ∷ es) bs
      → (f : List ℕ) × (rest : List ℕ) × (bs ≡ f ++ rest) × IsFrame e f × Frames es rest
  Frames-cons (a_frame _ f _ rest i more) = (f, rest, refl, i, more)

  Frames-append :
      (es : List (NetworkEnvelope AnyMessage RequestId)) (bs : List ℕ)
      (e : NetworkEnvelope AnyMessage RequestId) (f : List ℕ)
      → Frames es bs
      → IsFrame e f
      → Frames (es ++ e ∷ []) (bs ++ f)
  Frames-append _ _ e f no_frames i =
      subst (Frames (e ∷ [])) (append-nil f) (a_frame e f [] [] i no_frames)
  Frames-append _ _ e f (a_frame x g es bs j more) i =
      subst (Frames (x ∷ (es ++ e ∷ []))) (sym (append_assoc g bs f))
        (a_frame x g (es ++ e ∷ []) (bs ++ f) j (Frames-append es bs e f more i))

  -- The queue after a write.
  abbrev pub queue_after :
      WriteResult
      → List (NetworkEnvelope AnyMessage RequestId)
      → NetworkEnvelope AnyMessage RequestId
      → List (NetworkEnvelope AnyMessage RequestId)
  queue_after (WriteResult.ok state) es e = es ++ e ∷ []
  queue_after WriteResult.skipped es e = es

  encode-Frames :
      (es : List (NetworkEnvelope AnyMessage RequestId)) (e : NetworkEnvelope AnyMessage RequestId)
      (dst : List ℕ) (stats : EncodeStats) (limit : Option ℕ) (full : Bool) {dst' : List ℕ}
      {stats' : EncodeStats} (r : EncodeResult)
      → IsValidEnvelope lib e
      → Frames es dst
      → encode lib e dst stats limit ≡ Run.done (dst', stats', r)
      → Frames (queue_after (frame_state r full) es e) dst'
  encode-Frames es e dst stats limit full encoded v fs h =
      let none_read : DecodeStats = record {
        total_messages_decoded = 0;
        total_messages_decoding_skipped = 0;
      } in
      let (f, e₁, counted, once) = encode_round_trip lib e dst [] limit stats none_read v h in
      subst (Frames (es ++ e ∷ [])) (sym e₁) (
        Frames-append es dst e f fs (record {
          decodes = λ rest read.
              let (g, e₂, counted_too, decoded) =
                encode_round_trip lib e dst rest limit stats read v h in
              let same : g ≡ f = append_cancel dst g f (sym e₂ ∙ e₁) in
              subst
                (λ (x : List ℕ). decode lib (x ++ rest) read ≡ (
                  DecodeState.done (length x) e,
                  record read { total_messages_decoded = read.total_messages_decoded + 1 },
                ))
                same decoded;
        }))
  encode-Frames es e dst stats limit full EncodeResult.skipped v fs h =
      elim (encode_keeps_buffer lib e dst limit stats h) [
        | inl (r, front, counted) ↦ absurd cc
        | inr (r, same, counted) ↦ subst (Frames es) (sym same) fs
      ]

  write_lz4-Frames :
      (w : Lz4FramedWrite) (es : List (NetworkEnvelope AnyMessage RequestId))
      (e : NetworkEnvelope AnyMessage RequestId) (out : Lz4FramedWrite × WriteResult)
      → IsValidEnvelope lib e
      → Frames es w.decompressed_buffer
      → write_lz4 lib w e ≡ Run.done out
      → Frames (queue_after out.1 es e) (out.0).decompressed_buffer
  unfolding write_lz4
  write_lz4-Frames w es e out v fs h =
      let limit = w.envelope_size_limit in
      let ((dst, stats, r), h₁, e₁) =
        >>=-eq-done (encode lib e w.decompressed_buffer w.stats.encode_stats limit) _ h in
      subst
        (λ (p : Lz4FramedWrite × WriteResult).
          Frames (queue_after p.1 es e) (p.0).decompressed_buffer)
        (done_injective e₁)
        (encode-Frames es e w.decompressed_buffer w.stats.encode_stats limit _ r v fs h₁)

  write_none-Frames :
      (w : NoneFramedWrite) (es : List (NetworkEnvelope AnyMessage RequestId))
      (e : NetworkEnvelope AnyMessage RequestId) (out : NoneFramedWrite × WriteResult)
      → IsValidEnvelope lib e
      → Frames es (write_buffer w)
      → write_none lib w e ≡ Run.done out
      → Frames (queue_after out.1 es e) (write_buffer out.0)
  unfolding write_none
  write_none-Frames w es e out v fs h =
      let limit = w.envelope_size_limit in
      let ((dst, stats, r), h₁, e₁) =
        >>=-eq-done (encode lib e (write_buffer w) w.stats.encode_stats limit) _ h in
      subst
        (λ (p : NoneFramedWrite × WriteResult). Frames (queue_after p.1 es e) (write_buffer p.0))
        (done_injective e₁)
        (encode-Frames es e (write_buffer w) w.stats.encode_stats limit _ r v fs h₁)

  -- A write puts the envelope at the end of the queue, or leaves the queue as it was if the
  -- envelope is skipped.
  pub write-Frames :
      (w : FramedWrite) (es : List (NetworkEnvelope AnyMessage RequestId))
      (e : NetworkEnvelope AnyMessage RequestId) {w' : FramedWrite} {r : WriteResult}
      → IsValidEnvelope lib e
      → Frames es (gathered w)
      → write lib w e ≡ Run.done (w', r)
      → Frames (queue_after r es e) (gathered w')
  unfolding write
  write-Frames (FramedWrite.lz4 w) es e v fs h =
      let (out, h₁, e₁) = >>=-eq-done (write_lz4 lib w e) _ h in
      subst (λ (p : FramedWrite × WriteResult). Frames (queue_after p.1 es e) (gathered p.0))
        (done_injective e₁) (write_lz4-Frames w es e out v fs h₁)
  write-Frames (FramedWrite.none w) es e v fs h =
      let (out, h₁, e₁) = >>=-eq-done (write_none lib w e) _ h in
      subst (λ (p : FramedWrite × WriteResult). Frames (queue_after p.1 es e) (gathered p.0))
        (done_injective e₁) (write_none-Frames w es e out v fs h₁)
