-- ===== src/Network/Frame/Writing.antt =====
-- elfo-network/src/frame/write.rs: a run of writes, and the envelopes that it leaves in the buffer.
use elfo.Network.Codec.Encode.{encode}
use elfo.Base.{
  ◌≡◌, refl, sym, subst, Bool, true, not, List, [], ◌∷◌, ◌++◌, append-nil, append_assoc, Run, ◌>>=◌,
  >>=-eq-done, done_injective,
}
use elfo.Network.Codec.{Libraries, NetworkEnvelope}
use elfo.Network.Codec.Frame.{IsValid as IsValidEnvelope}
use elfo.Network.Frame.Write.{
  NoneFramedWrite, FramedWrite, WriteResult, write_buffer, write_lz4, write_none, write,
}
use elfo.Network.Frame.Fifo.{gathered, Frames, queue_after, write-Frames}

-- A writer whose buffer is not one that was finalized.
abbrev pub is_open : FramedWrite → Bool
is_open (FramedWrite.lz4 w) = true
is_open (FramedWrite.none w) = not w.after_finalize

module _ (lib : Libraries) where
  open lib use {AnyMessage, RequestId}

  -- The envelopes that are written, without those that are skipped.
  abbrev pub accepted :
      WriteResult
      → NetworkEnvelope AnyMessage RequestId
      → List (NetworkEnvelope AnyMessage RequestId)
      → List (NetworkEnvelope AnyMessage RequestId)
  accepted (WriteResult.ok state) e es = e ∷ es
  accepted WriteResult.skipped e es = es

  unfoldable pub write_all :
      FramedWrite
      → List (NetworkEnvelope AnyMessage RequestId)
      → Run (FramedWrite × List (NetworkEnvelope AnyMessage RequestId))
  write_all w [] = Run.done (w, [])
  write_all w (e ∷ es) = do
    (w, r) ← write lib w e
    (w, written) ← write_all w es
    Run.done (w, accepted r e written)

  pub data AllValid : List (NetworkEnvelope AnyMessage RequestId) → Type 0 where
    none_left : AllValid []
    and_valid :
        (e : NetworkEnvelope AnyMessage RequestId)
        (es : List (NetworkEnvelope AnyMessage RequestId))
        → IsValidEnvelope lib e
        → AllValid es
        → AllValid (e ∷ es)

  queue_after-accepted :
      (r : WriteResult) (q : List (NetworkEnvelope AnyMessage RequestId))
      (e : NetworkEnvelope AnyMessage RequestId) (es : List (NetworkEnvelope AnyMessage RequestId))
      → queue_after lib r q e ++ es ≡ q ++ accepted r e es
  queue_after-accepted (WriteResult.ok state) q e es = append_assoc q (e ∷ []) es
  queue_after-accepted WriteResult.skipped q e es = refl

  write-open :
      (w : FramedWrite) (e : NetworkEnvelope AnyMessage RequestId) {out : FramedWrite × WriteResult}
      → write lib w e ≡ Run.done out
      → is_open out.0 ≡ true
  unfolding write write_none
  write-open (FramedWrite.lz4 w) e h =
      let (p, h₁, h₂) = >>=-eq-done (write_lz4 lib w e) _ h in
      subst (λ (p : FramedWrite × WriteResult). is_open p.0 ≡ true) (done_injective h₂) refl
  write-open (FramedWrite.none w) e h =
      let limit = w.envelope_size_limit in
      let (p, h₁, h₂) = >>=-eq-done (write_none lib w e) _ h in
      let (q, h₃, h₄) =
        >>=-eq-done (encode lib e (write_buffer w) w.stats.encode_stats limit) _ h₁ in
      let fresh : not (p.0).after_finalize ≡ true =
        subst (λ (p : NoneFramedWrite × WriteResult). not (p.0).after_finalize ≡ true)
          (done_injective h₄) refl in
      subst (λ (p : FramedWrite × WriteResult). is_open p.0 ≡ true) (done_injective h₂) fresh

  write_all-open :
      (w : FramedWrite) (es : List (NetworkEnvelope AnyMessage RequestId))
      (out : FramedWrite × List (NetworkEnvelope AnyMessage RequestId))
      → is_open w ≡ true
      → write_all w es ≡ Run.done out
      → is_open out.0 ≡ true
  unfolding write_all
  write_all-open w [] out o h =
      subst (λ (p : FramedWrite × List (NetworkEnvelope AnyMessage RequestId)). is_open p.0 ≡ true)
        (done_injective h) o
  write_all-open w (e ∷ es) out o h =
      let (p₁, h₁, h₂) = >>=-eq-done (write lib w e) _ h in
      let (p₂, h₃, h₄) = >>=-eq-done (write_all p₁.0 es) _ h₂ in
      subst (λ (p : FramedWrite × List (NetworkEnvelope AnyMessage RequestId)). is_open p.0 ≡ true)
        (done_injective h₄) (write_all-open p₁.0 es p₂ (write-open w e h₁) h₃)

  -- The first write opens the writer.
  pub written-open :
      (w : FramedWrite) (e : NetworkEnvelope AnyMessage RequestId)
      (es : List (NetworkEnvelope AnyMessage RequestId))
      (out : FramedWrite × List (NetworkEnvelope AnyMessage RequestId))
      → write_all w (e ∷ es) ≡ Run.done out
      → is_open out.0 ≡ true
  unfolding write_all
  written-open w e es out h =
      let (p₁, h₁, h₂) = >>=-eq-done (write lib w e) _ h in
      let (p₂, h₃, h₄) = >>=-eq-done (write_all p₁.0 es) _ h₂ in
      subst (λ (p : FramedWrite × List (NetworkEnvelope AnyMessage RequestId)). is_open p.0 ≡ true)
        (done_injective h₄) (write_all-open p₁.0 es p₂ (write-open w e h₁) h₃)

  pub write_all-Frames :
      (w : FramedWrite) (q es : List (NetworkEnvelope AnyMessage RequestId))
      (out : FramedWrite × List (NetworkEnvelope AnyMessage RequestId))
      → AllValid es
      → Frames lib q (gathered w)
      → write_all w es ≡ Run.done out
      → Frames lib (q ++ out.1) (gathered out.0)
  unfolding write_all
  write_all-Frames w q _ out none_left fs h =
      subst
        (λ (p : FramedWrite × List (NetworkEnvelope AnyMessage RequestId)).
          Frames lib (q ++ p.1) (gathered p.0))
        (done_injective h) (subst (λ l. Frames lib l (gathered w)) (sym (append-nil q)) fs)
  write_all-Frames w q _ out (and_valid e es v more) fs h =
      let ((w₁, r), h₁, h₂) = >>=-eq-done (write lib w e) _ h in
      let ((w₂, written), h₃, h₄) = >>=-eq-done (write_all w₁ es) _ h₂ in
      let fs' =
        write_all-Frames w₁ (queue_after lib r q e) es (w₂, written) more
          (write-Frames lib w q e v fs h₁) h₃ in
      subst
        (λ (p : FramedWrite × List (NetworkEnvelope AnyMessage RequestId)).
          Frames lib (q ++ p.1) (gathered p.0))
        (done_injective h₄)
        (subst (λ l. Frames lib l (gathered w₂)) (queue_after-accepted r q e written) fs')
