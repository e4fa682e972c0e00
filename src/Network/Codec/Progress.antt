-- ===== src/Network/Codec/Progress.antt =====
-- Errors of the codec: what the buffer holds after one, and how much input the decoder consumes.
use Prim.Native.Nat.{bit_and}
use elfo.Base.{
  ℕ, ◌+◌, ◌%◌, ◌^◌, ◌≤◌, ◌≡◌, sym, ap, ◌∙◌, ◌⊎◌, inl, inr, Option, none, some, List, ◌∷◌, ◌++◌,
  arith, ltb, if◌then◌else◌, length, take, take-length-append, done, >>=-eq-done, done_injective,
}
use elfo.Base.Bytes.{write_le, read_le}
use elfo.Network.Codec.Decode.{
  DecodeStats, DecodeState, need_more_data, get_addr, get_trace_id, get_payload, do_decode,
  finish_decode, decode_sized, decode,
}
use elfo.Network.Codec.Encode.{
  EncodeStats, EncodeResult, encoded, do_encode, left_over, finish, encode,
}
use elfo.Network.Codec.{Libraries, kind_mask, NetworkEnvelope}

module _ (lib : Libraries) where
  open lib use {AnyMessage, RequestId}

  -- What is known of the buffer and the counters after an attempt.
  abbrev Attempted : List ℕ → List ℕ → EncodeStats → EncodeStats → EncodeResult → Type 0
  Attempted dst dst' stats stats' r =
      ((r ≡ encoded)
        × (take (length dst) dst' ≡ dst)
        × (stats' ≡ record stats { total_messages_encoded = stats.total_messages_encoded + 1 }))
      ⊎ ((r ≡ EncodeResult.skipped)
          × (dst' ≡ dst)
          × (stats' ≡ record stats {
            total_messages_encoding_skipped = stats.total_messages_encoding_skipped + 1;
          }))

  finish_keeps_buffer :
      (o : Option (List ℕ)) (dst left : List ℕ) (stats : EncodeStats) {dst' : List ℕ}
      {stats' : EncodeStats} {r : EncodeResult}
      → finish lib dst stats left o ≡ (dst', stats', r)
      → Attempted dst dst' stats stats' r
  unfolding finish
  finish_keeps_buffer none dst left stats h =
      let d = ap (λ p. p.0) h in
      let s = ap (λ p. p.1) h in
      let r = ap (λ p. p.2) h in
      inr (sym r, sym d ∙ take-length-append dst (write_le 4 0 ++ left), sym s)
  finish_keeps_buffer (some body) dst left stats h =
      let d = ap (λ p. p.0) h in
      let s = ap (λ p. p.1) h in
      let r = ap (λ p. p.2) h in
      inl (
        sym r,
        ap (take (length dst)) (sym d)
            ∙ take-length-append dst (write_le 4 ((4 + length body) % 2 ^ 32) ++ body),
        sym s,
      )

  -- A message that is skipped leaves the buffer as it was, whatever has been written before the
  -- failure, and adds one to the counter of skipped messages alone; one that is encoded leaves what
  -- was in the buffer in front, and adds one to the counter of encoded messages alone.
  pub encode_keeps_buffer :
      (e : NetworkEnvelope AnyMessage RequestId) (dst : List ℕ) (limit : Option ℕ)
      (stats : EncodeStats) {dst' : List ℕ} {stats' : EncodeStats} {r : EncodeResult}
      → encode lib e dst stats limit ≡ done (dst', stats', r)
      → ((r ≡ encoded)
          × (take (length dst) dst' ≡ dst)
          × (stats' ≡ record stats { total_messages_encoded = stats.total_messages_encoded + 1 }))
        ⊎ ((r ≡ EncodeResult.skipped)
            × (dst' ≡ dst)
            × (stats' ≡ record stats {
              total_messages_encoding_skipped = stats.total_messages_encoding_skipped + 1;
            }))
  unfolding encode
  encode_keeps_buffer e dst limit stats h =
      let (r, er, e₁) = >>=-eq-done (do_encode lib e limit) _ h in
      finish_keeps_buffer r dst (left_over lib e limit) stats (done_injective e₁)

  -- The bytes that a reader may drop, and the size that it must wait for.
  abbrev pub consumed : DecodeState AnyMessage RequestId → ℕ
  consumed (need_more_data n) = 0
  consumed (DecodeState.skipped n d) = n
  consumed (DecodeState.done n e) = n

  abbrev pub awaited : DecodeState AnyMessage RequestId → ℕ
  awaited (need_more_data n) = n
  awaited (DecodeState.skipped n d) = 0
  awaited (DecodeState.done n e) = 0

  -- Once the size is there, the decoder waits for exactly the bytes that it announces, and when
  -- they are there consumes exactly these, whether it decodes or skips them, and counts one message.
  pub decode_consumes :
      (input : List ℕ) (stats : DecodeStats) {size : ℕ} {body : List ℕ}
      → read_le 4 input ≡ some (size, body)
      → let (state, stats') = decode lib input stats in
        (consumed state ≡ (if ltb (length input) size then 0 else size))
        × (awaited state ≡ (if ltb (length input) size then size else 0))
        × (stats'.total_messages_decoded + stats'.total_messages_decoding_skipped
            ≡ stats.total_messages_decoded
              + stats.total_messages_decoding_skipped
              + (if ltb (length input) size then 0 else 1))
  unfolding decode decode_sized finish_decode
  decode_consumes input stats h = ground arith

  -- Input whose size field is zero and whose kind is none of the six makes the decoder skip zero
  -- bytes, without details, whatever follows; so a reader that goes on behind the skipped bytes
  -- sees the same input again.
  pub decode_no_progress :
      (flags : ℕ) (bs : List ℕ) (stats : DecodeStats)
      → 6 ≤ bit_and flags kind_mask
      → (decode lib (0 ∷ 0 ∷ 0 ∷ 0 ∷ flags ∷ bs) stats).0 ≡ DecodeState.skipped 0 none
  unfolding decode decode_sized finish_decode do_decode get_payload get_addr get_trace_id read_le
  decode_no_progress flags bs stats h = ground arith
