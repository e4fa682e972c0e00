-- ===== src/Network/Codec/RoundTrip.antt =====
-- What `encode` writes, `decode` reads.
use mathlib.Core.Option
use native.Mathlib.Nat.{mod-eq_of_lt}
use elfo.Base.{
  ℕ, ◌+◌, ◌%◌, ◌^◌, ◌≤◌, ◌<◌, ◌≡◌, refl, sym, ap, subst, ◌∙◌, false, Option, none, some, List, [],
  ◌++◌, append-nil, append_assoc, arith, ltb, length, length-append, Run, done, ◌>>=◌, >>=-eq-done,
  done_injective,
}
use elfo.Base.Bytes.{write_le, length-write_le, read_le-write_le}
use elfo.Network.Codec.Decode.{DecodeStats, DecodeState, finish_decode, decode_sized, decode}
use elfo.Core.RequestTable.{Response, err}
use elfo.Network.Codec.Encode.{
  EncodeStats, encoded, request_id_of, put_request_id, header, put_message, do_encode, finish,
  encode,
}
use elfo.Network.Codec.Fields.{map_is_some, put_message-length}
use elfo.Network.Codec.Frame.{IsValid, Puts, do_decode-put}
use elfo.Network.Codec.{
  Libraries, NetworkAddr, Payload, regular, request_any, request_all, response, NetworkEnvelope,
}

module _ (lib : Libraries) where
  open lib use {AnyMessage, RequestId, to_ffi}

  length-request_id : (r : Option RequestId) → length (put_request_id lib r) ≤ 8
  length-request_id none = omega arith
  length-request_id (some r) = omega (arith, length-write_le 8 (to_ffi r))

  length-header : (e : NetworkEnvelope AnyMessage RequestId) → length (header lib e) ≤ 33
  unfolding header
  length-header e = simp length-append (
      omega (
        arith,
        length-write_le 8 e.sender,
        length-write_le 8 e.recipient,
        length-write_le 8 e.trace_id,
        length-request_id (request_id_of lib e.payload),
      ))

  put_message_of :
      (h : List ℕ) (m : AnyMessage) (limit : Option ℕ) (body : List ℕ)
      → length h ≤ 33
      → (put_message lib m (4 + length h) limit >>= λ r. done (Option.map (λ bs. h ++ bs) r))
        ≡ done (some body)
      → (bs : List ℕ) × (put_message lib m (4 + length h) limit ≡ done (some bs))
        × (body ≡ h ++ bs)
        × (4 + length body < 2 ^ 32)
  put_message_of h m limit body small e =
      let (r, er, e₁) = >>=-eq-done (put_message lib m (4 + length h) limit) _ e in
      let (bs, eb, e₂) = map_is_some r (λ bs. h ++ bs) (done_injective e₁) in
      let written = subst (λ o. put_message lib m (4 + length h) limit ≡ done o) eb er in
      (
        bs,
        written,
        sym e₂,
        omega (
          arith,
          put_message-length lib m (4 + length h) limit bs (omega arith) written,
          ap length e₂,
          length-append h bs,
        ),
      )

  finish_encoded :
      (r : Option (List ℕ)) (dst left : List ℕ) (stats : EncodeStats) {dst' : List ℕ}
      {stats' : EncodeStats}
      → finish lib dst stats left r ≡ (dst', stats', encoded)
      → (body : List ℕ) × (r ≡ some body)
        × (dst' ≡ dst ++ (write_le 4 ((4 + length body) % 2 ^ 32) ++ body))
        × (stats' ≡ record stats { total_messages_encoded = stats.total_messages_encoded + 1 })
  unfolding finish
  finish_encoded r dst left stats h = ground arith

  no_message :
      (h body : List ℕ)
      → length h ≤ 33
      → ◌≡◌ {A = Run (Option (List ℕ))} (done (some h)) (done (some body))
      → (bs : List ℕ) × (bs ≡ []) × (body ≡ h ++ bs) × (4 + length body < 2 ^ 32)
  no_message h body small e =
      let e₁ : h ≡ body = cc in ([], refl, sym (append-nil h ∙ e₁), omega (arith, ap length e₁))

  do_encode_parts :
      (s t : NetworkAddr) (tr : ℕ) (p : Payload AnyMessage RequestId) (limit : Option ℕ)
      (body : List ℕ)
      → let e : NetworkEnvelope AnyMessage RequestId = record {
        sender = s;
        recipient = t;
        trace_id = tr;
        payload = p;
      } in
        do_encode lib e limit ≡ done (some body)
        → (bs : List ℕ) × Puts lib p (4 + length (header lib e)) limit bs
          × (body ≡ header lib e ++ bs)
          × (4 + length body < 2 ^ 32)
  unfolding do_encode
  do_encode_parts s t tr (regular m) limit body h =
      put_message_of _ m limit body (length-header _) h
  do_encode_parts s t tr (request_any r m) limit body h =
      put_message_of _ m limit body (length-header _) h
  do_encode_parts s t tr (request_all r m) limit body h =
      put_message_of _ m limit body (length-header _) h
  do_encode_parts s t tr (response r (Response.ok m) last) limit body h =
      put_message_of _ m limit body (length-header _) h
  do_encode_parts s t tr (response r (err x) last) limit body h =
      no_message _ body (length-header _) h

  -- The frame of a valid envelope, with any bytes behind it.
  decode_frame :
      (e : NetworkEnvelope AnyMessage RequestId) (written : ℕ) (limit : Option ℕ) (bs rest : List ℕ)
      (stats : DecodeStats)
      → IsValid lib e
      → Puts lib e.payload written limit bs
      → 4 + length (header lib e ++ bs) < 2 ^ 32
      → let body = header lib e ++ bs in
        let size = 4 + length body in
        decode lib (write_le 4 size ++ (body ++ rest)) stats ≡ (
          DecodeState.done size e,
          record stats { total_messages_decoded = stats.total_messages_decoded + 1 },
        )
  unfolding decode decode_sized finish_decode
  decode_frame e written limit bs rest stats v h small =
      let body = header lib e ++ bs in
      let size = 4 + length body in
      let whole : ltb (length (write_le 4 size ++ (body ++ rest))) size ≡ false =
        rw
          (
            length-append (write_le 4 size) (body ++ rest),
            length-append body rest,
            length-write_le 4 size,
          )
          (ground arith) in
      rw (read_le-write_le 4 size (body ++ rest) small, decode)
        (rw (whole, decode_sized)
          (rw (append_assoc (header lib e) bs rest)
            (rw (do_decode-put lib e written limit bs rest v h))))

  decode_framed :
      (e : NetworkEnvelope AnyMessage RequestId) (written : ℕ) (limit : Option ℕ)
      (body bs rest : List ℕ) (stats : DecodeStats)
      → IsValid lib e
      → Puts lib e.payload written limit bs
      → body ≡ header lib e ++ bs
      → 4 + length body < 2 ^ 32
      → let frame = write_le 4 (4 + length body) ++ body in
        decode lib (frame ++ rest) stats ≡ (
          DecodeState.done (length frame) e,
          record stats { total_messages_decoded = stats.total_messages_decoded + 1 },
        )
  decode_framed e written limit body bs rest stats v h parts small =
      let size = 4 + length body in
      rw
        (
          append_assoc (write_le 4 size) body rest,
          length-append (write_le 4 size) body,
          length-write_le 4 size,
        )
        (subst
          (λ (b : List ℕ). decode lib (write_le 4 (4 + length b) ++ (b ++ rest)) stats ≡ (
            DecodeState.done (4 + length b) e,
            record stats { total_messages_decoded = stats.total_messages_decoded + 1 },
          ))
          (sym parts)
          (decode_frame e written limit bs rest stats v h
            (subst (λ (b : List ℕ). 4 + length b < 2 ^ 32) parts small)))

  -- Whatever envelope is encoded without an error, what is appended to the buffer decodes to the
  -- same envelope, with any bytes behind it, and the decoder consumes exactly what was appended;
  -- both sides count one message. The fields of the envelope must be valid: addresses of 64 bits
  -- that are not local, and a trace id of 64 bits that is not zero.
  pub encode_round_trip :
      (e : NetworkEnvelope AnyMessage RequestId) (dst rest : List ℕ) (limit : Option ℕ)
      (stats : EncodeStats) (decode_stats : DecodeStats) {dst' : List ℕ} {stats' : EncodeStats}
      → IsValid lib e
      → encode lib e dst stats limit ≡ done (dst', stats', encoded)
      → (frame : List ℕ) × (dst' ≡ dst ++ frame)
        × (stats' ≡ record stats { total_messages_encoded = stats.total_messages_encoded + 1 })
        × (decode lib (frame ++ rest) decode_stats ≡ (
          DecodeState.done (length frame) e,
          record decode_stats { total_messages_decoded = decode_stats.total_messages_decoded + 1 },
        ))
  unfolding encode
  encode_round_trip e dst rest limit stats decode_stats v h =
      let (r, er, e₁) = >>=-eq-done (do_encode lib e limit) _ h in
      let (body, eb, out, counted) = finish_encoded r dst _ stats (done_injective e₁) in
      let (bs, puts, parts, small) =
        do_encode_parts e.sender e.recipient e.trace_id e.payload limit body
          (subst (λ o. do_encode lib e limit ≡ done o) eb er) in
      let size = 4 + length body in
      (
        write_le 4 size ++ body,
        rw (mod-eq_of_lt small) at out,
        counted,
        decode_framed e _ limit body bs rest decode_stats v puts parts small,
      )
