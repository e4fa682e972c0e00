-- ===== src/Network/Codec/Decode.antt =====
-- elfo-network/src/codec/decode.rs. The cursor is the list of the bytes that are left; logging is
-- left out.
use Prim.Native.Nat.{bit_and}
use mathlib.Core.Option
use elfo.Base.{
  ℕ, ◌+◌, Bool, not, ◌&&◌, Option, none, some, List, [], ◌∷◌, ltb, leb, ◌==◌, if◌then◌else◌, length,
  take, drop,
}
use elfo.Base.Bytes.{read_le}
use elfo.Core.Addr.{non_zero}
use elfo.Core.RequestTable.{RequestError, failed, ignored, Response, err}
use elfo.Network.Codec.{
  Lookup, found, unknown, malformed, Libraries, flag_is_last_response, kind_mask, kind_regular,
  kind_request_any, kind_request_all, kind_response_ok, kind_response_failed, kind_response_ignored,
  NetworkAddr, network_addr-from_bits, Payload, regular, request_any, request_all, response,
  NetworkEnvelope,
}

pub record DecodeStats : Type 0 where
  pub total_messages_decoded : ℕ
  pub total_messages_decoding_skipped : ℕ

pub record EnvelopeDetails (R : Type 0) : Type 0 where
  pub kind : ℕ
  pub sender : NetworkAddr
  pub recipient : NetworkAddr
  pub request_id : Option R
  pub trace_id : ℕ

-- A `Result` whose error is the details that are known, if any (`DecodeError`).
pub data Decoded (R A : Type 0) : Type 0 where
  ok : A → Decoded R A
  error : Option (EnvelopeDetails R) → Decoded R A

infixl 5 ◌>>=◌
abbrev pub ◌>>=◌ : {R A B : Type 0} → Decoded R A → (A → Decoded R B) → Decoded R B
ok a >>= f = f a
error d >>= f = error d

-- A step that fails without details.
abbrev pub or_error : {R A : Type 0} → Option A → Decoded R A
or_error none = error none
or_error (some a) = ok a

pub data DecodeState (M R : Type 0) : Type 0 where
  need_more_data : ℕ → DecodeState M R
  skipped : ℕ → Option (EnvelopeDetails R) → DecodeState M R
  done : ℕ → NetworkEnvelope M R → DecodeState M R

module _ (lib : Libraries) where
  open lib use {AnyMessage, RequestId, from_ffi, read_msgpack, is_utf8}

  unfoldable pub get_addr : List ℕ → Decoded RequestId (NetworkAddr × List ℕ)
  get_addr frame = do
    (bits, rest) ← or_error (read_le 8 frame)
    a ← or_error (network_addr-from_bits bits)
    ok (a, rest)

  unfoldable pub get_request_id : List ℕ → Decoded RequestId (RequestId × List ℕ)
  get_request_id frame = do (bits, rest) ← or_error (read_le 8 frame); ok (from_ffi bits, rest)

  -- `TraceId::try_from`: the id is not zero.
  unfoldable pub get_trace_id : List ℕ → Decoded RequestId (ℕ × List ℕ)
  get_trace_id frame = do
    (bits, rest) ← or_error (read_le 8 frame)
    id ← or_error (non_zero bits)
    ok (id, rest)

  -- `get_str`, whose errors are those of `get_message`.
  unfoldable pub get_str : List ℕ → Option (List ℕ × List ℕ)
  get_str [] = none
  get_str (len ∷ rest) =
      if leb len (length rest) && is_utf8 (take len rest)
      then some (take len rest, drop len rest)
      else none

  abbrev lookup_or_none : Lookup AnyMessage → Option AnyMessage
  lookup_or_none (found m) = some m
  lookup_or_none unknown = none
  lookup_or_none malformed = none

  -- `get_message`; it takes all the bytes that are left.
  unfoldable pub get_message : List ℕ → Option AnyMessage
  unfolding Option.bind
  get_message frame =
      Option.bind (get_str frame)
        λ p. Option.bind (get_str p.1) λ n. lookup_or_none (read_msgpack n.1 p.0 n.0)

  -- `map_decode_error`: the message, or an error with the details.
  unfoldable pub message_or_details :
      EnvelopeDetails RequestId → List ℕ → Decoded RequestId AnyMessage
  message_or_details details frame = elim (get_message frame) [
    | none ↦ error (some details)
    | some m ↦ ok m
  ]

  abbrev is_last : ℕ → Bool
  is_last flags = not (bit_and flags flag_is_last_response == 0)

  -- The branches of the `match` on the kind, from the bytes after the trace id.
  unfoldable pub get_request :
      (RequestId → AnyMessage → Payload AnyMessage RequestId)
      → EnvelopeDetails RequestId
      → List ℕ
      → Decoded RequestId (Payload AnyMessage RequestId)
  get_request build details frame = do
    (r, rest) ← get_request_id frame
    m ← message_or_details (record details { request_id = some r }) rest
    ok (build r m)

  unfoldable pub get_failure :
      RequestError → Bool → List ℕ → Decoded RequestId (Payload AnyMessage RequestId)
  get_failure e last frame = do (r, rest) ← get_request_id frame; ok (response r (err e) last)

  unfoldable pub get_regular :
      EnvelopeDetails RequestId → List ℕ → Decoded RequestId (Payload AnyMessage RequestId)
  get_regular details frame = do m ← message_or_details details frame; ok (regular m)

  unfoldable pub get_payload :
      ℕ → EnvelopeDetails RequestId → List ℕ → Decoded RequestId (Payload AnyMessage RequestId)
  get_payload flags details frame =
      if details.kind == kind_regular
      then get_regular details frame
      else (if details.kind == kind_request_any
          then get_request request_any details frame
          else (if details.kind == kind_request_all
              then get_request request_all details frame
              else (if details.kind == kind_response_ok
                  then get_request (λ r m. response r (Response.ok m) (is_last flags)) details frame
                  else (if details.kind == kind_response_failed
                      then get_failure failed (is_last flags) frame
                      else (if details.kind == kind_response_ignored
                          then get_failure ignored (is_last flags) frame
                          else error none)))))

  unfoldable pub do_decode : List ℕ → Decoded RequestId (NetworkEnvelope AnyMessage RequestId)
  do_decode [] = error none
  do_decode (flags ∷ frame) = do
    (sender, rest) ← get_addr frame
    (recipient, rest) ← get_addr rest
    (trace_id, rest) ← get_trace_id rest
    payload ←
        get_payload flags
          (record {
            kind = bit_and flags kind_mask;
            sender = sender;
            recipient = recipient;
            request_id = none;
            trace_id = trace_id;
          })
          rest
    ok (record { sender = sender; recipient = recipient; trace_id = trace_id; payload = payload })

  -- `decode` once the frame is there.
  unfoldable pub finish_decode :
      ℕ
      → DecodeStats
      → Decoded RequestId (NetworkEnvelope AnyMessage RequestId)
      → DecodeState AnyMessage RequestId × DecodeStats
  finish_decode size stats (ok e) =
      (done size e, record stats { total_messages_decoded = stats.total_messages_decoded + 1 })
  finish_decode size stats (error details) = (
    skipped size details,
    record stats { total_messages_decoding_skipped = stats.total_messages_decoding_skipped + 1 },
  )

  unfoldable pub decode_sized :
      ℕ → List ℕ → List ℕ → DecodeStats → DecodeState AnyMessage RequestId × DecodeStats
  decode_sized size input body stats =
      if ltb (length input) size
      then (need_more_data size, stats)
      else finish_decode size stats (do_decode body)

  unfoldable pub decode : List ℕ → DecodeStats → DecodeState AnyMessage RequestId × DecodeStats
  decode input stats = elim (read_le 4 input) [
    | none ↦ (need_more_data 4, stats)
    | some (size, body) ↦ decode_sized size input body stats
  ]
