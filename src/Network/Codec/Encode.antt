-- ===== src/Network/Codec/Encode.antt =====
-- elfo-network/src/codec/encode.rs. Writing to a vector does not fail.
use Prim.Native.Nat.{bit_or}
use mathlib.Core.Option
use elfo.Base.{
  ℕ, ◌+◌, ◌-◌, ◌%◌, ◌^◌, min, Bool, false, Option, none, some, List, [], ◌∷◌, ◌++◌, leb,
  if◌then◌else◌, length, take, Run, done, panic, ◌>>=◌,
}
use elfo.Base.Bytes.{write_le}
use elfo.Core.RequestTable.{failed, ignored, ok, err}
use elfo.Network.Codec.{
  Libraries, flag_is_last_response, kind_regular, kind_request_any, kind_request_all,
  kind_response_ok, kind_response_failed, kind_response_ignored, Payload, regular, request_any,
  request_all, response, NetworkEnvelope,
}

pub record EncodeStats : Type 0 where
  pub total_messages_encoded : ℕ
  pub total_messages_encoding_skipped : ℕ

-- `Ok(())` or `Err(EncodeError::Skipped)`.
pub data EncodeResult : Type 0 where
  encoded skipped : EncodeResult

abbrev pub limit_or : Option ℕ → ℕ → ℕ
limit_or none max_limit = max_limit
limit_or (some limit) max_limit = min limit max_limit

module _ (lib : Libraries) where
  open lib use {AnyMessage, RequestId, to_ffi, protocol, name, write_msgpack, write_partial}

  -- `put_str`, with its assertion.
  unfoldable pub put_str : List ℕ → Run (List ℕ)
  put_str s = if leb (length s) 255 then done (length s % 256 ∷ s) else panic

  abbrev pub is_last_response : Payload AnyMessage RequestId → Bool
  is_last_response (regular m) = false
  is_last_response (request_any r m) = false
  is_last_response (request_all r m) = false
  is_last_response (response r m is_last) = is_last

  abbrev pub kind_of : Payload AnyMessage RequestId → ℕ
  kind_of (regular m) = kind_regular
  kind_of (request_any r m) = kind_request_any
  kind_of (request_all r m) = kind_request_all
  kind_of (response r (ok m) is_last) = kind_response_ok
  kind_of (response r (err failed) is_last) = kind_response_failed
  kind_of (response r (err ignored) is_last) = kind_response_ignored

  abbrev pub request_id_of : Payload AnyMessage RequestId → Option RequestId
  request_id_of (regular m) = none
  request_id_of (request_any r m) = some r
  request_id_of (request_all r m) = some r
  request_id_of (response r m is_last) = some r

  abbrev pub message_of : Payload AnyMessage RequestId → Option AnyMessage
  message_of (regular m) = some m
  message_of (request_any r m) = some m
  message_of (request_all r m) = some m
  message_of (response r (ok m) is_last) = some m
  message_of (response r (err e) is_last) = none

  abbrev pub put_request_id : Option RequestId → List ℕ
  put_request_id none = []
  put_request_id (some r) = write_le 8 (to_ffi r)

  -- The part of the frame before the message.
  unfoldable pub header : NetworkEnvelope AnyMessage RequestId → List ℕ
  header e =
      bit_or (if is_last_response e.payload then flag_is_last_response else 0) (kind_of e.payload)
        ∷ write_le 8 e.sender
      ++ (write_le 8 e.recipient
          ++ (write_le 8 e.trace_id ++ put_request_id (request_id_of e.payload)))

  -- The message with its protocol and name, when `written` bytes of the frame precede it; `none`
  -- if it does not fit in the limit or cannot be serialised.
  unfoldable pub put_message : AnyMessage → ℕ → Option ℕ → Run (Option (List ℕ))
  put_message m written limit = do
    p ← put_str (protocol m)
    n ← put_str (name m)
    let max_limit = 2 ^ 32 - 1 - (written + length p + length n)
    done (Option.map (λ bs. p ++ (n ++ bs)) (write_msgpack m (limit_or limit max_limit)))

  -- `do_encode`: what it appends after the four bytes of the size.
  unfoldable pub do_encode : NetworkEnvelope AnyMessage RequestId → Option ℕ → Run (Option (List ℕ))
  do_encode e limit = elim (message_of e.payload) [
    | none ↦ done (some (header e))
    | some m ↦ put_message m (4 + length (header e)) limit >>= λ r.
        done (Option.map (λ bs. header e ++ bs) r)
  ]

  -- What a message that cannot be encoded leaves in the buffer after the place of the size.
  unfoldable pub left_over : NetworkEnvelope AnyMessage RequestId → Option ℕ → List ℕ
  unfolding header
  left_over e limit = elim (message_of e.payload) [
    | none ↦ header e
    | some m ↦
        let written = 4 + length (header e) + (1 + length (protocol m)) + (1 + length (name m)) in
        header e
        ++ (length (protocol m) % 256 ∷ protocol m)
        ++ (length (name m) % 256 ∷ name m)
        ++ write_partial m (limit_or limit (2 ^ 32 - 1 - written))
  ]

  -- The buffer after the size is filled in, or cut to its length before.
  unfoldable pub finish :
      List ℕ → EncodeStats → List ℕ → Option (List ℕ) → List ℕ × EncodeStats × EncodeResult
  finish dst stats left none = (
    take (length dst) (dst ++ (write_le 4 0 ++ left)),
    record stats { total_messages_encoding_skipped = stats.total_messages_encoding_skipped + 1 },
    skipped,
  )
  finish dst stats left (some body) = (
    dst ++ (write_le 4 ((4 + length body) % 2 ^ 32) ++ body),
    record stats { total_messages_encoded = stats.total_messages_encoded + 1 },
    encoded,
  )

  unfoldable pub encode :
      NetworkEnvelope AnyMessage RequestId
      → List ℕ
      → EncodeStats
      → Option ℕ
      → Run (List ℕ × EncodeStats × EncodeResult)
  encode e dst stats limit = do r ← do_encode e limit; done (finish dst stats (left_over e limit) r)
