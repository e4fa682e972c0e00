-- ===== src/Network/Codec/Examples.antt =====
-- The theorems about the codec at concrete inputs: a message is one byte, a request a Boolean.
use elfo.Base.{
  ℕ, ◌+◌, ◌*◌, ◌^◌, ◌<◌, ◌≡◌, refl, ◌⊎◌, Bool, true, false, Option, none, some, List, [], ◌∷◌, ◌++◌,
  arith, leb, ◌==◌, if◌then◌else◌, length, take, done,
}
use elfo.Core.Addr.{is_local, from_bits}
use elfo.Network.Codec.Decode.{DecodeStats, DecodeState, decode}
use elfo.Network.Codec.Encode.{
  EncodeStats, EncodeResult, encoded, put_str, header, put_message, do_encode, finish, encode,
}
use elfo.Network.Codec.Frame.{IsValid}
use elfo.Network.Codec.Progress.{
  encode_keeps_buffer, consumed, awaited, decode_consumes, decode_no_progress,
}
use elfo.Network.Codec.{
  Lookup, found, malformed, Libraries, network_addr-from_bits, response, NetworkEnvelope,
}
use elfo.Base.Bytes.{write_le, read_le}
use elfo.Core.RequestTable.{Response}
use elfo.Network.Codec.RoundTrip.{encode_round_trip}

abbrev pub write_byte : ℕ → ℕ → Option (List ℕ)
write_byte m limit = if leb 1 limit then some (m ∷ []) else none

abbrev pub read_byte : List ℕ → List ℕ → List ℕ → Lookup ℕ
read_byte [] p n = malformed
read_byte (b ∷ bs) p n = found b

pub read_byte-write :
    (m limit : ℕ) (bs rest : List ℕ)
    → write_byte m limit ≡ some bs
    → read_byte (bs ++ rest) (1 ∷ []) (2 ∷ []) ≡ found m
read_byte-write m limit [] rest h = ground arith
read_byte-write m limit (b ∷ bs) rest h = ground arith

abbrev pub bit : Bool → ℕ
bit true = 1
bit false = 0

pub from_bit : (r : Bool) → (bit r == 1) ≡ r
from_bit true = refl
from_bit false = refl

pub bit-lt : (r : Bool) → bit r < 2 ^ 64
bit-lt true = omega arith
bit-lt false = omega arith

abbrev pub bytes : Libraries
bytes = record {
  AnyMessage = ℕ;
  RequestId = Bool;
  to_ffi = bit;
  from_ffi = λ n. n == 1;
  protocol = λ m. 1 ∷ [];
  name = λ m. 2 ∷ [];
  write_msgpack = write_byte;
  write_partial = λ m limit. [];
  read_msgpack = read_byte;
  is_utf8 = λ t. true;
  from_ffi-to_ffi = from_bit;
  to_ffi-lt = bit-lt;
  protocol_utf8 = λ m. refl;
  name_utf8 = λ m. refl;
  write-length = λ m limit bs h. ground arith;
  read-write = read_byte-write;
}

-- A successful last response from node 1 to node 2.
abbrev pub answer : NetworkEnvelope ℕ Bool
answer = record {
  sender = 2 ^ 48 + 2 ^ 40 + 1;
  recipient = 2 * 2 ^ 48 + 2 ^ 40 + 2;
  trace_id = 5;
  payload = response true (Response.ok 9) true;
}

pub answer-IsValid : IsValid bytes answer
unfolding network_addr-from_bits from_bits is_local
answer-IsValid = record {
  sender_fits = omega arith;
  sender_valid = refl;
  recipient_fits = omega arith;
  recipient_valid = refl;
  trace_id_fits = omega arith;
  trace_id_valid = omega arith;
}

abbrev pub no_encoded : EncodeStats
no_encoded = record { total_messages_encoded = 0; total_messages_encoding_skipped = 0 }

abbrev pub no_decoded : DecodeStats
no_decoded = record { total_messages_decoded = 0; total_messages_decoding_skipped = 0 }

decode_no_progress_example :
    (decode bytes (0 ∷ 0 ∷ 0 ∷ 0 ∷ 7 ∷ []) no_decoded).0 ≡ DecodeState.skipped 0 none
decode_no_progress_example = decode_no_progress bytes 7 [] no_decoded (omega arith)

abbrev pub answer_frame : List ℕ
answer_frame =
    42 ∷ 0 ∷ 0 ∷ 0 ∷ 131 ∷ 1 ∷ 0 ∷ 0 ∷ 0 ∷ 0 ∷ 1 ∷ 1 ∷ 0 ∷ 2 ∷ 0 ∷ 0 ∷ 0 ∷ 0 ∷ 1 ∷ 2 ∷ 0 ∷ 5 ∷ 0 ∷ 0
    ∷ 0 ∷ 0 ∷ 0 ∷ 0 ∷ 0 ∷ 1 ∷ 0 ∷ 0 ∷ 0 ∷ 0 ∷ 0 ∷ 0 ∷ 0 ∷ 1 ∷ 1 ∷ 1 ∷ 2 ∷ 9 ∷ []

abbrev pub one_encoded : EncodeStats
one_encoded = record { total_messages_encoded = 1; total_messages_encoding_skipped = 0 }

pub answer_encoded :
    encode bytes answer (3 ∷ []) no_encoded none ≡ done (3 ∷ answer_frame, one_encoded, encoded)
unfolding encode do_encode finish header put_message put_str write_le
answer_encoded = refl

encode_round_trip_example :
    (frame : List ℕ) × (3 ∷ answer_frame ≡ 3 ∷ frame)
    × (one_encoded ≡ record no_encoded { total_messages_encoded = 1 })
    × (decode bytes (frame ++ 4 ∷ []) no_decoded ≡ (
      DecodeState.done (length frame) answer,
      record no_decoded { total_messages_decoded = 1 },
    ))
encode_round_trip_example =
    encode_round_trip bytes answer (3 ∷ []) (4 ∷ []) none no_encoded no_decoded answer-IsValid
      answer_encoded

encode_keeps_buffer_example :
    ((encoded ≡ encoded)
      × (take 1 (3 ∷ answer_frame) ≡ 3 ∷ [])
      × (one_encoded ≡ record no_encoded { total_messages_encoded = 1 }))
    ⊎ ((encoded ≡ EncodeResult.skipped)
        × (3 ∷ answer_frame ≡ 3 ∷ [])
        × (one_encoded ≡ record no_encoded { total_messages_encoding_skipped = 1 }))
encode_keeps_buffer_example =
    encode_keeps_buffer bytes answer (3 ∷ []) none no_encoded answer_encoded

-- A size of six of which five bytes are there.
decode_consumes_example :
    let (state, stats) = decode bytes (6 ∷ 0 ∷ 0 ∷ 0 ∷ 7 ∷ []) no_decoded in
    (consumed bytes state ≡ 0)
    × (awaited bytes state ≡ 6)
    × (stats.total_messages_decoded + stats.total_messages_decoding_skipped ≡ 0)
unfolding read_le
decode_consumes_example = decode_consumes bytes (6 ∷ 0 ∷ 0 ∷ 0 ∷ 7 ∷ []) no_decoded refl
