-- ===== src/Network/Codec.antt =====
-- elfo-network/src/codec: the envelope that goes over the network (format.rs), and the two
-- directions, Codec.Encode (encode.rs) and Codec.Decode (decode.rs). Bytes are numbers.
pub mod Encode
pub mod Decode
mod Fields
pub mod Frame
pub mod RoundTrip
pub mod Progress
pub mod Examples
use elfo.Base.{
  ℕ, ◌^◌, ◌≤◌, ◌<◌, ◌≡◌, Bool, true, Option, none, some, List, ◌++◌, if◌then◌else◌, length,
}
use elfo.Core.Addr.{Addr, NodeNo, is_local, from_bits, into_remote, into_local}
use elfo.Core.RequestTable.{Response}

-- What the code uses of libraries and of `AnyMessage`: serialisation with MessagePack, the keys of
-- the slot map, UTF-8. `write_msgpack` fails beyond its limit; `read_msgpack` reads one message
-- from the front of its bytes, and finds none under an unknown name.
pub data Lookup (M : Type 0) : Type 0 where
  found : M → Lookup M
  unknown : Lookup M
  malformed : Lookup M

pub record Libraries : Type 1 where
  pub AnyMessage : Type 0
  pub RequestId : Type 0
  pub to_ffi : RequestId → ℕ
  pub from_ffi : ℕ → RequestId
  pub protocol : AnyMessage → List ℕ
  pub name : AnyMessage → List ℕ
  pub write_msgpack : AnyMessage → ℕ → Option (List ℕ)
  -- What a serialisation that fails leaves in the buffer.
  pub write_partial : AnyMessage → ℕ → List ℕ
  pub read_msgpack : List ℕ → List ℕ → List ℕ → Lookup AnyMessage
  pub is_utf8 : List ℕ → Bool
  pub from_ffi-to_ffi : (r : RequestId) → from_ffi (to_ffi r) ≡ r
  pub to_ffi-lt : (r : RequestId) → to_ffi r < 2 ^ 64
  pub protocol_utf8 : (m : AnyMessage) → is_utf8 (protocol m) ≡ true
  pub name_utf8 : (m : AnyMessage) → is_utf8 (name m) ≡ true
  pub write-length :
      (m : AnyMessage) (limit : ℕ) (bs : List ℕ)
      → write_msgpack m limit ≡ some bs
      → length bs ≤ limit
  pub read-write :
      (m : AnyMessage) (limit : ℕ) (bs rest : List ℕ)
      → write_msgpack m limit ≡ some bs
      → read_msgpack (bs ++ rest) (protocol m) (name m) ≡ found m

abbrev pub flag_is_last_response : ℕ
flag_is_last_response = 128

abbrev pub kind_mask : ℕ
kind_mask = 0xf

abbrev pub kind_regular : ℕ
kind_regular = 0

abbrev pub kind_request_any : ℕ
kind_request_any = 1

abbrev pub kind_request_all : ℕ
kind_request_all = 2

abbrev pub kind_response_ok : ℕ
kind_response_ok = 3

abbrev pub kind_response_failed : ℕ
kind_response_failed = 4

abbrev pub kind_response_ignored : ℕ
kind_response_ignored = 5

-- `NetworkAddr`: an address that is not local.
abbrev pub NetworkAddr : Type 0
NetworkAddr = Addr

unfoldable pub network_addr-from_bits : ℕ → Option NetworkAddr
network_addr-from_bits bits = elim (from_bits bits) [
  | none ↦ none
  | some a ↦ if is_local a then none else some a
]

-- `NetworkAddr::from_local` and `into_local`; the conversions from and into a remote address and
-- into bits change nothing.
abbrev pub from_local : Addr → NodeNo → NetworkAddr
from_local a node = into_remote a node

abbrev pub to_local : NetworkAddr → Addr
to_local a = into_local a

pub data Payload (M R : Type 0) : Type 0 where
  regular : M → Payload M R
  request_any : R → M → Payload M R
  request_all : R → M → Payload M R
  response : R → Response M → Bool → Payload M R

pub record NetworkEnvelope (M R : Type 0) : Type 0 where
  pub sender : NetworkAddr
  pub recipient : NetworkAddr
  pub trace_id : ℕ
  pub payload : Payload M R
