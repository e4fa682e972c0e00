-- ===== src/Network/Codec/Frame.antt =====
-- The content of a frame: what is written behind the size, `do_decode` reads.
use Prim.Native.Nat.{bit_and, bit_or}
use elfo.Base.{
  ℕ, ◌^◌, ◌<◌, ◌≡◌, true, false, Option, none, some, List, [], ◌∷◌, ◌++◌, append_assoc,
  if◌then◌else◌, done,
}
use elfo.Base.Bytes.{write_le}
use elfo.Network.Codec.Decode.{ok, get_payload, do_decode}
use elfo.Core.RequestTable.{failed, ignored, Response, err}
use elfo.Network.Codec.Encode.{
  is_last_response, kind_of, request_id_of, put_request_id, header, put_message,
}
use elfo.Network.Codec.Fields.{
  get_addr-write, get_trace_id-write, get_request-put, get_failure-put, get_regular-put,
}
use elfo.Network.Codec.{
  Libraries, flag_is_last_response, kind_mask, NetworkAddr, network_addr-from_bits, Payload,
  regular, request_any, request_all, response, NetworkEnvelope,
}

module _ (lib : Libraries) where
  open lib use {AnyMessage, RequestId, to_ffi}

  -- What the types of the fields promise.
  pub record IsValid (e : NetworkEnvelope AnyMessage RequestId) : Type 0 where
    pub sender_fits : e.sender < 2 ^ 64
    pub sender_valid : network_addr-from_bits e.sender ≡ some e.sender
    pub recipient_fits : e.recipient < 2 ^ 64
    pub recipient_valid : network_addr-from_bits e.recipient ≡ some e.recipient
    pub trace_id_fits : e.trace_id < 2 ^ 64
    pub trace_id_valid : 0 < e.trace_id

  -- What `do_encode` writes behind the trace id, for each kind of payload.
  abbrev pub Puts : Payload AnyMessage RequestId → ℕ → Option ℕ → List ℕ → Type 0
  Puts (response r (err x) last) written limit bs = bs ≡ []
  Puts (response r (Response.ok m) last) written limit bs =
      put_message lib m written limit ≡ done (some bs)
  Puts (regular m) written limit bs = put_message lib m written limit ≡ done (some bs)
  Puts (request_any r m) written limit bs = put_message lib m written limit ≡ done (some bs)
  Puts (request_all r m) written limit bs = put_message lib m written limit ≡ done (some bs)

  abbrev pub flags_of : Payload AnyMessage RequestId → ℕ
  flags_of p = bit_or (if is_last_response lib p then flag_is_last_response else 0) (kind_of lib p)

  get_payload-put :
      (p : Payload AnyMessage RequestId) (s t : NetworkAddr) (trace_id written : ℕ)
      (limit : Option ℕ) (bs rest : List ℕ)
      → Puts p written limit bs
      → get_payload lib
          (flags_of p)
          (record {
            kind = bit_and (flags_of p) kind_mask;
            sender = s;
            recipient = t;
            request_id = none;
            trace_id = trace_id;
          })
          (put_request_id lib (request_id_of lib p) ++ (bs ++ rest))
        ≡ ok p
  unfolding get_payload
  get_payload-put (regular m) s t trace_id written limit bs rest h =
      get_regular-put lib _ m written limit bs rest h
  get_payload-put (request_any r m) s t trace_id written limit bs rest h =
      get_request-put lib _ _ r m written limit bs rest h
  get_payload-put (request_all r m) s t trace_id written limit bs rest h =
      get_request-put lib _ _ r m written limit bs rest h
  get_payload-put (response r (Response.ok m) true) s t trace_id written limit bs rest h =
      get_request-put lib _ _ r m written limit bs rest h
  get_payload-put (response r (Response.ok m) false) s t trace_id written limit bs rest h =
      get_request-put lib _ _ r m written limit bs rest h
  get_payload-put (response r (err failed) true) s t trace_id written limit bs rest h =
      get_failure-put lib _ _ r (bs ++ rest)
  get_payload-put (response r (err failed) false) s t trace_id written limit bs rest h =
      get_failure-put lib _ _ r (bs ++ rest)
  get_payload-put (response r (err ignored) true) s t trace_id written limit bs rest h =
      get_failure-put lib _ _ r (bs ++ rest)
  get_payload-put (response r (err ignored) false) s t trace_id written limit bs rest h =
      get_failure-put lib _ _ r (bs ++ rest)

  pub header-append :
      (e : NetworkEnvelope AnyMessage RequestId) (rest : List ℕ)
      → header lib e ++ rest
        ≡ flags_of e.payload
          ∷ (write_le 8 e.sender
              ++ (write_le 8 e.recipient
                  ++ (write_le 8 e.trace_id
                      ++ (put_request_id lib (request_id_of lib e.payload) ++ rest))))
  unfolding header
  header-append e rest = simp append_assoc

  pub do_decode-put :
      (e : NetworkEnvelope AnyMessage RequestId) (written : ℕ) (limit : Option ℕ) (bs rest : List ℕ)
      → IsValid e
      → Puts e.payload written limit bs
      → do_decode lib (header lib e ++ (bs ++ rest)) ≡ ok e
  unfolding do_decode
  do_decode-put e written limit bs rest v h = rw (header-append e (bs ++ rest)) (
      rw (get_addr-write lib e.sender _ v.sender_fits v.sender_valid) (
        rw (get_addr-write lib e.recipient _ v.recipient_fits v.recipient_valid) (
          rw (get_trace_id-write lib e.trace_id _ v.trace_id_fits v.trace_id_valid) (
            rw (
              get_payload-put e.payload e.sender e.recipient e.trace_id written limit bs rest h)))))
