-- ===== src/Network/Codec/Fields.antt =====
-- What is written of each field of a frame, is read.
use mathlib.Core.Option
use elfo.Base.{
  ℕ, ◌+◌, ◌-◌, ◌^◌, ◌≤◌, ◌<◌, ◌≡◌, refl, sym, ap, Bool, true, Option, none, some, List, ◌∷◌, ◌++◌,
  append_assoc, arith, length, length-append, take-length-append, drop-length-append, done,
  >>=-eq-done, done_injective,
}
use elfo.Base.Bytes.{write_le, read_le-write_le}
use elfo.Network.Codec.Decode.{
  EnvelopeDetails, ok, get_addr, get_request_id, get_trace_id, get_str, get_message,
  message_or_details, get_request, get_failure, get_regular,
}
use elfo.Core.RequestTable.{RequestError, err}
use elfo.Network.Codec.Encode.{limit_or, put_str, put_message}
use elfo.Network.Codec.{Libraries, NetworkAddr, network_addr-from_bits, Payload, regular, response}

pub map_is_some :
    {A B : Type 0} (o : Option A) (f : A → B) {b : B}
    → Option.map f o ≡ some b
    → (a : A) × (o ≡ some a) × (f a ≡ b)
map_is_some (some a) f h = (a, refl, cc)
map_is_some none f h = cc

module _ (lib : Libraries) where
  open lib use {
    AnyMessage, RequestId, to_ffi, from_ffi, protocol, name, write_msgpack, read_msgpack, is_utf8,
  }

  pub put_str_done :
      (s : List ℕ) {bs : List ℕ} → put_str lib s ≡ done bs → (length s < 256) × (bs ≡ length s ∷ s)
  unfolding put_str
  put_str_done s h = ground arith

  pub put_str-get_str :
      (s bs rest : List ℕ)
      → is_utf8 s ≡ true
      → put_str lib s ≡ done bs
      → get_str lib (bs ++ rest) ≡ some (s, rest)
  unfolding get_str
  put_str-get_str s bs rest u h =
      let (small, e) = put_str_done s h in
      rw e (
        rw (take-length-append s rest, drop-length-append s rest, u)
          (ground (arith, length-append s rest)))

  pub get_addr-write :
      (a : NetworkAddr) (rest : List ℕ)
      → a < 2 ^ 64
      → network_addr-from_bits a ≡ some a
      → get_addr lib (write_le 8 a ++ rest) ≡ ok (a, rest)
  unfolding get_addr
  get_addr-write a rest h v = rw (read_le-write_le 8 a rest h) (rw v refl)

  pub get_request_id-write :
      (r : RequestId) (rest : List ℕ)
      → get_request_id lib (write_le 8 (to_ffi r) ++ rest) ≡ ok (r, rest)
  unfolding get_request_id
  get_request_id-write r rest =
      rw (read_le-write_le 8 (to_ffi r) rest (lib.to_ffi-lt r))
        (ap (λ i. ok (i, rest)) (lib.from_ffi-to_ffi r))

  pub get_trace_id-write :
      (t : ℕ) (rest : List ℕ)
      → t < 2 ^ 64
      → 0 < t
      → get_trace_id lib (write_le 8 t ++ rest) ≡ ok (t, rest)
  unfolding get_trace_id
  get_trace_id-write t rest h v = rw (read_le-write_le 8 t rest h) (ground arith)

  limit_or-le : (limit : Option ℕ) (n : ℕ) → limit_or limit n ≤ n
  limit_or-le none n = omega arith
  limit_or-le (some l) n = omega arith

  pub put_message_ok :
      (m : AnyMessage) (written : ℕ) (limit : Option ℕ) (bs : List ℕ)
      → put_message lib m written limit ≡ done (some bs)
      → (p : List ℕ) × (n : List ℕ) × (q : List ℕ) × (l : ℕ) × (put_str lib (protocol m) ≡ done p)
        × (put_str lib (name m) ≡ done n)
        × (write_msgpack m l ≡ some q)
        × (bs ≡ p ++ (n ++ q))
        × (l ≤ 2 ^ 32 - 1 - (written + length p + length n))
  unfolding put_message
  put_message_ok m written limit bs h =
      let (p, ep, h₁) = >>=-eq-done (put_str lib (protocol m)) _ h in
      let (n, en, h₂) = >>=-eq-done (put_str lib (name m)) _ h₁ in
      let l = limit_or limit (2 ^ 32 - 1 - (written + length p + length n)) in
      let (q, eq, e) = map_is_some (write_msgpack m l) (λ bs. p ++ (n ++ bs)) (done_injective h₂) in
      (p, n, q, l, ep, en, eq, sym e, limit_or-le limit _)

  pub get_message-put :
      (m : AnyMessage) (written : ℕ) (limit : Option ℕ) (bs rest : List ℕ)
      → put_message lib m written limit ≡ done (some bs)
      → get_message lib (bs ++ rest) ≡ some m
  unfolding get_message
  get_message-put m written limit bs rest h =
      let (p, n, q, l, ep, en, eq, e, _) = put_message_ok m written limit bs h in
      rw (e, append_assoc p (n ++ q) rest, append_assoc n q rest)
        (rw (put_str-get_str (protocol m) p (n ++ (q ++ rest)) (lib.protocol_utf8 m) ep) (
          rw (put_str-get_str (name m) n (q ++ rest) (lib.name_utf8 m) en)
            (rw (lib.read-write m l q rest eq))))

  pub message_or_details-put :
      (details : EnvelopeDetails RequestId) (m : AnyMessage) (written : ℕ) (limit : Option ℕ)
      (bs rest : List ℕ)
      → put_message lib m written limit ≡ done (some bs)
      → message_or_details lib details (bs ++ rest) ≡ ok m
  unfolding message_or_details
  message_or_details-put details m written limit bs rest h =
      rw (get_message-put m written limit bs rest h, message_or_details) refl

  pub get_request-put :
      (build : RequestId → AnyMessage → Payload AnyMessage RequestId)
      (details : EnvelopeDetails RequestId) (r : RequestId) (m : AnyMessage) (written : ℕ)
      (limit : Option ℕ) (bs rest : List ℕ)
      → put_message lib m written limit ≡ done (some bs)
      → get_request lib build details (write_le 8 (to_ffi r) ++ (bs ++ rest)) ≡ ok (build r m)
  unfolding get_request
  get_request-put build details r m written limit bs rest h =
      rw (get_request_id-write r (bs ++ rest)) (
        rw (
          message_or_details-put (record details { request_id = some r }) m written limit bs rest
            h))

  pub get_failure-put :
      (x : RequestError) (last : Bool) (r : RequestId) (rest : List ℕ)
      → get_failure lib x last (write_le 8 (to_ffi r) ++ rest) ≡ ok (response r (err x) last)
  unfolding get_failure
  get_failure-put x last r rest = rw (get_request_id-write r rest)

  pub get_regular-put :
      (details : EnvelopeDetails RequestId) (m : AnyMessage) (written : ℕ) (limit : Option ℕ)
      (bs rest : List ℕ)
      → put_message lib m written limit ≡ done (some bs)
      → get_regular lib details (bs ++ rest) ≡ ok (regular m)
  unfolding get_regular
  get_regular-put details m written limit bs rest h =
      rw (message_or_details-put details m written limit bs rest h)

  -- A message never makes the frame longer than its four bytes of size can say.
  pub put_message-length :
      (m : AnyMessage) (written : ℕ) (limit : Option ℕ) (bs : List ℕ)
      → written < 64
      → put_message lib m written limit ≡ done (some bs)
      → written + length bs < 2 ^ 32
  put_message-length m written limit bs small h =
      let (p, n, q, l, ep, en, eq, e, le) = put_message_ok m written limit bs h in
      rw e (
        rw (length-append p (n ++ q), length-append n q)
          (omega (
            arith,
            lib.write-length m l q eq,
            (put_str_done (protocol m) ep).0,
            (put_str_done (name m) en).0,
            ap length (put_str_done (protocol m) ep).1,
            ap length (put_str_done (name m) en).1,
          )))
