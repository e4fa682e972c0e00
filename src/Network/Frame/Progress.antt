-- ===== src/Network/Frame/Progress.antt =====
-- elfo-network/src/frame/read.rs: the loop of the reader without compression ends.
use Prim.Native.Nat.{bit_and}
use elfo.Network.Codec.Progress.{decode_no_progress}
use elfo.Network.Codec.{Libraries, kind_mask, NetworkEnvelope}
use elfo.Network.Frame.Read.{
  NoneFramedRead, room, ReadResult, consume_none, on_decoded_none, step_none, read_none,
}
use elfo.Network.Frame.{FramedReadState, envelope_skipped}
use elfo.Network.ReadBuffer.Consume.{length-filled_slice, consume_filled_keeps}
use elfo.Base.Loop.{returned, out_of_fuel, run, Advances, goes, stops, run_returns}
use elfo.Network.ReadBuffer.{filled_len, filled_slice, IsValid, extend_to_contain_keeps}
use elfo.Base.{
  ℕ, zero, suc, ◌+◌, ◌≤◌, ◌<◌, ◌≡◌, refl, sym, ap, subst, ◌∙◌, true, false, Option, none, some,
  List, ◌∷◌, arith, ltb, length, drop, length-drop, Run,
}
use elfo.Base.Bytes.{read_le, read_le-short}
use elfo.Network.Codec.Decode.{
  DecodeStats, EnvelopeDetails, Decoded, ok, error, DecodeState, do_decode, finish_decode,
  decode_sized, decode,
}

-- Bytes in which no complete frame has a size of zero.
pub data Sized : List ℕ → Type 0 where
  short : (bs : List ℕ) → read_le 4 bs ≡ none → Sized bs
  cut :
      (bs : List ℕ) {size : ℕ} {body : List ℕ}
      → read_le 4 bs ≡ some (size, body)
      → length bs < size
      → Sized bs
  sized :
      (bs : List ℕ) {size : ℕ} {body : List ℕ}
      → read_le 4 bs ≡ some (size, body)
      → 0 < size
      → size ≤ length bs
      → Sized (drop size bs)
      → Sized bs

module _ (lib : Libraries) where
  open lib use {AnyMessage, RequestId}

  -- What the decoder answers to such bytes.
  data Moves (bs : List ℕ) : DecodeState AnyMessage RequestId → Type 0 where
    waits : (n : ℕ) → length bs < n → Moves bs (DecodeState.need_more_data n)
    skips :
        (n : ℕ) (d : Option (EnvelopeDetails RequestId))
        → 0 < n
        → n ≤ length bs
        → Sized (drop n bs)
        → Moves bs (DecodeState.skipped n d)
    reads :
        (n : ℕ) (e : NetworkEnvelope AnyMessage RequestId)
        → 0 < n
        → n ≤ length bs
        → Sized (drop n bs)
        → Moves bs (DecodeState.done n e)

  finish-Moves :
      (bs : List ℕ) (size : ℕ) (stats : DecodeStats)
      (d : Decoded RequestId (NetworkEnvelope AnyMessage RequestId))
      → 0 < size
      → size ≤ length bs
      → Sized (drop size bs)
      → Moves bs (finish_decode lib size stats d).0
  unfolding finish_decode
  finish-Moves bs size stats (ok e) pos fits s = reads size e pos fits s
  finish-Moves bs size stats (error d) pos fits s = skips size d pos fits s

  decode-Moves : (bs : List ℕ) (stats : DecodeStats) → Sized bs → Moves bs (decode lib bs stats).0
  unfolding decode decode_sized
  decode-Moves bs stats (short _ h) = rw (h, decode) (waits 4 (read_le-short 4 bs h))
  decode-Moves bs stats (cut _ {size = size} {body = body} h less) =
      let lacks : ltb (length bs) size ≡ true = ground arith in
      rw (h, decode) (rw (lacks, decode_sized) (waits size less))
  decode-Moves bs stats (sized _ {size = size} {body = body} h pos fits s) =
      let there : ltb (length bs) size ≡ false = ground arith in
      rw (h, decode)
        (rw (there, decode_sized) (finish-Moves bs size stats (do_decode lib body) pos fits s))

  -- What the bytes and the count of a valid reader come to together; a step keeps it.
  abbrev pub total_bytes : NoneFramedRead → ℕ
  total_bytes r = r.stats.total_uncompressed_bytes + length (filled_slice r.buffer)

  -- A reader that can be read from, when bytes are consumed from `whole`.
  pub record Readable (whole : ℕ) (r : NoneFramedRead) : Type 0 where
    pub valid : IsValid r.buffer
    pub sizes : Sized (filled_slice r.buffer)
    pub counted : total_bytes r ≡ whole

  -- How a read ends: it is no error, and when more data is needed there is room for some.
  pub data Ends (whole : ℕ) (r : NoneFramedRead) : ReadResult lib → Type 0 where
    needs_data :
        (n : ℕ) → 0 < n → Readable whole r → Ends whole r (some (FramedReadState.need_more_data n))
    skips_envelope :
        (d : EnvelopeDetails RequestId)
        → Readable whole r
        → Ends whole r (some (envelope_skipped d))
    reads_envelope :
        (e : NetworkEnvelope AnyMessage RequestId)
        → Readable whole r
        → Ends whole r (some (FramedReadState.done e))

  -- The bytes that are consumed are counted.
  consume_none_keeps :
      (whole : ℕ) (r : NoneFramedRead) (count : ℕ)
      → IsValid r.buffer
      → 0 < count
      → count ≤ length (filled_slice r.buffer)
      → Sized (drop count (filled_slice r.buffer))
      → total_bytes r ≡ whole
      → (r' : NoneFramedRead) × (consume_none lib r count ≡ Run.done r')
        × (length (filled_slice r'.buffer) < length (filled_slice r.buffer))
        × Readable whole r'
  unfolding consume_none
  consume_none_keeps whole r count v pos fits s t =
      let len = length-filled_slice r.buffer v in
      let (b, e, slice, v') = consume_filled_keeps r.buffer count v (omega arith) in
      let left = length-drop count (filled_slice r.buffer) in
      (
        record r {
          buffer = b;
          stats = record (r.stats) {
            total_uncompressed_bytes = r.stats.total_uncompressed_bytes + count;
          };
        },
        rw e refl,
        omega (arith, ap length slice),
        record {
          valid = v';
          sizes = subst Sized (sym slice) s;
          counted = omega (arith, ap length slice);
        },
      )

  on_decoded-Advances :
      (whole : ℕ) (r : NoneFramedRead) (state : DecodeState AnyMessage RequestId)
      → Readable whole r
      → Moves (filled_slice r.buffer) state
      → Advances
          (Readable whole)
          (λ r. length (filled_slice r.buffer))
          (Ends whole)
          (length (filled_slice r.buffer))
          (on_decoded_none lib r state)
  unfolding on_decoded_none filled_len
  on_decoded-Advances whole r _ i (waits n less) =
      let len = length-filled_slice r.buffer i.valid in
      let (b, e, slice, start, enough, v') = extend_to_contain_keeps r.buffer n i.valid in
      let lacks : ltb (filled_len r.buffer) n ≡ true = ground (arith, len) in
      let free : 0 < room b = omega (
        arith,
        ap length slice,
        length-filled_slice b v',
        start,
        enough,
        v'.ordered,
        v'.inside,
        len,
      ) in
      rw (lacks, e)
        (stops (record r { buffer = b }) _
          (needs_data (room b) free (record {
            valid = v';
            sizes = subst Sized (sym slice) i.sizes;
            counted = omega (arith, ap length slice, i.counted);
          })))
  on_decoded-Advances whole r _ i (skips n none pos fits s) =
      let (r', e, less, i') = consume_none_keeps whole r n i.valid pos fits s i.counted in
      rw e (goes r' i' less)
  on_decoded-Advances whole r _ i (skips n (some d) pos fits s) =
      let (r', e, less, i') = consume_none_keeps whole r n i.valid pos fits s i.counted in
      rw e (stops r' _ (skips_envelope d i'))
  on_decoded-Advances whole r _ i (reads n x pos fits s) =
      let (r', e, less, i') = consume_none_keeps whole r n i.valid pos fits s i.counted in
      rw e (stops r' _ (reads_envelope x i'))

  step-Advances :
      (whole : ℕ) (r : NoneFramedRead)
      → Readable whole r
      → Advances
          (Readable whole)
          (λ r. length (filled_slice r.buffer))
          (Ends whole)
          (length (filled_slice r.buffer))
          (step_none lib r)
  unfolding step_none
  step-Advances whole r i =
      on_decoded-Advances whole _ _
        (record { valid = i.valid; sizes = i.sizes; counted = i.counted })
        (decode-Moves (filled_slice r.buffer) r.stats.decode_stats i.sizes)

  -- Reading from a valid buffer in which no complete frame has a size of zero: with more fuel than
  -- there are bytes, the read returns, without a panic or an error. It asks for more data only
  -- with room for some, what it leaves is again such a buffer, and what it consumed is counted.
  pub read_none_returns :
      (fuel : ℕ) (r : NoneFramedRead)
      → IsValid r.buffer
      → Sized (filled_slice r.buffer)
      → filled_len r.buffer < fuel
      → (r' : NoneFramedRead) × (a : ReadResult lib) × (read_none lib fuel r ≡ returned r' a)
        × Ends (total_bytes r) r' a
  unfolding read_none
  read_none_returns fuel r v s h =
      let len = length-filled_slice r.buffer v in
      run_returns (step_none lib) (Readable (total_bytes r)) (λ r. length (filled_slice r.buffer))
        (Ends (total_bytes r)) (step-Advances (total_bytes r)) fuel r
        (record { valid = v; sizes = s; counted = refl }) (omega (arith, len))

  -- A valid buffer that starts with a size of zero and a kind that is none of the six is read for
  -- ever: no fuel is enough, whatever bytes follow.
  pub read_none_forever :
      (fuel flags : ℕ) (bs : List ℕ) (r : NoneFramedRead)
      → IsValid r.buffer
      → filled_slice r.buffer ≡ 0 ∷ 0 ∷ 0 ∷ 0 ∷ flags ∷ bs
      → 6 ≤ bit_and flags kind_mask
      → read_none lib fuel r ≡ out_of_fuel
  unfolding read_none run step_none on_decoded_none consume_none
  read_none_forever zero flags bs r v s h = refl
  read_none_forever (suc fuel) flags bs r v s h =
      let (b, e, slice, v') = consume_filled_keeps r.buffer 0 v (omega arith) in
      let skips = decode_no_progress lib flags bs r.stats.decode_stats h in
      rw (s, skips, e) (read_none_forever fuel flags bs _ v' (slice ∙ s) h)
