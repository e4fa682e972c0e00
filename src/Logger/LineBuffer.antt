-- ===== src/Logger/LineBuffer.antt =====
-- elfo-logger/src/line_buffer.rs, and how `format_event` of actor.rs uses it. A string is its bytes.
pub mod Bounds
use elfo.Base.{
  ℕ, zero, suc, ◌+◌, ◌-◌, min, Bool, true, false, ◌||◌, Option, none, some, List, [], ◌∷◌, ◌++◌,
  ltb, leb, ◌==◌, if◌then◌else◌, length, get_elem?, take,
}

abbrev pub Text : Type 0
Text = List ℕ

-- " TRUNCATED".
abbrev pub truncated_marker : Text
truncated_marker = 32 ∷ 84 ∷ 82 ∷ 85 ∷ 78 ∷ 67 ∷ 65 ∷ 84 ∷ 69 ∷ 68 ∷ []

abbrev pub newline : ℕ
newline = 10

-- `str::is_char_boundary`: an end of the text, or a byte that does not continue a character.
abbrev pub starts_char : Option ℕ → Bool
starts_char none = false
starts_char (some b) = ltb b 128 || leb 192 b

unfoldable pub is_char_boundary : Text → ℕ → Bool
is_char_boundary t zero = true
is_char_boundary t (suc i) = suc i == length t || starts_char (get_elem? t (suc i))

-- The loop of `safe_truncate`; at 0 it ends by the first clause of the test.
unfoldable pub boundary_below : Text → ℕ → ℕ
boundary_below t zero = 0
boundary_below t (suc i) =
    let rest = boundary_below t i in if is_char_boundary t (suc i) then suc i else rest

unfoldable pub safe_truncate : Text → ℕ → Text × ℕ
safe_truncate t to = (take (boundary_below t to) t, to - boundary_below t to)

pub record LineBuffer : Type 0 where
  pub buffer : Text
  pub payload : Text
  pub fields : Text
  pub max_line_size : ℕ

abbrev pub with_capacity : ℕ → ℕ → LineBuffer
with_capacity capacity size = record {
  buffer = [];
  payload = [];
  fields = [];
  max_line_size = size;
}

abbrev pub as_str : LineBuffer → Text
as_str b = b.buffer

unfoldable pub clear : LineBuffer → LineBuffer
clear b = record b { buffer = []; payload = []; fields = [] }

unfoldable pub configure : LineBuffer → ℕ → LineBuffer
configure b size = record b { max_line_size = size }

-- `TruncatingWrite::len`, for a line that starts at `start` (`pre_start_buffer_size`).
unfoldable pub line_len : LineBuffer → ℕ → ℕ
line_len b start = length b.buffer - start + length b.payload + length b.fields

abbrev fits_marker : LineBuffer → ℕ → Bool
fits_marker b start = leb (line_len b start + length truncated_marker) b.max_line_size

-- One text loses up to `need` bytes; the number that the others have still to lose.
unfoldable pub erase : Text → ℕ → Text × ℕ
unfolding safe_truncate
erase t need =
    let part = min (length t) need in
    let (t', extra) = safe_truncate t (length t - part) in (t', need - part - extra)

unfoldable pub erase_line : LineBuffer → ℕ → ℕ → LineBuffer
unfolding erase safe_truncate
erase_line b start need =
    let (payload, need') = erase b.payload need in
    let (fields, need'') = erase b.fields need' in
    let part = min (length b.buffer - start) need'' in
    record b {
      buffer = (safe_truncate b.buffer (length b.buffer - part)).0;
      payload = payload;
      fields = fields;
    }

-- `probe_size_limit`: the buffer after, and whether the marker is to be written.
unfoldable pub probe_size_limit : LineBuffer → ℕ → LineBuffer × Bool
unfolding erase_line line_len
probe_size_limit b start =
    let len = line_len b start in
    if ltb b.max_line_size len
    then (let b' = erase_line b start (len - b.max_line_size + length truncated_marker) in
        (b', fits_marker b' start))
    else (b, fits_marker b start)

-- `try_commit` of a truncating write.
unfoldable pub truncating_commit : LineBuffer → ℕ → LineBuffer
unfolding probe_size_limit
truncating_commit b start =
    let (b', add_marker) = probe_size_limit b start in
    record b' {
      buffer =
          b'.buffer
          ++ (b'.payload
              ++ (b'.fields ++ ((if add_marker then truncated_marker else []) ++ newline ∷ [])));
    }

-- `try_commit` of a direct write, and `drop` if it fails.
unfoldable pub direct_commit : LineBuffer → ℕ → LineBuffer × Bool
direct_commit b start =
    if ltb b.max_line_size (length b.buffer - start)
    then (record b { buffer = take start b.buffer }, false)
    else (record b { buffer = b.buffer ++ newline ∷ [] }, true)

-- `format_event`: the parts of a line are written directly, and if that is too long, again with
-- truncation.
unfoldable pub format_line : LineBuffer → Text → Text → Text → LineBuffer
unfolding direct_commit truncating_commit
format_line b meta payload fields =
    let start = length b.buffer in
    let (b', fits) =
      direct_commit (record b { buffer = b.buffer ++ (meta ++ (payload ++ fields)) }) start in
    if fits
    then b'
    else truncating_commit
        (record b' {
          buffer = b'.buffer ++ meta;
          payload = b'.payload ++ payload;
          fields = b'.fields ++ fields;
        })
        (length b'.buffer)
