-- ===== src/Logger/LineBuffer/Bounds.antt =====
-- How long a line becomes.
use native.Mathlib.Nat.{add-sub_cancel_left}
use elfo.Base.{
  ℕ, zero, suc, ◌+◌, ◌-◌, ◌≤◌, ◌<◌, min, ◌≡◌, refl, sym, ap, ◌∙◌, ◌⊎◌, inl, inr, Bool, true, false,
  false≢true, ◌||◌, [], ◌∷◌, ◌++◌, append_assoc, arith, ltb, ◌==◌, if◌then◌else◌, Bool-cases,
  length, get_elem?, length-append, take, length-take, take-length-append, take-take,
  take-append_le, get_elem?-append,
}
use elfo.Logger.LineBuffer.{
  Text, truncated_marker, newline, starts_char, is_char_boundary, boundary_below, LineBuffer,
  line_len, erase, erase_line, probe_size_limit, truncating_commit, direct_commit, format_line,
}

boundary_below-le : (t : Text) (i : ℕ) → boundary_below t i ≤ i
unfolding boundary_below
boundary_below-le t zero = omega arith
boundary_below-le t (suc i) = ground (arith, boundary_below-le t i)

below_or_top : (i j : ℕ) → j ≤ suc i → (j ≤ i) ⊎ (j ≡ suc i)
below_or_top i j h = ground arith

-- It does not go below another boundary.
boundary_below-ge :
    (t : Text) (i j : ℕ) → is_char_boundary t j ≡ true → j ≤ i → j ≤ boundary_below t i
unfolding boundary_below
boundary_below-ge t zero j h p = p
boundary_below-ge t (suc i) j h p = elim (Bool-cases (is_char_boundary t (suc i))) [
  | inl at ↦ rw at p
  | inr between ↦ rw between (elim (below_or_top i j p) [
    | inl q ↦ boundary_below-ge t i j h q
    | inr e ↦ absurd (false≢true (sym between ∙ ap (is_char_boundary t) (sym e) ∙ h))
  ])
]

-- What is not erased of one text is left to the others, unless the text is empty after it.
erase_lem :
    (t : Text) (need : ℕ)
    → (length (erase t need).0 + need ≤ length t + (erase t need).1)
      × (length (erase t need).0 ≤ length t)
      × (((erase t need).1 ≡ 0) ⊎ (length (erase t need).0 ≡ 0))
unfolding erase
erase_lem t need =
    let to = length t - min (length t) need in
    ground (arith, boundary_below-le t to, length-take (boundary_below t to) t)

-- The texts after an erasure fit in what was to be left of the line.
erase_line_lem :
    (b : LineBuffer) (start need : ℕ)
    → start ≤ length b.buffer
    → is_char_boundary b.buffer start ≡ true
    → (start ≤ length (erase_line b start need).buffer)
      × (take start (erase_line b start need).buffer ≡ take start b.buffer)
      × (line_len (erase_line b start need) start ≤ line_len b start - need)
      × ((erase_line b start need).max_line_size ≡ b.max_line_size)
unfolding erase_line line_len
erase_line_lem b start need h k =
    let (p, n1) = erase b.payload need in
    let (f, n2) = erase b.fields n1 in
    let to = length b.buffer - min (length b.buffer - start) n2 in
    ground (
      arith,
      erase_lem b.payload need,
      erase_lem b.fields n1,
      boundary_below-le b.buffer to,
      boundary_below-ge b.buffer to start k,
      length-take (boundary_below b.buffer to) b.buffer,
      take-take start (boundary_below b.buffer to) b.buffer,
    )

probe_lem :
    (b : LineBuffer) (start : ℕ)
    → start ≤ length b.buffer
    → is_char_boundary b.buffer start ≡ true
    → let (b', marked) = probe_size_limit b start in
      (start ≤ length b'.buffer)
      × (take start b'.buffer ≡ take start b.buffer)
      × (line_len b' start + (if marked then length truncated_marker else 0) ≤ b.max_line_size)
unfolding probe_size_limit
probe_lem b start h k =
    let need = line_len b start - b.max_line_size + length truncated_marker in
    ground (arith, erase_line_lem b start need h k)

-- A truncating write always ends with a whole line: what stood in the buffer before the line stays,
-- and the line with its truncation marker, but without the newline, is no longer than the limit.
-- The line must start in the buffer, at the start of a character.
truncating_commit-bounded :
    (b : LineBuffer) (start : ℕ)
    → start ≤ length b.buffer
    → is_char_boundary b.buffer start ≡ true
    → let b' = truncating_commit b start in
      (take start b'.buffer ≡ take start b.buffer)
      × (length b'.buffer ≤ start + b.max_line_size + 1)
unfolding truncating_commit line_len
truncating_commit-bounded b start h k =
    let b' = (probe_size_limit b start).0 in
    let mark = if (probe_size_limit b start).1 then truncated_marker else [] in
    let tail = b'.payload ++ (b'.fields ++ (mark ++ newline ∷ [])) in
    let (inside, kept, small) = probe_lem b start h k in
    (take-append_le start b'.buffer tail inside ∙ kept, simp length-append (ground arith))

-- A text is empty or starts with a character.
abbrev pub starts_text : Text → Bool
starts_text t = length t == 0 || starts_char (get_elem? t 0)

boundary-append :
    (xs ys : Text) → starts_text ys ≡ true → is_char_boundary (xs ++ ys) (length xs) ≡ true
unfolding is_char_boundary
boundary-append [] ys h = refl
boundary-append (x ∷ xs) ys h = rw (get_elem?-append xs ys, length-append xs ys) (ground arith)

-- The line does not fit.
format_line-cut :
    (b : LineBuffer) (meta payload fields : Text)
    → ltb b.max_line_size (length (meta ++ (payload ++ fields))) ≡ true
    → format_line b meta payload fields
      ≡ truncating_commit
          (record b {
            buffer = b.buffer ++ meta;
            payload = b.payload ++ payload;
            fields = b.fields ++ fields;
          })
          (length b.buffer)
unfolding format_line direct_commit
format_line-cut b meta payload fields h =
    let line = meta ++ (payload ++ fields) in
    rw (
      length-append b.buffer line,
      add-sub_cancel_left (length b.buffer) (length line),
      h,
      take-length-append b.buffer line,
    )

-- The line fits.
format_line-whole :
    (b : LineBuffer) (meta payload fields : Text)
    → ltb b.max_line_size (length (meta ++ (payload ++ fields))) ≡ false
    → format_line b meta payload fields
      ≡ record b { buffer = (b.buffer ++ (meta ++ (payload ++ fields))) ++ newline ∷ [] }
unfolding format_line direct_commit
format_line-whole b meta payload fields h =
    let line = meta ++ (payload ++ fields) in
    rw (length-append b.buffer line, add-sub_cancel_left (length b.buffer) (length line), h)

-- A line of `format_event` that fits is written as it is, and one that does not is cut. In both
-- cases what stood in the buffer stays in front of it, and the line without its newline is no
-- longer than the limit. The first part of the line must be a text of whole characters.
pub format_line-bounded :
    (b : LineBuffer) (meta payload fields : Text)
    → starts_text meta ≡ true
    → let b' = format_line b meta payload fields in
      let line = meta ++ (payload ++ fields) in
      (take (length b.buffer) b'.buffer ≡ b.buffer)
      × (length b'.buffer ≤ length b.buffer + b.max_line_size + 1)
      × ((b.max_line_size < length line) ⊎ (b'.buffer ≡ (b.buffer ++ line) ++ newline ∷ []))
format_line-bounded b meta payload fields m =
    let line = meta ++ (payload ++ fields) in
    elim (Bool-cases (ltb b.max_line_size (length line))) [
      | inl long ↦
          let (kept, small) =
            truncating_commit-bounded
              (record b {
                buffer = b.buffer ++ meta;
                payload = b.payload ++ payload;
                fields = b.fields ++ fields;
              })
              (length b.buffer) (rw (length-append b.buffer meta) (omega arith))
              (boundary-append b.buffer meta m) in
          rw (format_line-cut b meta payload fields long)
            (kept ∙ take-length-append b.buffer meta, small, inl (ground arith))
      | inr short ↦ rw (format_line-whole b meta payload fields short) (
        rw append_assoc (take-length-append b.buffer (line ++ newline ∷ [])),
        rw (length-append (b.buffer ++ line) (newline ∷ []), length-append b.buffer line)
            (ground arith),
        inr refl,
      )
    ]
