-- ===== src/Logger/Examples.antt =====
-- The theorems about elfo-logger at concrete inputs.
use elfo.Base.{◌+◌, ◌≤◌, ◌<◌, ◌≡◌, refl, ◌⊎◌, [], ◌∷◌, length, take}
use elfo.Logger.LineBuffer.{newline, LineBuffer, format_line}
use elfo.Logger.LineBuffer.Bounds.{format_line-bounded}

-- A line of five bytes behind another of two, with a limit of four bytes.
abbrev one_line : LineBuffer
one_line = record {
  buffer = 97 ∷ 10 ∷ 98 ∷ [];
  payload = 99 ∷ 195 ∷ 169 ∷ [];
  fields = 100 ∷ [];
  max_line_size = 4;
}

format_line-bounded_example :
    (take 3 (format_line one_line (101 ∷ []) (102 ∷ []) []).buffer ≡ 97 ∷ 10 ∷ 98 ∷ [])
    × (length (format_line one_line (101 ∷ []) (102 ∷ []) []).buffer ≤ 3 + 4 + 1)
    × ((4 < 2)
        ⊎ ((format_line one_line (101 ∷ []) (102 ∷ []) []).buffer
            ≡ 97 ∷ 10 ∷ 98 ∷ 101 ∷ 102 ∷ newline ∷ []))
format_line-bounded_example = format_line-bounded one_line (101 ∷ []) (102 ∷ []) [] refl
