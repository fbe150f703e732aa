-- ===== src/Display/Widths.antt =====
-- The widths of the cells of a table (ha-test/hatest/console.py).
use Prim.Native.Char.{Char, char}
use Prim.Native.String.append.{nil, cons}
use spr1n6_osscontest_server.Common.{
  ℕ, zero, suc, ◌+◌, ◌-◌, ◌≤◌, max, ◌≡◌, refl, String, Bool, false, List, [], ◌∷◌, arith, ◌<>◌,
  length, All, ap, map, join,
}
use spr1n6_osscontest_server.Display.{
  spaces, display_width, pad, widen, widths_of, pad_cells, line_of, table,
}
use spr1n6_osscontest_server.Config.Load.{is_blank, rstrip_by}

module _ (wide : Char → Bool) where
  append-width :
      (s t : String) → display_width wide (s <> t) ≡ display_width wide s + display_width wide t
  unfolding display_width
  append-width String.[] t = rw (nil t) (omega arith)
  append-width (String.◌∷◌ c s) t = rw (cons c s t) (omega (arith, append-width s t))

  spaces-width : wide (char 32 tt) ≡ false → (n : ℕ) → display_width wide (spaces n) ≡ n
  unfolding display_width
  spaces-width narrow zero = refl
  spaces-width narrow (suc n) =
      omega (arith, append-width " " (spaces n), spaces-width narrow n, one)
    where
      one : display_width wide " " ≡ 1
      one = rw narrow refl

  pad-width :
      wide (char 32 tt) ≡ false
      → (text : String) (width : ℕ)
      → display_width wide (pad wide text width) ≡ max width (display_width wide text)
  unfolding pad
  pad-width narrow text width = omega (
    arith,
    append-width text (spaces (width - display_width wide text)),
    spaces-width narrow (width - display_width wide text),
  )

  -- A row has a cell for each column, and no cell is wider than its column.
  abbrev pub Fits : List String → List ℕ → Type 0
  Fits [] [] = Unit
  Fits [] (_ ∷ _) = ⊥
  Fits (_ ∷ _) [] = ⊥
  Fits (cell ∷ cells) (w ∷ widths) = (display_width wide cell ≤ w) × Fits cells widths

  pad_cells-Fits :
      wide (char 32 tt) ≡ false
      → (cells : List String) (widths : List ℕ) → Fits cells widths
      → map (display_width wide) (pad_cells wide cells widths) ≡ widths
  pad_cells-Fits narrow [] [] h = refl
  pad_cells-Fits narrow [] (w ∷ widths) h = absurd h
  pad_cells-Fits narrow (x ∷ cells) [] h = absurd h
  pad_cells-Fits narrow (cell ∷ cells) (w ∷ widths) h =
      rw (pad-width narrow cell w, pad_cells-Fits narrow cells widths h.1)
        (ap (λ v. v ∷ widths) (omega (arith, h.0)))

  widen-Fits :
      (cells : List String) (widths : List ℕ)
      → length cells ≡ length widths
      → Fits cells (widen wide widths cells)
  widen-Fits [] [] h = tt
  widen-Fits [] (w ∷ widths) h = cc
  widen-Fits (x ∷ cells) [] h = cc
  widen-Fits (cell ∷ cells) (w ∷ widths) h =
      (omega arith, widen-Fits cells widths (omega (arith, h)))

  Fits-widen :
      (cells row : List String) (widths : List ℕ)
      → Fits cells widths
      → length row ≡ length widths
      → Fits cells (widen wide widths row)
  Fits-widen [] row [] h e = tt
  Fits-widen [] row (w ∷ widths) h e = absurd h
  Fits-widen (x ∷ cells) row [] h e = absurd h
  Fits-widen (cell ∷ cells) [] (w ∷ widths) h e = cc
  Fits-widen (cell ∷ cells) (r ∷ row) (w ∷ widths) h e =
      (omega (arith, h.0), Fits-widen cells row widths h.1 (omega (arith, e)))

  length-widen :
      (row : List String) (widths : List ℕ)
      → length row ≡ length widths
      → length (widen wide widths row) ≡ length widths
  length-widen row [] h = refl
  length-widen [] (w ∷ widths) h = cc
  length-widen (r ∷ row) (w ∷ widths) h = omega (arith, length-widen row widths (omega (arith, h)))

  -- Every row has `n` cells.
  abbrev pub HasCells : ℕ → List (List String) → Type 0
  HasCells n rows = All (λ row. length row ≡ n) rows

  Fits-widths_of :
      (cells : List String) (rows : List (List String)) (widths : List ℕ)
      → Fits cells widths
      → HasCells (length widths) rows
      → Fits cells (widths_of wide widths rows)
  Fits-widths_of cells [] widths h k = h
  Fits-widths_of cells (row ∷ rows) widths h k =
      Fits-widths_of cells rows (widen wide widths row) (Fits-widen cells row widths h k.0)
        (rw (length-widen row widths k.0) k.1)

  widths_of-Fits :
      (rows : List (List String)) (widths : List ℕ)
      → HasCells (length widths) rows
      → All (λ row. Fits row (widths_of wide widths rows)) rows
  widths_of-Fits [] widths k = tt
  widths_of-Fits (row ∷ rows) widths k =
      let e = length-widen row widths k.0 in
      (
        Fits-widths_of row rows (widen wide widths row) (widen-Fits row widths k.0) (rw e k.1),
        widths_of-Fits rows (widen wide widths row) (rw e k.1),
      )

-- A row of cells, each with spaces after it.
abbrev pub IsPadded : List String → List String → Type 0
IsPadded [] [] = Unit
IsPadded [] (_ ∷ _) = ⊥
IsPadded (_ ∷ _) [] = ⊥
IsPadded (cell ∷ cells) (p ∷ padded) = ((n : ℕ) × (p ≡ cell <> spaces n)) × IsPadded cells padded

-- The rows as they stand in a table, where every row takes the same columns.
abbrev pub AreAligned : (Char → Bool) → List ℕ → List (List String) → List (List String) → Type 0
AreAligned wide widths [] [] = Unit
AreAligned wide widths [] (_ ∷ _) = ⊥
AreAligned wide widths (_ ∷ _) [] = ⊥
AreAligned wide widths (row ∷ rows) (line ∷ lines) =
    (IsPadded row line × (map (display_width wide) line ≡ widths))
    × AreAligned wide widths rows lines

-- A text that is the header and the rows of a table, one below the other, with each cell padded to the
-- width of its column; the blanks at the end of a line are left out.
pub record IsTable (wide : Char → Bool) (rows : List (List String)) (shown : String) : Type 0 where
  pub widths : List ℕ
  pub lines : List (List String)
  pub aligned : AreAligned wide widths rows lines
  pub text : shown ≡ join "\n" (map (λ cells. rstrip_by is_blank (join "  " cells)) lines)

module _ (wide : Char → Bool) (narrow : wide (char 32 tt) ≡ false) where
  pad_cells-IsPadded :
      (cells : List String) (widths : List ℕ)
      → Fits wide cells widths
      → IsPadded cells (pad_cells wide cells widths)
  unfolding pad
  pad_cells-IsPadded [] [] h = tt
  pad_cells-IsPadded [] (w ∷ widths) h = absurd h
  pad_cells-IsPadded (x ∷ cells) [] h = absurd h
  pad_cells-IsPadded (cell ∷ cells) (w ∷ widths) h =
      ((w - display_width wide cell, refl), pad_cells-IsPadded cells widths h.1)

  rows-AreAligned :
      (widths : List ℕ) (rows : List (List String))
      → All (λ row. Fits wide row widths) rows
      → AreAligned wide widths rows (map (λ row. pad_cells wide row widths) rows)
  rows-AreAligned widths [] h = tt
  rows-AreAligned widths (row ∷ rows) h = (
    (pad_cells-IsPadded row widths h.0, pad_cells-Fits wide narrow row widths h.0),
    rows-AreAligned widths rows h.1,
  )

  headers-Fits : (headers : List String) → Fits wide headers (map (display_width wide) headers)
  headers-Fits [] = tt
  headers-Fits (h ∷ headers) = (omega arith, headers-Fits headers)

  lines-text :
      (widths : List ℕ) (rows : List (List String))
      → map (line_of wide widths) rows
        ≡ map
            (λ cells. rstrip_by is_blank (join "  " cells))
            (map (λ row. pad_cells wide row widths) rows)
  lines-text widths [] = refl
  lines-text widths (row ∷ rows) =
      ap (λ lines. line_of wide widths row ∷ lines) (lines-text widths rows)

  -- If a space takes one column and every row has as many cells as the header, then a table is the
  -- header and the rows, one below the other, with the cells padded so that every line takes the same
  -- columns; the blanks at the end of a line are left out.
  pub table-aligned :
      (headers : List String) (rows : List (List String))
      → HasCells wide (length (map (display_width wide) headers)) rows
      → IsTable wide (headers ∷ rows) (table wide headers rows)
  unfolding table
  table-aligned headers rows k =
      let start = map (display_width wide) headers in
      let widths = widths_of wide start rows in
      record {
        widths = widths;
        lines = map (λ row. pad_cells wide row widths) (headers ∷ rows);
        aligned = rows-AreAligned widths (headers ∷ rows) (
          Fits-widths_of wide headers rows start (headers-Fits headers) k,
          widths_of-Fits wide rows start k,
        );
        text = ap (join "\n") (lines-text widths (headers ∷ rows));
      }
