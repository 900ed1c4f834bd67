-- ===== src/Bridge/Exec/Rows.antt =====
-- The DataRow branch of `pgl_exec` of native/bridge/pglite_bridge.c, on encoded rows.
use pglite_ios.Common.{
  ℕ, suc, ◌+◌, ◌-◌, ◌*◌, ◌/◌, ◌^◌, ◌≤◌, ◌<◌, ◌≡◌, refl, sym, ap, ◌∙◌, false, some, none, List, [],
  ◌∷◌, ◌++◌, append_assoc, append-nil, arith, ltb, ◌==◌, le→ltb, if◌then◌else◌, length,
  length-append, get_or, get_or-append_right, take, Bytes, u32, u8,
}
use pglite_ios.Bridge.Frames.Laws.{length-be32}
use pglite_ios.Bridge.Exec.{sappend, separator, column_text, columns_loop, data_row}
use pglite_ios.Bridge.Exec.Clip.{sappend-take}
use pglite_ios.Bridge.Exec.Cells.{
  cell_text, separator-take, length-cell, column_text-cell, Cell, encode_cell, encode_cells,
  encode_row, join_cells, CellsFit,
}

length-encode_cell : (x : Cell) → 4 ≤ length (encode_cell x)
unfolding encode_cell
length-encode_cell none = omega (arith, length-be32 (2 ^ 32 - 1))
length-encode_cell (some bs) = omega (arith, length-cell bs)

columns_loop-suc :
    (reply out o1 o2 : Bytes) (body blen outcap n c p q : ℕ)
    → separator outcap c out ≡ some o1
    → ltb blen (u32 (p + 4)) ≡ false
    → column_text reply body outcap p o1 ≡ some (o2, q)
    → columns_loop reply body blen outcap (suc n) c p out
      ≡ columns_loop reply body blen outcap n (c + 1) q o2
unfolding columns_loop
columns_loop-suc reply out o1 o2 body blen outcap n c p q e f g = rw (columns_loop, e, f, g) refl

-- The loop over the columns writes the texts of the cells that it finds at `p`.
columns_loop-cells :
    (k : ℕ) (whole before rest : Bytes) (body blen c p : ℕ) (cs : List Cell)
    → suc k < 2 ^ 64
    → CellsFit cs
    → body + p ≡ length before
    → p + length (encode_cells cs) ≤ blen
    → blen < 2 ^ 32
    → columns_loop
        (before ++ (encode_cells cs ++ rest))
        body
        blen
        (suc k)
        (length cs)
        c
        p
        (take k whole)
      ≡ some (take k (whole ++ join_cells c cs))
unfolding encode_cells join_cells
columns_loop-cells k whole before rest body blen c p [] small fit at within size =
    unfold columns_loop in ap (λ t. some (take k t)) (sym (append-nil whole))
columns_loop-cells k whole before rest body blen c p (x ∷ xs) small fit at within size =
    let cell = encode_cell x in
    let tail = encode_cells xs ++ rest in
    let reply = before ++ ((cell ++ encode_cells xs) ++ rest) in
    let gap : Bytes = (if c == 0 then [] else 9 ∷ []) in
    let long = length-append cell (encode_cells xs) in
    let four = length-encode_cell x in
    let front : reply ≡ before ++ (cell ++ tail) =
      ap (λ t. before ++ t) (append_assoc cell (encode_cells xs) rest) in
    let back : reply ≡ (before ++ cell) ++ tail = front ∙ sym (append_assoc before cell tail) in
    let word : ltb blen (u32 (p + 4)) ≡ false = le→ltb blen (u32 (p + 4)) (omega arith) in
    let read : column_text reply body (suc k) p (take k (whole ++ gap))
        ≡ some (take k ((whole ++ gap) ++ cell_text x), p + length cell) =
      ap (λ t. column_text t body (suc k) p (take k (whole ++ gap))) front
      ∙ column_text-cell k (whole ++ gap) before tail body p x small fit.0 at (omega arith) in
    let at' : body + (p + length cell) ≡ length (before ++ cell) =
      omega (arith, length-append before cell) in
    columns_loop-suc reply (take k whole) (take k (whole ++ gap))
      (take k ((whole ++ gap) ++ cell_text x)) body blen (suc k) (length xs) c p (p + length cell)
      (separator-take k c whole small) word read
    ∙ ap
        (λ t.
          columns_loop t body blen (suc k) (length xs) (c + 1) (p + length cell)
            (take k ((whole ++ gap) ++ cell_text x)))
        back
    ∙ columns_loop-cells k ((whole ++ gap) ++ cell_text x) (before ++ cell) rest body blen (c + 1)
        (p + length cell) xs small fit.1 at' (omega arith) size
    ∙ ap (λ t. some (take k t))
        (append_assoc (whole ++ gap) (cell_text x) (join_cells (c + 1) xs)
          ∙ append_assoc whole gap (cell_text x ++ join_cells (c + 1) xs))

-- The text of a row.
unfoldable pub render_row : List Cell → Bytes
unfolding join_cells
render_row cs = join_cells 0 cs ++ 10 ∷ []

data_row-done :
    (reply out o o' : Bytes) (body blen outcap n : ℕ)
    → get_or reply body 0 * 2 ^ 8 + get_or reply (body + 1) 0 ≡ n
    → ltb (length reply) (body + 2) ≡ false
    → columns_loop reply body blen outcap n 0 2 out ≡ some o
    → sappend outcap o (10 ∷ []) 1 ≡ some o'
    → data_row reply body blen outcap out ≡ some o'
unfolding data_row
data_row-done reply out o o' body blen outcap n e f g h = rw (data_row, e, f, g, h) refl

-- A DataRow, wherever in the reply it stands, adds the text of its row.
pub data_row-row :
    (k : ℕ) (whole before rest : Bytes) (cs : List Cell)
    → suc k < 2 ^ 64
    → CellsFit cs
    → length cs < 2 ^ 16
    → length (encode_row cs) < 2 ^ 32
    → data_row
        (before ++ (encode_row cs ++ rest))
        (length before)
        (length (encode_row cs))
        (suc k)
        (take k whole)
      ≡ some (take k (whole ++ render_row cs))
unfolding encode_row render_row
data_row-row k whole before rest cs small fit few size =
    let n = length cs in
    let count = u8 (n / 2 ^ 8) ∷ u8 n ∷ [] in
    let reply = before ++ (u8 (n / 2 ^ 8) ∷ u8 n ∷ encode_cells cs ++ rest) in
    let body = length before in
    let back : reply ≡ (before ++ count) ++ (encode_cells cs ++ rest) =
      sym (append_assoc before count (encode_cells cs ++ rest)) in
    let high = get_or-append_right before (u8 (n / 2 ^ 8) ∷ u8 n ∷ encode_cells cs ++ rest) 0 0 in
    let low = get_or-append_right before (u8 (n / 2 ^ 8) ∷ u8 n ∷ encode_cells cs ++ rest) 1 0 in
    let here : body ≡ body + 0 = omega arith in
    let high' : get_or reply body 0 ≡ u8 (n / 2 ^ 8) = ap (λ i. get_or reply i 0) here ∙ high in
    let room : ltb (length reply) (body + 2) ≡ false =
      le→ltb (length reply) (body + 2)
        (omega (arith, length-append before (u8 (n / 2 ^ 8) ∷ u8 n ∷ encode_cells cs ++ rest))) in
    let columns =
      ap (λ t. columns_loop t body (length (encode_row cs)) (suc k) n 0 2 (take k whole)) back
      ∙ columns_loop-cells k whole (before ++ count) rest body (length (encode_row cs)) 0 2 cs small
          fit (sym (length-append before count)) (omega arith) size in
    data_row-done reply (take k whole) (take k (whole ++ join_cells 0 cs)) _ body
      (length (encode_row cs)) (suc k) n (omega (arith, high', low)) room columns
      (sappend-take k (whole ++ join_cells 0 cs) (10 ∷ []) 1 small (omega arith))
    ∙ ap (λ t. some (take k t)) (append_assoc whole (join_cells 0 cs) (10 ∷ []))
