-- ===== src/Bridge/Exec/Cells.antt =====
-- One column of a DataRow in `pgl_exec` of native/bridge/pglite_bridge.c.
use pglite_ios.Common.{
  ℕ, suc, ◌+◌, ◌-◌, ◌/◌, ◌^◌, ◌<◌, ◌≡◌, refl, sym, ap, ◌∙◌, true, false, Bool-cases, inl, inr,
  Option, some, none, List, [], ◌∷◌, ◌++◌, append_assoc, append-nil, arith, ◌==◌, if◌then◌else◌,
  length, length-append, take, take-append, drop, drop-append, Bytes, u32, u8, int32, is_neg, codes,
}
use pglite_ios.Bridge.Frames.{be32, rd32}
use pglite_ios.Bridge.Frames.Laws.{rd32-be32, length-be32}
use pglite_ios.Bridge.Frames.Walk.{rd32-append}
use pglite_ios.Bridge.Exec.{sappend, separator, column_text}
use pglite_ios.Bridge.Exec.Clip.{sappend-take}

-- A value of a row; `none` is NULL.
abbrev pub Cell : Type 0
Cell = Option Bytes

unfoldable pub encode_cell : Cell → Bytes
encode_cell none = be32 (2 ^ 32 - 1)
encode_cell (some bs) = be32 (length bs) ++ bs

unfoldable pub encode_cells : List Cell → Bytes
unfolding encode_cell
encode_cells [] = []
encode_cells (c ∷ cs) = encode_cell c ++ encode_cells cs

-- The 16-bit count, then the cells.
unfoldable pub encode_row : List Cell → Bytes
unfolding encode_cells
encode_row cs = u8 (length cs / 2 ^ 8) ∷ u8 (length cs) ∷ encode_cells cs

abbrev pub cell_text : Cell → Bytes
cell_text none = codes "NULL"
cell_text (some bs) = bs

-- The texts of the cells, a tab between two of them; `c` cells stand before.
unfoldable pub join_cells : ℕ → List Cell → Bytes
join_cells c [] = []
join_cells c (x ∷ xs) = (if c == 0 then [] else 9 ∷ []) ++ (cell_text x ++ join_cells (c + 1) xs)

-- A value has a length that an `int32_t` holds.
abbrev pub CellFits : Cell → Type 0
CellFits none = Unit {0}
CellFits (some bs) = length bs < 2 ^ 31

abbrev pub CellsFit : List Cell → Type 0
CellsFit [] = Unit {0}
CellsFit (c ∷ cs) = CellFits c × CellsFit cs

pub separator-take :
    (k c : ℕ) (whole : Bytes)
    → suc k < 2 ^ 64
    → separator (suc k) c (take k whole) ≡ some (take k (whole ++ (if c == 0 then [] else 9 ∷ [])))
separator-take k c whole small = elim (Bool-cases (c == 0)) [
  | inl e ↦ rw e (ap (λ t. some (take k t)) (sym (append-nil whole)))
  | inr e ↦ rw e (sappend-take k whole (9 ∷ []) 1 small (omega arith))
]

-- The first bytes of a cell are its length word.
rd32-at :
    (before : Bytes) (v : ℕ) (rest : Bytes) (i : ℕ)
    → i ≡ length before
    → v < 2 ^ 32
    → rd32 (before ++ (be32 v ++ rest)) i ≡ v
rd32-at before v rest i e small =
    let at : i ≡ length before + 0 = omega (arith, e) in
    ap (rd32 (before ++ (be32 v ++ rest))) at
    ∙ rd32-append before (be32 v ++ rest) 0
    ∙ rd32-be32 v rest small

pub drop-at : (before rest : Bytes) (i : ℕ) → i ≡ length before → drop i (before ++ rest) ≡ rest
drop-at before rest i e = ap (λ j. drop j (before ++ rest)) e ∙ drop-append before rest

column_text-null :
    (reply out o : Bytes) (body outcap p v : ℕ)
    → rd32 reply (body + p) ≡ v
    → is_neg (int32 v) ≡ true
    → sappend outcap out (codes "NULL") 4 ≡ some o
    → column_text reply body outcap p out ≡ some (o, u32 (p + 4))
column_text-null reply out o body outcap p v e neg f = rw (e, neg, f) refl

column_text-value :
    (reply out o rest : Bytes) (body outcap p v : ℕ)
    → rd32 reply (body + p) ≡ v
    → is_neg (int32 v) ≡ false
    → drop (body + u32 (p + 4)) reply ≡ rest
    → sappend outcap out rest v ≡ some o
    → column_text reply body outcap p out ≡ some (o, u32 (u32 (p + 4) + v))
column_text-value reply out o rest body outcap p v e neg d f = rw (e, neg, d, f) refl

pub length-cell : (bs : Bytes) → length (be32 (length bs) ++ bs) ≡ 4 + length bs
length-cell bs = omega (arith, length-append (be32 (length bs)) bs, length-be32 (length bs))

int32-positive : (v : ℕ) → v < 2 ^ 31 → is_neg (int32 v) ≡ false
int32-positive v h = ground arith

-- One column: the text of the cell behind what is there, and the offset of the next cell.
pub column_text-cell :
    (k : ℕ) (whole before rest : Bytes) (body p : ℕ) (x : Cell)
    → suc k < 2 ^ 64
    → CellFits x
    → body + p ≡ length before
    → p + length (encode_cell x) < 2 ^ 32
    → column_text (before ++ (encode_cell x ++ rest)) body (suc k) p (take k whole)
      ≡ some (take k (whole ++ cell_text x), p + length (encode_cell x))
unfolding encode_cell
column_text-cell k whole before rest body p none small fit at size =
    let reply = before ++ (be32 (2 ^ 32 - 1) ++ rest) in
    let step : u32 (p + 4) ≡ p + length (be32 (2 ^ 32 - 1)) =
      omega (arith, length-be32 (2 ^ 32 - 1)) in
    column_text-null reply (take k whole) (take k (whole ++ codes "NULL")) body (suc k) p
      (2 ^ 32 - 1) (rd32-at before (2 ^ 32 - 1) rest (body + p) at (omega arith)) refl
      (sappend-take k whole (codes "NULL") 4 small (omega arith))
    ∙ ap (λ q. some (take k (whole ++ codes "NULL"), q)) step
column_text-cell k whole before rest body p (some bs) small fit at size =
    let n = length bs in
    let word = be32 n in
    let reply = before ++ ((word ++ bs) ++ rest) in
    let front : reply ≡ before ++ (word ++ (bs ++ rest)) =
      ap (λ t. before ++ t) (append_assoc word bs rest) in
    let back : reply ≡ (before ++ word) ++ (bs ++ rest) =
      front ∙ sym (append_assoc before word (bs ++ rest)) in
    let read : rd32 reply (body + p) ≡ n =
      ap (λ t. rd32 t (body + p)) front
      ∙ rd32-at before n (bs ++ rest) (body + p) at (omega (arith, fit)) in
    let fits = length-cell bs in
    let start : body + u32 (p + 4) ≡ length (before ++ word) =
      omega (arith, at, size, fits, length-append before word, length-be32 n) in
    let src : drop (body + u32 (p + 4)) reply ≡ bs ++ rest =
      ap (drop (body + u32 (p + 4))) back
      ∙ drop-at (before ++ word) (bs ++ rest) (body + u32 (p + 4)) start in
    let copy : sappend (suc k) (take k whole) (bs ++ rest) n ≡ some (take k (whole ++ bs)) =
      sappend-take k whole (bs ++ rest) n small (omega (arith, length-append bs rest))
      ∙ ap (λ t. some (take k (whole ++ t))) (take-append bs rest) in
    let step : u32 (u32 (p + 4) + n) ≡ p + length (word ++ bs) = omega (arith, size, fits) in
    column_text-value reply (take k whole) (take k (whole ++ bs)) (bs ++ rest) body (suc k) p n read
      (int32-positive n fit) src copy
    ∙ ap (λ q. some (take k (whole ++ bs), q)) step
