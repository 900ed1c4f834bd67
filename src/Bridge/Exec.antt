-- ===== src/Bridge/Exec.antt =====
-- `simple_query`, `pgl_exec` and the raw wire calls of native/bridge/pglite_bridge.c.
pub mod Clip
pub mod Cells
pub mod Rows
pub mod Errors
pub mod Messages
pub mod Render
pub mod Replies
pub mod Stable
use pglite_ios.Common.{
  ℕ, zero, suc, ◌+◌, ◌-◌, ◌*◌, ◌%◌, ◌^◌, true, false, ◌||◌, Option, none, some, List, [], ◌∷◌, ◌++◌,
  ltb, leb, ◌==◌, if◌then◌else◌, length, get_or, take, drop, min, Bytes, ℤ, pos, negsuc, int32,
  is_neg, u32, codes,
}
use pglite_ios.Wasi.State.{c_string}
use pglite_ios.Bridge.Frames.{be32, rd32, frame_at, next_off}
use pglite_ios.Bridge.Db.{Db, Out, Cmd, done, stop, out_of_fuel, pure, halt, gets, ◌>>=◌, ◌>>◌}
use pglite_ios.Bridge.Pump.{exchange}

-- 'Q', the length, the text and its NUL.
unfoldable pub query_message : Bytes → Bytes
unfolding be32
query_message sql = b'Q' ∷ be32 (u32 (4 + (length sql + 1))) ++ sql ++ 0 ∷ []

-- `stop` is -1.
unfoldable pub simple_query : ℕ → Bytes → Cmd Bytes
unfolding query_message exchange
simple_query fuel sql = do
  alloc_ok ← gets (λ db. db.alloc_ok)
  (if alloc_ok (5 + (length sql + 1)) then exchange fuel (query_message sql) else halt)

-- The bytes copied to `out`, and their number.
unfoldable pgl_exec_wire : ℕ → Bytes → ℕ → Cmd (Bytes × ℕ)
unfolding exchange
pgl_exec_wire fuel payload outcap = do
  reply ← exchange fuel payload
  let n = (if ltb (length reply) outcap then length reply else outcap)
  pure (take n reply, n)

unfoldable pgl_exec_wire_alloc : ℕ → Bytes → Cmd (Bytes × ℕ)
unfolding exchange
pgl_exec_wire_alloc fuel payload = do reply ← exchange fuel payload; pure (reply, length reply)

-- A `size_t` subtraction.
abbrev pub size_sub : ℕ → ℕ → ℕ
size_sub a b = (a + 2 ^ 64 - b) % 2 ^ 64

-- `out` is the text so far, `used` its length, and `s` the bytes that may be read at the source.
-- `none`: the copy reads or writes out of bounds.
pub sappend : ℕ → Bytes → Bytes → ℕ → Option Bytes
sappend outcap out s n =
    let n' = (if leb outcap (length out + n) then size_sub outcap (length out + 1) else n) in
    if ltb (length s) n' || leb outcap (length out + n') then none else some (out ++ take n' s)

infixl 5 ◌>>>=◌
abbrev pub ◌>>>=◌ : {A B : Type 0} → Option A → (A → Option B) → Option B
m >>>= f = elim m [ none ↦ none | some a ↦ f a ]

-- One column of a row: what `sappend` is given, and where the next column starts.
abbrev pub column_text : Bytes → ℕ → ℕ → ℕ → Bytes → Option (Bytes × ℕ)
column_text reply body outcap p out =
    let vlen = rd32 reply (body + p) in
    let p' = u32 (p + 4) in
    if is_neg (int32 vlen)
    then (sappend outcap out (codes "NULL") 4 >>>= λ out'. some (out', p'))
    else (sappend outcap out (drop (body + p') reply) vlen >>>= λ out'.
        some (out', u32 (p' + vlen)))

-- `if (c) sappend(out, outcap, &used, "\t", 1);`
abbrev pub separator : ℕ → ℕ → Bytes → Option Bytes
separator outcap c out = if c == 0 then some out else sappend outcap out (9 ∷ []) 1

-- The columns, with `n` left from column `c` at offset `p` of the body.
unfoldable columns_loop : Bytes → ℕ → ℕ → ℕ → ℕ → ℕ → ℕ → Bytes → Option Bytes
unfolding sappend rd32
columns_loop reply body blen outcap zero c p out = some out
columns_loop reply body blen outcap (suc n) c p out = separator outcap c out >>>= λ out'.
    elim (ltb blen (u32 (p + 4))) [
      | true ↦ some out'
      | false ↦ column_text reply body outcap p out' >>>= λ r.
          columns_loop reply body blen outcap n (c + 1) r.1 r.0
    ]

-- DataRow: a 16-bit count, then the columns; `none` where the count itself is out of bounds.
unfoldable data_row : Bytes → ℕ → ℕ → ℕ → Bytes → Option Bytes
unfolding columns_loop
data_row reply body blen outcap out =
    let ncols = get_or reply body 0 * 2 ^ 8 + get_or reply (body + 1) 0 in
    if ltb (length reply) (body + 2)
    then none
    else (columns_loop reply body blen outcap ncols 0 2 out >>>= λ out'.
        sappend outcap out' (10 ∷ []) 1)

-- CommandComplete: '#', the tag up to its NUL, a newline.
unfoldable command_complete : Bytes → ℕ → ℕ → ℕ → Bytes → Option Bytes
unfolding sappend c_string
command_complete reply body blen outcap out =
    let tag = c_string (take blen (drop body reply)) in
    sappend outcap out (codes "#") 1 >>>= λ out1.
    (sappend outcap out1 tag (length tag) >>>= λ out2. sappend outcap out2 (10 ∷ []) 1)

-- `sev`, `msgtxt` and `code`, each cut to its array.
pub record ErrorText : Type 0 where
  pub severity : Bytes
  pub message : Bytes
  pub code : Bytes

abbrev pub no_error_text : ErrorText
no_error_text = record { severity = []; message = []; code = [] }

abbrev pub set_field : ℕ → Bytes → ErrorText → ErrorText
set_field k text e =
    if k == b'S'
    then record e { severity = take 63 text }
    else if k == b'M'
    then record e { message = take 511 text }
    else if k == b'C'
    then record e { code = take 15 text }
    else e

-- The fields of an ErrorResponse: a type byte and a text up to a NUL, until a type byte of 0.
unfoldable error_fields : ℕ → Bytes → ErrorText → ErrorText
unfolding c_string
error_fields zero f e = e
error_fields (suc k) [] e = e
error_fields (suc k) (t ∷ f) e = elim (t == 0) [
  | true ↦ e
  | false ↦ error_fields k (drop (length (c_string f) + 1) f) (set_field t (c_string f) e)
]

-- `snprintf(line, 640, "%s: %s (SQLSTATE %s)", ...)`, whole.
unfoldable error_line : ErrorText → Bytes
error_line e = e.severity ++ codes ": " ++ e.message ++ codes " (SQLSTATE " ++ e.code ++ codes ")"

-- ErrorResponse: the output starts anew with the line.
unfoldable error_response : Bytes → ℕ → ℕ → ℕ → Option Bytes
unfolding error_fields error_line sappend
error_response reply body blen outcap =
    let fields = take blen (drop body reply) in
    let line = error_line (error_fields (length fields) fields no_error_text) in
    sappend outcap [] (take 639 line) (length line)

-- `out` and `rc`.
abbrev pub Shown : Type 0
Shown = Bytes × ℤ

-- The body of the loop over the frames, by the type of the frame at `off` of length word `n`.
unfoldable show_frame : Bytes → ℕ → ℕ → ℕ → Shown → Option Shown
unfolding data_row command_complete error_response
show_frame reply off n outcap (out, rc) =
    let type = get_or reply off 0 in
    let body = off + 5 in
    let blen = n - 4 in
    if type == b'D'
    then (data_row reply body blen outcap out >>>= λ out'. some (out', rc))
    else if type == b'C'
    then (command_complete reply body blen outcap out >>>= λ out'. some (out', rc))
    else if type == b'E'
    then (error_response reply body blen outcap >>>= λ out'. some (out', negsuc 0))
    else some (out, rc)

unfoldable show_loop : ℕ → Bytes → ℕ → ℕ → Shown → Option Shown
unfolding frame_at next_off show_frame
show_loop zero reply off outcap s = some s
show_loop (suc k) reply off outcap s = elim (frame_at reply off) [
  | none ↦ some s
  | some n ↦ show_frame reply off n outcap s >>>= λ s'. elim (next_off off n) [
    | none ↦ none
    | some off' ↦ show_loop k reply off' outcap s'
  ]
]

-- What `pgl_exec` makes of a reply: the text and the result, or `none` for a run out of
-- bounds or without end.
pub show_reply : Bytes → ℕ → Option Shown
unfolding show_loop
show_reply reply outcap = show_loop (length reply) reply 0 outcap ([], pos 0)

abbrev pub shown_or_dead : ℕ → Out Bytes × Db → Out (Option Shown) × Db
shown_or_dead outcap (done reply, db) = (done (show_reply reply outcap), db)
shown_or_dead outcap (stop, db) = (done (some ([], negsuc 1)), db)
shown_or_dead outcap (out_of_fuel, db) = (out_of_fuel, db)

-- -2 where the query got no reply.
unfoldable pub pgl_exec : ℕ → Bytes → ℕ → Cmd (Option Shown)
unfolding simple_query show_reply
pgl_exec fuel sql outcap db = shown_or_dead outcap (simple_query fuel sql db)
