-- ===== src/Bridge/Exec/Messages.antt =====
-- The messages of the engine, and the rounds of the loop of `pgl_exec` of
-- native/bridge/pglite_bridge.c.
use pglite_ios.Common.{
  ℕ, zero, suc, ◌+◌, ◌-◌, ◌^◌, ◌<◌, ◌≡◌, refl, sym, ap, ◌∙◌, false, some, none, List, [], ◌∷◌, ◌++◌,
  append_assoc, arith, ◌==◌, length, length-append, get_or, get_or-append_right, take, Bytes, ℤ,
  negsuc,
}
use pglite_ios.Bridge.Frames.{be32, frame_at}
use pglite_ios.Bridge.Frames.Laws.{Frame, encode, length-be32}
use pglite_ios.Bridge.Frames.Walk.{next_off-below}
use pglite_ios.Bridge.Exec.{
  Shown, data_row, command_complete, error_response, show_frame, show_loop,
}
use pglite_ios.Bridge.Exec.Cells.{Cell, encode_row, CellsFit}
use pglite_ios.Bridge.Exec.Rows.{render_row}
use pglite_ios.Bridge.Exec.Errors.{NoNul, render_tag, Field, encode_fields, FieldsFit, render_error}

-- A message of the engine: a row, the end of a command with its tag, an error, or another.
pub data Message : Type 0 where
  row : List Cell → Message
  complete : Bytes → Message
  failure : List Field → Message
  other : ℕ → Bytes → Message

abbrev pub frame_of : Message → Frame
frame_of (row cs) = record { type = b'D'; body = encode_row cs }
frame_of (complete tag) = record { type = b'C'; body = tag ++ 0 ∷ [] }
frame_of (failure fs) = record { type = b'E'; body = encode_fields fs }
frame_of (other t body) = record { type = t; body = body }

-- A message as the protocol has it.
abbrev pub IsWellFormed : Message → Type 0
IsWellFormed (row cs) = CellsFit cs × (length cs < 2 ^ 16)
IsWellFormed (complete tag) = NoNul tag
IsWellFormed (failure fs) = FieldsFit fs
IsWellFormed (other t body) = ((t == b'D') ≡ false) × ((t == b'C') ≡ false) × ((t == b'E') ≡ false)

abbrev pub AllWellFormed : List Message → Type 0
AllWellFormed [] = Unit {0}
AllWellFormed (m ∷ ms) = IsWellFormed m × AllWellFormed ms

-- What a message adds to the whole text and the result: an error starts the text anew.
abbrev pub render : Message → Shown → Shown
render (row cs) (whole, rc) = (whole ++ render_row cs, rc)
render (complete tag) (whole, rc) = (whole ++ render_tag tag, rc)
render (failure fs) (whole, rc) = (render_error fs, negsuc 0)
render (other t body) s = s

abbrev pub render_all : List Message → Shown → Shown
render_all [] s = s
render_all (m ∷ ms) s = render_all ms (render m s)

-- The text cut to its first `k` bytes.
abbrev pub clip : ℕ → Shown → Shown
clip k (whole, rc) = (take k whole, rc)

pub show_frame_row :
    (reply out o : Bytes) (off n outcap : ℕ) (rc : ℤ)
    → get_or reply off 0 ≡ b'D'
    → data_row reply (off + 5) (n - 4) outcap out ≡ some o
    → show_frame reply off n outcap (out, rc) ≡ some (o, rc)
unfolding show_frame
show_frame_row reply out o off n outcap rc e f = rw (show_frame, e, f) refl

pub show_frame_complete :
    (reply out o : Bytes) (off n outcap : ℕ) (rc : ℤ)
    → get_or reply off 0 ≡ b'C'
    → command_complete reply (off + 5) (n - 4) outcap out ≡ some o
    → show_frame reply off n outcap (out, rc) ≡ some (o, rc)
unfolding show_frame
show_frame_complete reply out o off n outcap rc e f = rw (show_frame, e, f) refl

pub show_frame_failure :
    (reply out o : Bytes) (off n outcap : ℕ) (rc : ℤ)
    → get_or reply off 0 ≡ b'E'
    → error_response reply (off + 5) (n - 4) outcap ≡ some o
    → show_frame reply off n outcap (out, rc) ≡ some (o, negsuc 0)
unfolding show_frame
show_frame_failure reply out o off n outcap rc e f = rw (show_frame, e, f) refl

pub show_frame_other :
    (reply out : Bytes) (off n outcap t : ℕ) (rc : ℤ)
    → get_or reply off 0 ≡ t
    → (t == b'D') ≡ false
    → (t == b'C') ≡ false
    → (t == b'E') ≡ false
    → show_frame reply off n outcap (out, rc) ≡ some (out, rc)
unfolding show_frame
show_frame_other reply out off n outcap t rc e d c f = rw (show_frame, e, d, c, f) refl

pub show_loop-none :
    (j : ℕ) (reply : Bytes) (off outcap : ℕ) (s : Shown)
    → frame_at reply off ≡ none
    → show_loop j reply off outcap s ≡ some s
unfolding show_loop
show_loop-none zero reply off outcap s e = refl
show_loop-none (suc j) reply off outcap s e = rw (show_loop, e) refl

pub show_loop-some :
    (j : ℕ) (reply : Bytes) (off n outcap : ℕ) (s s' : Shown)
    → frame_at reply off ≡ some n
    → show_frame reply off n outcap s ≡ some s'
    → 1 + n < 2 ^ 32
    → show_loop (suc j) reply off outcap s ≡ show_loop j reply (off + 1 + n) outcap s'
unfolding show_loop
show_loop-some j reply off n outcap s s' e f h = rw (show_loop, e, f, next_off-below off n h) refl

-- The type byte and the length word of a frame.
pub head : Frame → Bytes
head f = f.type ∷ be32 (4 + length f.body)

pub at_body :
    (before rest : Bytes) (f : Frame)
    → before ++ (encode f ++ rest) ≡ (before ++ head f) ++ (f.body ++ rest)
unfolding encode head
at_body before rest f =
    ap (λ t. before ++ t) (append_assoc (f.type ∷ be32 (4 + length f.body)) f.body rest)
    ∙ sym (append_assoc before (f.type ∷ be32 (4 + length f.body)) (f.body ++ rest))

pub length-head : (before : Bytes) (f : Frame) → length (before ++ head f) ≡ length before + 5
unfolding head
length-head before f = omega (
  arith,
  length-append before (f.type ∷ be32 (4 + length f.body)),
  length-be32 (4 + length f.body),
)

pub type_at :
    (before rest : Bytes) (f : Frame)
    → get_or (before ++ (encode f ++ rest)) (length before) 0 ≡ f.type
unfolding encode
type_at before rest f =
    let here : length before ≡ length before + 0 = omega arith in
    ap (λ i. get_or (before ++ (encode f ++ rest)) i 0) here
    ∙ get_or-append_right before (encode f ++ rest) 0 0
