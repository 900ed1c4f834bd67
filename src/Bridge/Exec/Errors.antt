-- ===== src/Bridge/Exec/Errors.antt =====
-- The CommandComplete and ErrorResponse branches of `pgl_exec` of native/bridge/pglite_bridge.c.
use pglite_ios.Common.{
  ℕ, zero, suc, ◌+◌, ◌^◌, ◌≤◌, ◌<◌, ◌≡◌, refl, sym, ap, ◌∙◌, false, some, List, [], ◌∷◌, ◌++◌,
  append_assoc, arith, if_rule, if◌then◌else◌, ◌==◌, length, length-append, length-take, take,
  take_all, take-append, drop, Bytes, codes,
}
use pglite_ios.Wasi.State.{c_string}
use pglite_ios.Bridge.Exec.{
  sappend, command_complete, ErrorText, no_error_text, set_field, error_fields, error_line,
  error_response,
}
use pglite_ios.Bridge.Exec.Clip.{sappend-take}
use pglite_ios.Bridge.Exec.Cells.{drop-at}

-- The text has no NUL.
abbrev pub NoNul : Bytes → Type 0
NoNul [] = Unit {0}
NoNul (b ∷ bs) = ((b == 0) ≡ false) × NoNul bs

pub c_string-text : (s rest : Bytes) → NoNul s → c_string (s ++ 0 ∷ rest) ≡ s
unfolding c_string
c_string-text [] rest h = refl
c_string-text (b ∷ bs) rest h = rw (h.0) (ap (λ t. b ∷ t) (c_string-text bs rest h.1))

-- The bytes of the body are those of the frame.
body-bytes :
    (before body rest : Bytes)
    → take (length body) (drop (length before) (before ++ (body ++ rest))) ≡ body
body-bytes before body rest =
    ap (take (length body)) (drop-at before (body ++ rest) (length before) refl)
    ∙ take-append body rest

command_complete-tag :
    (reply tag out o1 o2 o3 : Bytes) (body blen outcap : ℕ)
    → c_string (take blen (drop body reply)) ≡ tag
    → sappend outcap out (codes "#") 1 ≡ some o1
    → sappend outcap o1 tag (length tag) ≡ some o2
    → sappend outcap o2 (10 ∷ []) 1 ≡ some o3
    → command_complete reply body blen outcap out ≡ some o3
unfolding command_complete
command_complete-tag reply tag out o1 o2 o3 body blen outcap e f g h =
    rw (command_complete, e, f, g, h) refl

pub render_tag : Bytes → Bytes
render_tag tag = codes "#" ++ tag ++ 10 ∷ []

-- A CommandComplete adds '#', its tag and a newline.
pub command_complete-text :
    (k : ℕ) (whole before rest tag : Bytes)
    → suc k < 2 ^ 64
    → NoNul tag
    → command_complete
        (before ++ ((tag ++ 0 ∷ []) ++ rest))
        (length before)
        (length (tag ++ 0 ∷ []))
        (suc k)
        (take k whole)
      ≡ some (take k (whole ++ render_tag tag))
unfolding render_tag
command_complete-text k whole before rest tag small clean =
    let reply = before ++ ((tag ++ 0 ∷ []) ++ rest) in
    let hash = codes "#" in
    command_complete-tag reply tag (take k whole) (take k (whole ++ hash))
      (take k ((whole ++ hash) ++ tag)) (take k (((whole ++ hash) ++ tag) ++ 10 ∷ []))
      (length before) (length (tag ++ 0 ∷ [])) (suc k)
      (ap c_string (body-bytes before (tag ++ 0 ∷ []) rest) ∙ c_string-text tag [] clean)
      (sappend-take k whole hash 1 small (omega arith))
      (sappend-take k (whole ++ hash) tag (length tag) small (omega arith)
        ∙ ap (λ t. some (take k ((whole ++ hash) ++ t))) (take_all (length tag) tag (omega arith)))
      (sappend-take k ((whole ++ hash) ++ tag) (10 ∷ []) 1 small (omega arith))
    ∙ ap (λ t. some (take k t))
        (append_assoc (whole ++ hash) tag (10 ∷ []) ∙ append_assoc whole hash (tag ++ 10 ∷ []))

-- The fields of an error: a type byte and a text each.
abbrev pub Field : Type 0
Field = ℕ × Bytes

unfoldable pub encode_fields : List Field → Bytes
encode_fields [] = 0 ∷ []
encode_fields ((t, s) ∷ fs) = t ∷ s ++ 0 ∷ encode_fields fs

abbrev pub FieldsFit : List Field → Type 0
FieldsFit [] = Unit {0}
FieldsFit ((t, s) ∷ fs) = ((t == 0) ≡ false) × NoNul s × FieldsFit fs

-- What the fields say, a later one in place of an earlier one of its type.
abbrev pub read_fields : List Field → ErrorText → ErrorText
read_fields [] e = e
read_fields ((t, s) ∷ fs) e = read_fields fs (set_field t s e)

error_fields-cons :
    (k t : ℕ) (s f rest : Bytes) (e : ErrorText)
    → (t == 0) ≡ false
    → c_string f ≡ s
    → drop (length s + 1) f ≡ rest
    → error_fields (suc k) (t ∷ f) e ≡ error_fields k rest (set_field t s e)
unfolding error_fields
error_fields-cons k t s f rest e h g d = rw (error_fields, h, g, d) refl

error_fields-encode :
    (k : ℕ) (fs : List Field) (e : ErrorText)
    → length (encode_fields fs) ≤ k
    → FieldsFit fs
    → error_fields k (encode_fields fs) e ≡ read_fields fs e
unfolding encode_fields
error_fields-encode zero [] e enough fit = absurd (omega arith)
error_fields-encode zero (f ∷ fs) e enough fit = absurd (omega arith)
error_fields-encode (suc k) [] e enough fit = unfold error_fields in refl
error_fields-encode (suc k) ((t, s) ∷ fs) e enough fit =
    let tail = encode_fields fs in
    let after : drop (length s + 1) (s ++ 0 ∷ tail) ≡ tail =
      ap (drop (length s + 1)) (sym (append_assoc s (0 ∷ []) tail))
      ∙ drop-at (s ++ 0 ∷ []) tail (length s + 1) (sym (length-append s (0 ∷ []))) in
    let size = length-append s (0 ∷ tail) in
    error_fields-cons k t s (s ++ 0 ∷ tail) tail e fit.0 (c_string-text s tail fit.1) after
    ∙ error_fields-encode k fs (set_field t s e) (omega arith) fit.2

-- The arrays hold at most 63, 511 and 15 bytes, so the line is shorter than its array of 640.
abbrev IsShort : ErrorText → Type 0
IsShort e = (length e.severity ≤ 63) × (length e.message ≤ 511) × (length e.code ≤ 15)

set_field-IsShort : (t : ℕ) (s : Bytes) (e : ErrorText) → IsShort e → IsShort (set_field t s e)
set_field-IsShort t s e (a, b, c) =
    if_rule IsShort (t == b'S') (λ _. (omega (arith, length-take 63 s), b, c))
      (λ _.
        if_rule IsShort (t == b'M') (λ _. (a, omega (arith, length-take 511 s), c))
          (λ _.
            if_rule IsShort (t == b'C') (λ _. (a, b, omega (arith, length-take 15 s)))
              (λ _. (a, b, c))))

read_fields-IsShort : (fs : List Field) (e : ErrorText) → IsShort e → IsShort (read_fields fs e)
read_fields-IsShort [] e h = h
read_fields-IsShort ((t, s) ∷ fs) e h =
    read_fields-IsShort fs (set_field t s e) (set_field-IsShort t s e h)

error_line-short : (e : ErrorText) → IsShort e → length (error_line e) ≤ 639
unfolding error_line
error_line-short e (a, b, c) =
    rw (length-append, length-append, length-append, length-append, length-append) (omega arith)

-- The text of the last field of type `t`, or `found` without one.
abbrev pub last_of : ℕ → List Field → Bytes → Bytes
last_of t [] found = found
last_of t ((k, s) ∷ fs) found = last_of t fs (if k == t then s else found)

-- The line for the fields of an error: the severity, the message and the SQLSTATE, each the last
-- of its type and cut to 63, 511 and 15 bytes.
unfoldable pub render_error : List Field → Bytes
render_error fs =
    take 63 (last_of (b'S') fs [])
    ++ codes ": "
    ++ take 511 (last_of (b'M') fs [])
    ++ codes " (SQLSTATE "
    ++ take 15 (last_of (b'C') fs [])
    ++ codes ")"

-- The arrays hold these texts, cut.
abbrev Holds : ErrorText → Bytes → Bytes → Bytes → Type 0
Holds e s m c = (e.severity ≡ take 63 s) × (e.message ≡ take 511 m) × (e.code ≡ take 15 c)

set_field-Holds :
    (t : ℕ) (v s m c : Bytes) (e : ErrorText)
    → Holds e s m c
    → Holds
        (set_field t v e)
        (if t == b'S' then v else s)
        (if t == b'M' then v else m)
        (if t == b'C' then v else c)
set_field-Holds t v s m c e (p, q, r) = (ground (arith, p), ground (arith, q), ground (arith, r))

read_fields-Holds :
    (fs : List Field) (s m c : Bytes) (e : ErrorText)
    → Holds e s m c
    → Holds (read_fields fs e) (last_of (b'S') fs s) (last_of (b'M') fs m) (last_of (b'C') fs c)
read_fields-Holds [] s m c e h = h
read_fields-Holds ((t, v) ∷ fs) s m c e h =
    read_fields-Holds fs (if t == b'S' then v else s) (if t == b'M' then v else m)
      (if t == b'C' then v else c) (set_field t v e) (set_field-Holds t v s m c e h)

error_line-render_error :
    (fs : List Field) → error_line (read_fields fs no_error_text) ≡ render_error fs
unfolding error_line render_error
error_line-render_error fs =
    let (s, m, c) = read_fields-Holds fs [] [] [] no_error_text (refl, refl, refl) in
    ap
      (λ t.
        t
        ++ codes ": "
        ++ (read_fields fs no_error_text).message
        ++ codes " (SQLSTATE "
        ++ (read_fields fs no_error_text).code
        ++ codes ")")
      s
    ∙ ap
        (λ t.
          take 63 (last_of (b'S') fs [])
          ++ codes ": "
          ++ t
          ++ codes " (SQLSTATE "
          ++ (read_fields fs no_error_text).code
          ++ codes ")")
        m
    ∙ ap
        (λ t.
          take 63 (last_of (b'S') fs [])
          ++ codes ": "
          ++ take 511 (last_of (b'M') fs [])
          ++ codes " (SQLSTATE "
          ++ t
          ++ codes ")")
        c

error_response-line :
    (reply fields line o : Bytes) (body blen outcap : ℕ)
    → take blen (drop body reply) ≡ fields
    → error_line (error_fields (length fields) fields no_error_text) ≡ line
    → sappend outcap [] (take 639 line) (length line) ≡ some o
    → error_response reply body blen outcap ≡ some o
unfolding error_response
error_response-line reply fields line o body blen outcap e f g = rw (error_response, e, f, g) refl

-- An ErrorResponse leaves its line in an output that starts anew; the line is cut only by the
-- caller's buffer.
pub error_response-text :
    (k : ℕ) (before rest : Bytes) (fs : List Field)
    → suc k < 2 ^ 64
    → FieldsFit fs
    → error_response
        (before ++ (encode_fields fs ++ rest))
        (length before)
        (length (encode_fields fs))
        (suc k)
      ≡ some (take k (render_error fs))
error_response-text k before rest fs small fit =
    let fields = encode_fields fs in
    let reply = before ++ (fields ++ rest) in
    let line = error_line (read_fields fs no_error_text) in
    let read = read_fields-IsShort fs no_error_text (omega arith, omega arith, omega arith) in
    let whole : take 639 line ≡ line =
      take_all 639 line (error_line-short (read_fields fs no_error_text) read) in
    let copy : sappend (suc k) [] line (length line) ≡ some (take k line) =
      ap (λ t. sappend (suc k) t line (length line)) (sym (take_all k [] (omega arith)))
      ∙ sappend-take k [] line (length line) small (omega arith)
      ∙ ap (λ t. some (take k t)) (take_all (length line) line (omega arith)) in
    error_response-line reply fields line (take k line) (length before) (length fields) (suc k)
      (body-bytes before fields rest)
      (ap error_line (error_fields-encode (length fields) fs no_error_text (omega arith) fit))
      (ap (λ t. sappend (suc k) [] t (length line)) whole ∙ copy)
    ∙ ap (λ t. some (take k t)) (error_line-render_error fs)
