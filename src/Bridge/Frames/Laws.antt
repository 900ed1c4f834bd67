-- ===== src/Bridge/Frames/Laws.antt =====
-- The frame walk of native/bridge/pglite_bridge.c against a list of encoded frames.
use pglite_ios.Common.{
  ℕ, zero, suc, ◌+◌, ◌^◌, ◌≤◌, ◌<◌, ◌≡◌, refl, sym, ◌∙◌, ap, Bool, true, false, ◌||◌, none, some,
  List, [], ◌∷◌, ◌++◌, append_assoc, arith, ◌==◌, length, length-append, get_or-append_left, Bytes,
  inl, inr, Option, Bool-cases,
}
use pglite_ios.Bridge.Frames.{be32, rd32, frame_at, has_rfq_loop, has_rfq}
use pglite_ios.Bridge.Frames.Walk.{
  rd32-append_left, frame_at_bounds, next_off-below, ends, ready, spins, goes, round_of,
  has_rfq_loop-none, has_rfq_loop_ready, has_rfq_loop_spins, has_rfq_loop_goes, has_rfq_loop-append,
  has_rfq_loop_fuel,
}

-- A message of the wire protocol.
pub record Frame : Type 0 where
  pub type : ℕ
  pub body : Bytes

unfoldable pub encode : Frame → Bytes
encode f = f.type ∷ be32 (4 + length f.body) ++ f.body

unfoldable pub encode_all : List Frame → Bytes
unfolding encode
encode_all [] = []
encode_all (f ∷ fs) = encode f ++ encode_all fs

-- The length word has room for the body, and so has its successor.
abbrev pub Fits : Frame → Type 0
Fits f = 5 + length f.body < 2 ^ 32

abbrev pub AllFit : List Frame → Type 0
AllFit [] = Unit {0}
AllFit (f ∷ fs) = Fits f × AllFit fs

-- Is one of the frames a ReadyForQuery?
unfoldable pub any_ready : List Frame → Bool
any_ready [] = false
any_ready (f ∷ fs) = (f.type == b'Z') || any_ready fs

-- A length that `be32` wrote is read back by `rd32`, for every `uint32_t`.
pub rd32-be32 : (v : ℕ) (rest : Bytes) → v < 2 ^ 32 → rd32 (be32 v ++ rest) 0 ≡ v
unfolding be32 rd32
rd32-be32 v rest h = omega arith

pub length-be32 : (v : ℕ) → length (be32 v) ≡ 4
unfolding be32
length-be32 v = refl

pub length-encode : (f : Frame) → length (encode f) ≡ 5 + length f.body
unfolding encode
length-encode f = omega (arith, length-append (be32 (4 + length f.body)) f.body, length-be32)

rd32-encode : (f : Frame) (rest : Bytes) → Fits f → rd32 (encode f ++ rest) 1 ≡ 4 + length f.body
unfolding rd32 encode be32
rd32-encode f rest fits = omega arith

pub frame_at-encode :
    (f : Frame) (rest : Bytes) → Fits f → frame_at (encode f ++ rest) 0 ≡ some (4 + length f.body)
unfolding frame_at
frame_at-encode f rest fits =
    ground (arith, rd32-encode f rest fits, length-append (encode f) rest, length-encode f)

-- What a frame says before the walk goes on.
abbrev or_later : Bool → Option Bool → Option Bool
or_later true later = some true
or_later false later = later

has_rfq_loop-frame :
    (k : ℕ) (f : Frame) (rest : Bytes)
    → Fits f
    → has_rfq_loop (suc k) (encode f ++ rest) 0
      ≡ or_later (f.type == b'Z') (has_rfq_loop k (encode f ++ rest) (5 + length f.body))
unfolding encode
has_rfq_loop-frame k f rest fits =
    let whole = encode f ++ rest in
    let e = frame_at-encode f rest fits in
    let at : 0 + 1 + (4 + length f.body) ≡ 5 + length f.body = omega arith in
    let moves = next_off-below 0 (4 + length f.body) (omega (arith, fits)) ∙ ap some at in
    elim (Bool-cases (f.type == b'Z')) [
      | inl z ↦ has_rfq_loop_ready k whole 0 e z ∙ rw z refl
      | inr z ↦ has_rfq_loop_goes k whole 0 e (5 + length f.body) z moves ∙ rw z refl
    ]

has_rfq-encode :
    (f : Frame) (rest : Bytes)
    → Fits f
    → has_rfq (encode f ++ rest) ≡ or_later (f.type == b'Z') (has_rfq rest)
unfolding has_rfq
has_rfq-encode f rest fits =
    let whole = encode f ++ rest in
    let k = 4 + length f.body + length rest in
    let size : length whole ≡ suc k =
      omega (arith, length-append (encode f) rest, length-encode f) in
    let start : 5 + length f.body ≡ length (encode f) + 0 = omega (arith, length-encode f) in
    let tail : has_rfq_loop k whole (5 + length f.body) ≡ has_rfq_loop (length rest) rest 0 =
      ap (has_rfq_loop k whole) start
      ∙ has_rfq_loop-append k (encode f) rest 0
      ∙ has_rfq_loop_fuel k (length rest) rest 0 (omega arith) (omega arith) in
    has_rfq_loop_fuel (length whole) (suc k) whole 0 (omega arith) (omega arith)
    ∙ has_rfq_loop-frame k f rest fits
    ∙ ap (or_later (f.type == b'Z')) tail

or_later-ready : (z b : Bool) → or_later z (some b) ≡ some (z || b)
or_later-ready true b = refl
or_later-ready false b = refl

-- For a reply of whole frames whose length words are below 2 ^ 32 - 1, with at most an incomplete
-- frame behind them, `has_rfq` ends, and finds a ReadyForQuery exactly when one of the frames is
-- one.
pub has_rfq-encode_all :
    (fs : List Frame) (rest : Bytes)
    → AllFit fs
    → frame_at rest 0 ≡ none
    → has_rfq (encode_all fs ++ rest) ≡ some (any_ready fs)
unfolding encode_all any_ready
has_rfq-encode_all [] rest fit end = unfold has_rfq in has_rfq_loop-none (length rest) rest 0 end
has_rfq-encode_all (f ∷ fs) rest fit end =
    ap has_rfq (append_assoc (encode f) (encode_all fs) rest)
    ∙ has_rfq-encode f (encode_all fs ++ rest) fit.0
    ∙ ap (or_later (f.type == b'Z')) (has_rfq-encode_all fs rest fit.1 end)
    ∙ or_later-ready (f.type == b'Z') (any_ready fs)

-- More bytes do not take a ReadyForQuery away.
frame_at-append_left :
    (xs ys : Bytes) (off : ℕ) {n : ℕ} → frame_at xs off ≡ some n → frame_at (xs ++ ys) off ≡ some n
unfolding frame_at
frame_at-append_left xs ys off h =
    ground (arith, length-append xs ys, rd32-append_left xs ys (off + 1))

has_rfq_loop-append_left :
    (k m : ℕ) (xs ys : Bytes) (off : ℕ)
    → k ≤ m
    → has_rfq_loop k xs off ≡ some true
    → has_rfq_loop m (xs ++ ys) off ≡ some true
has_rfq_loop-append_left zero m xs ys off le h = unfold has_rfq_loop in absurd (cc h)
has_rfq_loop-append_left (suc k) zero xs ys off le h = absurd (omega arith)
has_rfq_loop-append_left (suc k) (suc m) xs ys off le h =
    let type = λ (n : ℕ) (e : frame_at xs off ≡ some n).
      let within = frame_at_bounds xs off e in
      ap (λ t. t == b'Z') (get_or-append_left xs ys off 0 (omega (arith, within.0, within.1))) in
    elim (round_of xs off) [
      | ends e ↦ let dead = has_rfq_loop-none (suc k) xs off e in absurd (cc (dead, h))
      | ready n e z ↦
          has_rfq_loop_ready m (xs ++ ys) off (frame_at-append_left xs ys off e) (type n e ∙ z)
      | spins n e z o ↦ let dead = has_rfq_loop_spins k xs off e z o in absurd (cc (dead, h))
      | goes n off' e z o ↦
          has_rfq_loop_goes m (xs ++ ys) off (frame_at-append_left xs ys off e) off' (type n e ∙ z)
            o
          ∙ has_rfq_loop-append_left k m xs ys off' (omega arith)
              (sym (has_rfq_loop_goes k xs off e off' z o) ∙ h)
    ]

-- Once `has_rfq` has found a ReadyForQuery, it finds one however much is appended.
pub has_rfq-append : (xs ys : Bytes) → has_rfq xs ≡ some true → has_rfq (xs ++ ys) ≡ some true
unfolding has_rfq
has_rfq-append xs ys =
    has_rfq_loop-append_left (length xs) (length (xs ++ ys)) xs ys 0
      (omega (arith, length-append xs ys))
