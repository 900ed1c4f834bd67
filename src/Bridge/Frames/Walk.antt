-- ===== src/Bridge/Frames/Walk.antt =====
-- The frame walk of native/bridge/pglite_bridge.c, round by round.
use pglite_ios.Common.{
  ℕ, zero, suc, ◌+◌, ◌^◌, ◌≤◌, ◌<◌, ◌≡◌, refl, sym, ◌∙◌, ap, Bool, true, false, none, some, ◌++◌,
  arith, ◌==◌, length, get_or, length-append, get_or-append_right, get_or-append_left, Bytes,
  Option-cases, inl, inr, Bool-cases,
}
use pglite_ios.Bridge.Frames.{rd32, frame_at, next_off, has_rfq_loop, has_rfq}

pub rd32-append : (xs ys : Bytes) (i : ℕ) → rd32 (xs ++ ys) (length xs + i) ≡ rd32 ys i
unfolding rd32
rd32-append xs ys i = ground (
  arith,
  get_or-append_right xs ys i 0,
  get_or-append_right xs ys (i + 1) 0,
  get_or-append_right xs ys (i + 2) 0,
  get_or-append_right xs ys (i + 3) 0,
  ap (λ j. get_or (xs ++ ys) j 0) (assoc 1),
  ap (λ j. get_or (xs ++ ys) j 0) (assoc 2),
  ap (λ j. get_or (xs ++ ys) j 0) (assoc 3),
)
  where
    assoc : (k : ℕ) → (length xs + i) + k ≡ length xs + (i + k)
    assoc k = omega arith

pub rd32-append_left : (xs ys : Bytes) (i : ℕ) → i + 4 ≤ length xs → rd32 (xs ++ ys) i ≡ rd32 xs i
unfolding rd32
rd32-append_left xs ys i h = ground (
  arith,
  get_or-append_left xs ys i 0,
  get_or-append_left xs ys (i + 1) 0,
  get_or-append_left xs ys (i + 2) 0,
  get_or-append_left xs ys (i + 3) 0,
)

-- The walk over `xs ++ ys` from the end of `xs` is the walk over `ys`.
pub frame_at-append :
    (xs ys : Bytes) (off : ℕ) → frame_at (xs ++ ys) (length xs + off) ≡ frame_at ys off
unfolding frame_at
frame_at-append xs ys off =
    ground
      (arith, length-append xs ys, rd32-append xs ys (off + 1), ap (λ j. rd32 (xs ++ ys) j) assoc)
  where
    assoc : (length xs + off) + 1 ≡ length xs + (off + 1)
    assoc = omega arith

-- One round of the walk, by what it finds.
pub data Round (buf : Bytes) (off : ℕ) : Type 0 where
  ends : frame_at buf off ≡ none → Round buf off
  ready : (n : ℕ) → frame_at buf off ≡ some n → (get_or buf off 0 == b'Z') ≡ true → Round buf off
  spins :
      (n : ℕ)
      → frame_at buf off ≡ some n
      → (get_or buf off 0 == b'Z') ≡ false
      → next_off off n ≡ none
      → Round buf off
  goes :
      (n off' : ℕ)
      → frame_at buf off ≡ some n
      → (get_or buf off 0 == b'Z') ≡ false
      → next_off off n ≡ some off'
      → Round buf off

pub round_of : (buf : Bytes) (off : ℕ) → Round buf off
round_of buf off = elim (Option-cases (frame_at buf off)) [
  | inl e ↦ ends e
  | inr (n, e) ↦ elim (Bool-cases (get_or buf off 0 == b'Z')) [
    | inl z ↦ ready n e z
    | inr z ↦ elim (Option-cases (next_off off n)) [
      | inl o ↦ spins n e z o
      | inr (off', o) ↦ goes n off' e z o
    ]
  ]
]

pub has_rfq_loop-none :
    (k : ℕ) (buf : Bytes) (off : ℕ) → frame_at buf off ≡ none → has_rfq_loop k buf off ≡ some false
unfolding has_rfq_loop
has_rfq_loop-none zero buf off e = refl
has_rfq_loop-none (suc k) buf off e = rw (e, has_rfq_loop)

module _ (k : ℕ) (buf : Bytes) (off : ℕ) {n : ℕ} (e : frame_at buf off ≡ some n) where
  pub has_rfq_loop_ready :
      (get_or buf off 0 == b'Z') ≡ true → has_rfq_loop (suc k) buf off ≡ some true
  unfolding has_rfq_loop
  has_rfq_loop_ready z = rw (has_rfq_loop, e, z) refl

  pub has_rfq_loop_spins :
      (get_or buf off 0 == b'Z') ≡ false
      → next_off off n ≡ none
      → has_rfq_loop (suc k) buf off ≡ none
  unfolding has_rfq_loop
  has_rfq_loop_spins z o = rw (has_rfq_loop, e, z, o) refl

  pub has_rfq_loop_goes :
      (off' : ℕ)
      → (get_or buf off 0 == b'Z') ≡ false
      → next_off off n ≡ some off'
      → has_rfq_loop (suc k) buf off ≡ has_rfq_loop k buf off'
  unfolding has_rfq_loop
  has_rfq_loop_goes off' z o = rw (has_rfq_loop, e, z, o) refl

-- A frame lies in the buffer, length word and body.
pub frame_at_bounds :
    (buf : Bytes) (off : ℕ) {n : ℕ}
    → frame_at buf off ≡ some n
    → (4 ≤ n) × (off + 1 + n ≤ length buf)
unfolding frame_at
frame_at_bounds buf off h = ground arith

pub frame_at_end : (buf : Bytes) (off : ℕ) → length buf ≤ off → frame_at buf off ≡ none
unfolding frame_at
frame_at_end buf off h = ground arith

pub next_off-more : (off n : ℕ) {off' : ℕ} → next_off off n ≡ some off' → off < off'
unfolding next_off
next_off-more off n e = ground arith

next_off-none : (m off n : ℕ) → next_off off n ≡ none → next_off (m + off) n ≡ none
unfolding next_off
next_off-none m off n e = ground arith

next_off-some :
    (m off n : ℕ) {off' : ℕ} → next_off off n ≡ some off' → next_off (m + off) n ≡ some (m + off')
unfolding next_off
next_off-some m off n e = ground arith

-- Below 2 ^ 32 - 1 the sum does not wrap.
pub next_off-below : (off n : ℕ) → 1 + n < 2 ^ 32 → next_off off n ≡ some (off + 1 + n)
unfolding next_off
next_off-below off n h = ground (arith, h)

pub has_rfq_loop-append :
    (k : ℕ) (xs ys : Bytes) (off : ℕ)
    → has_rfq_loop k (xs ++ ys) (length xs + off) ≡ has_rfq_loop k ys off
has_rfq_loop-append zero xs ys off = unfold has_rfq_loop in refl
has_rfq_loop-append (suc k) xs ys off =
    let at = length xs + off in
    let type = ap (λ t. t == b'Z') (get_or-append_right xs ys off 0) in
    elim (round_of ys off) [
      | ends e ↦
          has_rfq_loop-none (suc k) (xs ++ ys) at (frame_at-append xs ys off ∙ e)
          ∙ sym (has_rfq_loop-none (suc k) ys off e)
      | ready n e z ↦
          has_rfq_loop_ready k (xs ++ ys) at (frame_at-append xs ys off ∙ e) (type ∙ z)
          ∙ sym (has_rfq_loop_ready k ys off e z)
      | spins n e z o ↦
          has_rfq_loop_spins k (xs ++ ys) at (frame_at-append xs ys off ∙ e) (type ∙ z)
            (next_off-none (length xs) off n o)
          ∙ sym (has_rfq_loop_spins k ys off e z o)
      | goes n off' e z o ↦
          has_rfq_loop_goes k (xs ++ ys) at (frame_at-append xs ys off ∙ e) (length xs + off')
            (type ∙ z) (next_off-some (length xs) off n o)
          ∙ has_rfq_loop-append k xs ys off'
          ∙ sym (has_rfq_loop_goes k ys off e off' z o)
    ]

-- With a round for each byte that is left, more rounds change nothing.
pub has_rfq_loop_fuel :
    (k m : ℕ) (buf : Bytes) (off : ℕ)
    → length buf ≤ off + k
    → length buf ≤ off + m
    → has_rfq_loop k buf off ≡ has_rfq_loop m buf off
has_rfq_loop_fuel zero m buf off h g =
    let e : frame_at buf off ≡ none = frame_at_end buf off (omega arith) in
    has_rfq_loop-none zero buf off e ∙ sym (has_rfq_loop-none m buf off e)
has_rfq_loop_fuel (suc k) zero buf off h g =
    let e : frame_at buf off ≡ none = frame_at_end buf off (omega arith) in
    has_rfq_loop-none (suc k) buf off e ∙ sym (has_rfq_loop-none zero buf off e)
has_rfq_loop_fuel (suc k) (suc m) buf off h g = elim (round_of buf off) [
  | ends e ↦ has_rfq_loop-none (suc k) buf off e ∙ sym (has_rfq_loop-none (suc m) buf off e)
  | ready n e z ↦ has_rfq_loop_ready k buf off e z ∙ sym (has_rfq_loop_ready m buf off e z)
  | spins n e z o ↦ has_rfq_loop_spins k buf off e z o ∙ sym (has_rfq_loop_spins m buf off e z o)
  | goes n off' e z o ↦
      let more = next_off-more off n o in
      has_rfq_loop_goes k buf off e off' z o
      ∙ has_rfq_loop_fuel k m buf off' (omega (arith, more, h)) (omega (arith, more, g))
      ∙ sym (has_rfq_loop_goes m buf off e off' z o)
]

-- In a buffer below 2 ^ 32 bytes the walk ends.
has_rfq_loop-ends :
    (k : ℕ) (buf : Bytes) (off : ℕ)
    → length buf < 2 ^ 32
    → (b : Bool) × (has_rfq_loop k buf off ≡ some b)
has_rfq_loop-ends zero buf off small = (false, unfold has_rfq_loop in refl)
has_rfq_loop-ends (suc k) buf off small = elim (round_of buf off) [
  | ends e ↦ (false, has_rfq_loop-none (suc k) buf off e)
  | ready n e z ↦ (true, has_rfq_loop_ready k buf off e z)
  | spins n e z o ↦
      let within = frame_at_bounds buf off e in
      let moves = next_off-below off n (omega (arith, within.1, small)) in absurd (cc (o, moves))
  | goes n off' e z o ↦
      let (b, rest) = has_rfq_loop-ends k buf off' small in
      (b, has_rfq_loop_goes k buf off e off' z o ∙ rest)
]

pub has_rfq-ends : (buf : Bytes) → length buf < 2 ^ 32 → (b : Bool) × (has_rfq buf ≡ some b)
unfolding has_rfq
has_rfq-ends buf small = has_rfq_loop-ends (length buf) buf 0 small
