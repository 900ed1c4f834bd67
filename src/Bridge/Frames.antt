-- ===== src/Bridge/Frames.antt =====
-- The big-endian lengths and the frame walk of native/bridge/pglite_bridge.c: `be32`, `rd32` and
-- `has_rfq`.
pub mod Walk
pub mod Laws
use pglite_ios.Common.{
  ℕ, zero, suc, ◌+◌, ◌-◌, ◌*◌, ◌/◌, ◌^◌, Bool, true, false, ◌||◌, Option, none, some, [], ◌∷◌, ltb,
  ◌==◌, if◌then◌else◌, length, get_or, take, drop, Bytes, u8, u32,
}

unfoldable pub be32 : ℕ → Bytes
be32 v = u8 (v / 2 ^ 24) ∷ u8 (v / 2 ^ 16) ∷ u8 (v / 2 ^ 8) ∷ u8 v ∷ []

-- `rd32(buf + i)`. The four shifted bytes have no bit in common, so `|` is a sum.
unfoldable pub rd32 : Bytes → ℕ → ℕ
rd32 buf i =
    get_or buf i 0 * 2 ^ 24
    + get_or buf (i + 1) 0 * 2 ^ 16
    + get_or buf (i + 2) 0 * 2 ^ 8
    + get_or buf (i + 3) 0

-- The test of the three frame loops at `off`, with the `break` in their bodies: the length word
-- of the frame that starts there, where the whole frame is in the buffer.
unfoldable pub frame_at : Bytes → ℕ → Option ℕ
unfolding rd32
frame_at buf off =
    let n = rd32 buf (off + 1) in
    if ltb (length buf - off) 5
    then none
    else if ltb n 4 || ltb (length buf) (off + 1 + n)
    then none
    else some n

-- `off += 1 + n`: the sum is an `uint32_t`, so that for `n` of 2 ^ 32 - 1 the walk does not move and
-- its loop never ends; that is `none`.
unfoldable pub next_off : ℕ → ℕ → Option ℕ
next_off off n = if u32 (1 + n) == 0 then none else some (off + u32 (1 + n))

-- The loop of `has_rfq`, `none` where it never ends. Each round that ends goes on.
unfoldable has_rfq_loop : ℕ → Bytes → ℕ → Option Bool
unfolding frame_at next_off
has_rfq_loop zero buf off = some false
has_rfq_loop (suc k) buf off = elim (frame_at buf off) [
  | none ↦ some false
  | some n ↦ elim (get_or buf off 0 == b'Z') [
    | true ↦ some true
    | false ↦ elim (next_off off n) [ none ↦ none | some off' ↦ has_rfq_loop k buf off' ]
  ]
]

unfoldable pub has_rfq : Bytes → Option Bool
unfolding has_rfq_loop
has_rfq buf = has_rfq_loop (length buf) buf 0
