-- ===== src/Bridge/Buffer/Laws.antt =====
-- The reply buffer grows far enough, and keeps what it holds.
use pglite_ios.Common.{
  ℕ, zero, suc, ◌+◌, ◌*◌, ◌^◌, ◌≤◌, ◌<◌, ◌≡◌, refl, ◌⊎◌, inl, inr, Bool, false, Bool-cases, Option,
  none, some, ◌++◌, arith, ltb, ◌==◌, length, length-append, Bytes, u64, max, ltb→lt, ltb→le,
  le→ltb, ap, ◌∙◌, if◌then◌else◌,
}
use native.Mathlib.Nat.{pow-suc}
use pglite_ios.Bridge.Buffer.{Buf, double_until, grown_cap, reserve, append_bytes}

-- Doubling reaches `need` within the rounds that `c * 2 ^ k` allows, and stops below twice it.
double_until_lem :
    (k c need : ℕ)
    → 0 < c
    → need ≤ c * 2 ^ k
    → need ≤ 2 ^ 62
    → (r : ℕ) × (double_until (suc k) c need ≡ some r) × (need ≤ r) × (r ≤ max c (2 * need))
unfolding double_until
double_until_lem zero c need pos reach small =
    let enough : ltb c need ≡ false = le→ltb c need (omega arith) in
    (c, rw enough, omega arith, omega arith)
double_until_lem (suc k) c need pos reach small = elim (Bool-cases (ltb c need)) [
  | inr enough ↦ (c, rw enough, ltb→le c need enough, omega arith)
  | inl below ↦
      let lt = ltb→lt c need below in
      let fits : u64 (c * 2) ≡ c * 2 = omega arith in
      let reach' : need ≤ c * 2 * 2 ^ k = omega (arith, ap (λ (t : ℕ). c * t) (pow-suc 2 k)) in
      let (r, e, large, tight) = double_until_lem k (c * 2) need (omega arith) reach' small in
      (r, rw below (ap (λ t. double_until (suc k) t need) fits ∙ e), large, omega arith)
]

-- For lengths up to 2 ^ 62 the doubling ends, with a capacity that is enough and at most the
-- old one, 4096 or twice the need.
pub grown_cap_lem :
    (cap need : ℕ)
    → need ≤ 2 ^ 62
    → (r : ℕ) × (grown_cap cap need ≡ some r) × (need ≤ r) × (r ≤ max (max cap 4096) (2 * need))
unfolding grown_cap
grown_cap_lem cap need small = elim (Bool-cases (cap == 0)) [
  | inl e ↦ rw e (
      let (r, p, q, t) = double_until_lem 64 4096 need (omega arith) (omega arith) small in
      (r, p, q, omega arith))
  | inr e ↦ rw e (
      let positive : 0 < cap = ground arith in
      let (r, p, q, t) = double_until_lem 64 cap need positive (omega arith) small in
      (r, p, q, omega arith))
]

-- The bytes fit the allocation.
abbrev pub FitsCap : Buf → Type 0
FitsCap b = length b.bytes ≤ b.cap

-- What `append_bytes` gives: the old bytes and the new ones, in an allocation that holds them;
-- -1 only where an allocation of enough bytes fails, and at most twice as many as are needed.
abbrev pub Appended : (ℕ → Bool) → Buf → Bytes → Option Buf → Type 0
Appended alloc_ok b src (some b') = (b'.bytes ≡ b.bytes ++ src) × FitsCap b' × (b.cap ≤ b'.cap)
Appended alloc_ok b src none =
    (c : ℕ) × (alloc_ok c ≡ false)
    × (length b.bytes + length src ≤ c)
    × (c ≤ max (max b.cap 4096) (2 * (length b.bytes + length src)))

pub reserve_lem :
    (alloc_ok : ℕ → Bool) (need : ℕ) (b : Buf)
    → need ≤ 2 ^ 62
    → (reserve alloc_ok need b ≡ some b) × (need ≤ b.cap)
      ⊎ ((c : ℕ) × (need ≤ c)
          × (b.cap < need)
          × (c ≤ max (max b.cap 4096) (2 * need))
          × (reserve alloc_ok need b ≡ (if alloc_ok c then some (record b { cap = c }) else none)))
unfolding reserve
reserve_lem alloc_ok need b small = elim (Bool-cases (ltb b.cap need)) [
  | inr room ↦ inl (rw room, ltb→le b.cap need room)
  | inl full ↦
      let (c, e, large, tight) = grown_cap_lem b.cap need small in
      inr (c, large, ltb→lt b.cap need full, tight, ground (arith, e))
]

append_bytes-none :
    (alloc_ok : ℕ → Bool) (b : Buf) (src : Bytes)
    → reserve alloc_ok (length b.bytes + length src) b ≡ none
    → append_bytes alloc_ok b src ≡ none
unfolding append_bytes
append_bytes-none alloc_ok b src e = ground (arith, e)

append_bytes-some :
    (alloc_ok : ℕ → Bool) (b b' : Buf) (src : Bytes)
    → reserve alloc_ok (length b.bytes + length src) b ≡ some b'
    → append_bytes alloc_ok b src ≡ some (record b' { bytes = b.bytes ++ src })
unfolding append_bytes
append_bytes-some alloc_ok b b' src e = ground (arith, e)

-- Where the bytes fit the allocation and the new length is at most 2 ^ 62, `append_bytes` keeps
-- what the buffer holds and adds the new bytes behind it, within the capacity; it fails only
-- where an allocation fails whose size covers the need and is at most the old capacity, 4096 or
-- twice the need.
pub append_bytes-Appended :
    (alloc_ok : ℕ → Bool) (b : Buf) (src : Bytes)
    → FitsCap b
    → length b.bytes + length src ≤ 2 ^ 62
    → Appended alloc_ok b src (append_bytes alloc_ok b src)
append_bytes-Appended alloc_ok b src fits small =
    let all = length-append b.bytes src in
    elim (reserve_lem alloc_ok (length b.bytes + length src) b small) [
      | inl (e, room) ↦
          rw (append_bytes-some alloc_ok b b src e) ((refl, omega (arith, all), omega arith))
      | inr (c, large, full, tight, e) ↦ elim (Bool-cases (alloc_ok c)) [
        | inl given ↦
            let e' =
              append_bytes-some alloc_ok b (record b { cap = c }) src (ground (arith, e, given)) in
            rw e' (refl, omega (arith, all), omega arith)
        | inr refused ↦
            let e' = append_bytes-none alloc_ok b src (ground (arith, e, refused)) in
            rw e' (c, refused, large, tight)
      ]
    ]
