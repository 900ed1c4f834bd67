-- ===== src/Wasi/Iovec.antt =====
-- `iovs_to_host` of native/shim/wasi_shim.c, and what `readv` and `writev` do with its result.
pub mod Bounds
pub mod RoundTrip
pub mod Table
use pglite_ios.Common.{
  ℕ, zero, suc, ◌+◌, ◌*◌, Option, none, some, List, [], ◌∷◌, map, ltb, ◌==◌, if◌then◌else◌, take,
  drop, Bytes, u32,
}
use pglite_ios.Wasi.Code
use pglite_ios.Wasi.State.{Shim, Op, or_fail, gptr, gread_u32, store, load}

-- `struct iovec`; the base may be NULL where the length is 0.
pub record Iovec : Type 0 where
  pub base : Option ℕ
  pub len : ℕ

infixl 5 ◌>>=◌
abbrev ◌>>=◌ : {A B : Type 0} → Option A → (A → Option B) → Option B
m >>= f = elim m [ none ↦ none | some a ↦ f a ]

-- `if (!p && len) return -1;`
unfoldable pub iov_base : Shim → ℕ → ℕ → Option (Option ℕ)
unfolding gptr
iov_base w buf len = elim (gptr w buf len) [
  | none ↦ if len == 0 then some none else none
  | some p ↦ some (some p)
]

-- The loop with `n` rounds left, at element `i`.
unfoldable pub iovs_loop : Shim → ℕ → ℕ → ℕ → Option (List Iovec)
unfolding iov_base gread_u32
iovs_loop w iovs_p zero i = some []
iovs_loop w iovs_p (suc n) i = do
  buf ← gread_u32 w (u32 (iovs_p + 8 * i))
  len ← gread_u32 w (u32 (iovs_p + 8 * i + 4))
  base ← iov_base w buf len
  rest ← iovs_loop w iovs_p n (i + 1)
  some (record { base = base; len = len } ∷ rest)

-- `none` is -1.
unfoldable pub iovs_to_host : Shim → ℕ → ℕ → ℕ → Option (List Iovec)
unfolding iovs_loop
iovs_to_host w iovs_p n max_iov = if ltb max_iov n then none else iovs_loop w iovs_p n 0

-- `struct iovec iov[64]; if (iovs_to_host(...)) return WASI_EFAULT;`
abbrev pub get_iovs : ℕ → ℕ → Op (List Iovec)
get_iovs iovs_p n = or_fail Code.fault (λ w. iovs_to_host w iovs_p n 64)

abbrev pub lengths : List Iovec → List ℕ
lengths iovs = map (λ v. v.len) iovs

-- The buffers as `writev` sees them.
unfoldable pub gather : Shim → List Iovec → List Bytes
unfolding load
gather w [] = []
gather w (v ∷ vs) = elim v.base [ none ↦ [] | some p ↦ load w p v.len ] ∷ gather w vs

-- `readv` fills the buffers in order.
unfoldable pub scatter : List Iovec → Bytes → Shim → Shim
unfolding store
scatter [] bs w = w
scatter (v ∷ vs) bs w =
    scatter vs (drop v.len bs) (elim v.base [ none ↦ w | some p ↦ store p (take v.len bs) w ])
