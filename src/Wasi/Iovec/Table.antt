-- ===== src/Wasi/Iovec/Table.antt =====
-- The table of buffers after `fd_read` of native/shim/wasi_shim.c: it names the same ones again.
use pglite_ios.Common.{
  ℕ, zero, suc, ◌+◌, ◌*◌, ◌^◌, ◌≤◌, ◌≡◌, refl, ap, ◌∙◌, inl, inr, Option, Option-cases, none, some,
  List, [], ◌∷◌, if◌then◌else◌, arith, ltb, ◌==◌, take, drop, Bytes, u32,
}
use mathlib.Core.Path.{fun_ext}
use pglite_ios.Wasi.Memory.{Memory, poke}
use pglite_ios.Wasi.State.{Shim, gptr, gread_u32, load, store}
use pglite_ios.Wasi.Iovec.{Iovec, iov_base, iovs_loop, iovs_to_host, scatter}
use pglite_ios.Wasi.Iovec.Bounds.{gptr-bounds}
use pglite_ios.Wasi.Iovec.RoundTrip.{BaseApart, AllApart, filled-HasMemory, HasMemory, filled}

-- An element of the table in front of the rest of it.
abbrev one_more :
    Option ℕ → Option ℕ → (ℕ → ℕ → Option (Option ℕ)) → Option (List Iovec) → Option (List Iovec)
one_more buf len base rest = elim buf [
  | none ↦ none
  | some b ↦ elim len [
    | none ↦ none
    | some l ↦ elim (base b l) [
      | none ↦ none
      | some x ↦ elim rest [ none ↦ none | some vs ↦ some (record { base = x; len = l } ∷ vs) ]
    ]
  ]
]

-- A state whose memory has the same size and the same bytes in the `n` from `p`.
pub record SameAt (p n : ℕ) (w w' : Shim) : Type 0 where
  pub pointers : (a k : ℕ) → gptr w' a k ≡ gptr w a k
  pub bytes : (a k : ℕ) → p ≤ a → a + k ≤ p + n → load w' a k ≡ load w a k

module _ {p n : ℕ} {w w' : Shim} (s : SameAt p n w w') where
  gread_u32-SameAt : (a : ℕ) → p ≤ a → a + 4 ≤ p + n → gread_u32 w' a ≡ gread_u32 w a
  unfolding gread_u32
  gread_u32-SameAt a le fits = elim (Option-cases (gptr w a 4)) [
    | inl e ↦ rw (s.pointers a 4, e) refl
    | inr (q, e) ↦
        let same : q ≡ a = (gptr-bounds w a 4 e).0 in
        rw (s.pointers a 4, e, same, s.bytes a 4 le fits) refl
  ]

  iov_base-SameAt : (buf len : ℕ) → iov_base w' buf len ≡ iov_base w buf len
  unfolding iov_base
  iov_base-SameAt buf len =
      ap
        (λ (o : Option ℕ). elim o [
          | none ↦ if len == 0 then some none else none
          | some p ↦ some (some p)
        ])
        (s.pointers buf len)

  iovs_loop-SameAt :
      (k i : ℕ) → p + n ≤ 2 ^ 32 → 8 * (i + k) ≤ n → iovs_loop w' p k i ≡ iovs_loop w p k i
  unfolding iovs_loop
  iovs_loop-SameAt zero i small fits = refl
  iovs_loop-SameAt (suc k) i small fits =
      let a : u32 (p + 8 * i) ≡ p + 8 * i = omega (arith, small, fits) in
      let b : u32 (p + 8 * i + 4) ≡ p + 8 * i + 4 = omega (arith, small, fits) in
      let at = gread_u32-SameAt (u32 (p + 8 * i)) (omega (arith, a)) (omega (arith, a, fits)) in
      let next =
        gread_u32-SameAt (u32 (p + 8 * i + 4)) (omega (arith, b)) (omega (arith, b, fits)) in
      let base = fun_ext (λ buf. fun_ext (λ len. iov_base-SameAt buf len)) in
      let rest = iovs_loop-SameAt k (i + 1) small (omega (arith, fits)) in
      let old = iov_base w' in
      ap (λ x. one_more x (gread_u32 w' (u32 (p + 8 * i + 4))) old (iovs_loop w' p k (i + 1))) at
      ∙ ap (λ x. one_more (gread_u32 w (u32 (p + 8 * i))) x old (iovs_loop w' p k (i + 1))) next
      ∙ ap
          (λ (x : ℕ → ℕ → Option (Option ℕ)).
            one_more (gread_u32 w (u32 (p + 8 * i))) (gread_u32 w (u32 (p + 8 * i + 4))) x
              (iovs_loop w' p k (i + 1)))
          base
      ∙ ap
          (one_more (gread_u32 w (u32 (p + 8 * i))) (gread_u32 w (u32 (p + 8 * i + 4)))
            (iov_base w))
          rest

  pub iovs_to_host-SameAt :
      (k : ℕ) → p + n ≤ 2 ^ 32 → 8 * k ≤ n → iovs_to_host w' p k 64 ≡ iovs_to_host w p k 64
  unfolding iovs_to_host
  iovs_to_host-SameAt k small fits =
      ap (λ r. if ltb 64 k then none else r) (iovs_loop-SameAt k 0 small (omega (arith, fits)))

pub gptr-store :
    (p : ℕ) (bs : Bytes) (w : Shim) (a k : ℕ) (m : Memory)
    → w.mem ≡ some m
    → gptr (store p bs w) a k ≡ gptr w a k
unfolding gptr store poke
gptr-store p bs w a k m e = rw e refl

gptr-filled :
    (o : Option ℕ) (bs : Bytes) (w : Shim) (a k : ℕ)
    → HasMemory w
    → gptr (filled o bs w) a k ≡ gptr w a k
gptr-filled none bs w a k h = refl
gptr-filled (some p) bs w a k (m, e) = gptr-store p bs w a k m e

pub gptr-scatter :
    (vs : List Iovec) (bs : Bytes) (w : Shim) (a k : ℕ)
    → HasMemory w
    → gptr (scatter vs bs w) a k ≡ gptr w a k
unfolding scatter
gptr-scatter [] bs w a k h = refl
gptr-scatter (v ∷ vs) bs w a k h =
    let part = take v.len bs in
    gptr-scatter vs (drop v.len bs) (filled v.base part w) a k (filled-HasMemory v.base part w h)
    ∙ gptr-filled v.base part w a k h

BaseApart-within :
    (len : ℕ) (o : Option ℕ) (p n q k : ℕ)
    → p ≤ q
    → q + k ≤ p + n
    → BaseApart p n len o
    → BaseApart q k len o
BaseApart-within len none p n q k le fits h = tt
BaseApart-within len (some r) p n q k le fits h = ground (arith, le, fits, h)

-- Within a range that the buffers avoid, they avoid each part.
pub AllApart-within :
    (vs : List Iovec) (p n q k : ℕ) → p ≤ q → q + k ≤ p + n → AllApart p n vs → AllApart q k vs
AllApart-within [] p n q k le fits h = tt
AllApart-within (v ∷ vs) p n q k le fits (h, hs) =
    (BaseApart-within v.len v.base p n q k le fits h, AllApart-within vs p n q k le fits hs)
