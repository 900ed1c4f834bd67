-- ===== src/Wasi/Iovec/RoundTrip.antt =====
-- The buffers of native/shim/wasi_shim.c: what `readv` puts into them, `writev` takes out again.
use pglite_ios.Common.{
  ℕ, zero, suc, ◌+◌, ◌≤◌, ◌≡◌, refl, sym, ap, ◌∙◌, ◌⊎◌, Option, none, some, List, [], ◌∷◌, ◌++◌,
  arith, length, length-take, length-append, take, drop, Bytes,
}
use mathlib.Core.Path.{ap₂}
use pglite_ios.Wasi.Memory.{Memory, peek, poke}
use pglite_ios.Wasi.Memory.Laws.{peek-poke, peek-poke_disjoint}
use pglite_ios.Wasi.State.{Shim, load, store}
use pglite_ios.Wasi.State.Stores.{mem-store}
use pglite_ios.Wasi.Iovec.{Iovec, gather, scatter}

-- A buffer has no byte in the `n` ones from `p`.
abbrev pub BaseApart : ℕ → ℕ → ℕ → Option ℕ → Type 0
BaseApart p n len none = Unit {0}
BaseApart p n len (some q) = (q + len ≤ p) ⊎ (p + n ≤ q)

abbrev pub AllApart : ℕ → ℕ → List Iovec → Type 0
AllApart p n [] = Unit {0}
AllApart p n (v ∷ vs) = BaseApart p n v.len v.base × AllApart p n vs

-- A buffer without an address is empty; another has no byte in the buffers that follow.
abbrev pub FirstApart : ℕ → Option ℕ → List Iovec → Type 0
FirstApart len none vs = len ≡ 0
FirstApart len (some p) vs = AllApart p len vs

abbrev pub Disjoint : List Iovec → Type 0
Disjoint [] = Unit {0}
Disjoint (v ∷ vs) = FirstApart v.len v.base vs × Disjoint vs

-- How many bytes the buffers have room for.
unfoldable pub room : List Iovec → ℕ
room [] = 0
room (v ∷ vs) = v.len + room vs

unfoldable pub joined : List Bytes → Bytes
joined [] = []
joined (b ∷ bs) = b ++ joined bs

load-peek : (w : Shim) (m : Memory) (p n : ℕ) → w.mem ≡ some m → load w p n ≡ peek m p n
unfolding load
load-peek w m p n e = rw e refl

pub load-store_apart :
    (w : Shim) (m : Memory) (p n q len : ℕ) (bs : Bytes)
    → w.mem ≡ some m
    → length bs ≤ len
    → (q + len ≤ p) ⊎ (p + n ≤ q)
    → load (store q bs w) p n ≡ load w p n
load-store_apart w m p n q len bs e le apart =
    load-peek (store q bs w) (poke m q bs) p n (mem-store w m q bs e)
    ∙ peek-poke_disjoint m q bs p n (ground (arith, apart, le))
    ∙ sym (load-peek w m p n e)

-- One buffer filled.
abbrev pub filled : Option ℕ → Bytes → Shim → Shim
filled o bs w = elim o [ none ↦ w | some p ↦ store p bs w ]

abbrev pub HasMemory : Shim → Type 0
HasMemory w = (m : Memory) × (w.mem ≡ some m)

pub filled-HasMemory :
    (o : Option ℕ) (bs : Bytes) (w : Shim) → HasMemory w → HasMemory (filled o bs w)
filled-HasMemory none bs w h = h
filled-HasMemory (some p) bs w (m, e) = (poke m p bs, mem-store w m p bs e)

load-filled_apart :
    (o : Option ℕ) (bs : Bytes) (w : Shim) (p n len : ℕ)
    → HasMemory w
    → length bs ≤ len
    → BaseApart p n len o
    → load (filled o bs w) p n ≡ load w p n
load-filled_apart none bs w p n len h le apart = refl
load-filled_apart (some q) bs w p n len (m, e) le apart =
    load-store_apart w m p n q len bs e le apart

-- A range apart from the buffers reads as before.
pub load-scatter_apart :
    (vs : List Iovec) (bs : Bytes) (w : Shim) (p n : ℕ)
    → HasMemory w
    → AllApart p n vs
    → load (scatter vs bs w) p n ≡ load w p n
unfolding scatter
load-scatter_apart [] bs w p n h apart = refl
load-scatter_apart (v ∷ vs) bs w p n h (x, apart) =
    let part = take v.len bs in
    let le : length part ≤ v.len = omega (arith, length-take v.len bs) in
    load-scatter_apart vs (drop v.len bs) (filled v.base part w) p n
      (filled-HasMemory v.base part w h) apart
    ∙ load-filled_apart v.base part w p n v.len h le x

load-store :
    (w : Shim) (m : Memory) (p : ℕ) (bs : Bytes)
    → w.mem ≡ some m
    → load (store p bs w) p (length bs) ≡ bs
load-store w m p bs e =
    load-peek (store p bs w) (poke m p bs) p (length bs) (mem-store w m p bs e) ∙ peek-poke m p bs

-- What `gather` takes out of a buffer.
abbrev pub content : Shim → ℕ → Option ℕ → Bytes
content w len o = elim o [ none ↦ [] | some p ↦ load w p len ]

content-scatter :
    (o : Option ℕ) (len : ℕ) (vs : List Iovec) (bs rest : Bytes) (w : Shim)
    → HasMemory w
    → length bs ≡ len
    → FirstApart len o vs
    → content (scatter vs rest (filled o bs w)) len o ≡ bs
content-scatter none len vs [] rest w h e apart = refl
content-scatter none len vs (b ∷ bs) rest w h e apart = absurd (omega (arith, e, apart))
content-scatter (some p) len vs bs rest w (m, f) e apart =
    load-scatter_apart vs rest (store p bs w) p len (poke m p bs, mem-store w m p bs f) apart
    ∙ ap (λ k. load (store p bs w) p k) (sym e)
    ∙ load-store w m p bs f

take-drop : (n : ℕ) (bs : Bytes) → take n bs ++ drop n bs ≡ bs
take-drop zero bs = refl
take-drop (suc n) [] = refl
take-drop (suc n) (b ∷ bs) = ap (λ xs. b ∷ xs) (take-drop n bs)

-- Disjoint buffers that are filled hold what they were filled with.
pub gather-scatter :
    (vs : List Iovec) (bs : Bytes) (w : Shim)
    → HasMemory w
    → Disjoint vs
    → length bs ≡ room vs
    → joined (gather (scatter vs bs w) vs) ≡ bs
unfolding gather scatter joined room
gather-scatter [] [] w h d e = refl
gather-scatter [] (b ∷ bs) w h d e = absurd (omega (arith, e))
gather-scatter (v ∷ vs) bs w h (first, d) e =
    let part = take v.len bs in
    let full : length part ≡ v.len = omega (arith, length-take v.len bs, e) in
    let left : length (drop v.len bs) ≡ room vs =
      omega (arith, full, length-append part (drop v.len bs), ap length (take-drop v.len bs), e) in
    ap₂ ◌++◌ (content-scatter v.base v.len vs part (drop v.len bs) w h full first) (
      gather-scatter vs (drop v.len bs) (filled v.base part w) (filled-HasMemory v.base part w h) d
        left)
    ∙ take-drop v.len bs
