-- ===== src/Wasi/Iovec/Bounds.antt =====
-- The buffers of `iovs_to_host` of native/shim/wasi_shim.c lie in the guest's memory.
use pglite_ios.Common.{
  ℕ, zero, suc, ◌+◌, ◌*◌, ◌≤◌, ◌<◌, ◌≡◌, refl, ◌∙◌, ◌⊎◌, inl, inr, Bool-cases, Option, Option-cases,
  none, some, List, [], ◌∷◌, arith, ltb, ltb→le, ◌==◌, if_rule, option_rule, length, length-take,
  take, drop, Bytes, u32,
}
use mathlib.Core.Path.{subst}
use pglite_ios.Wasi.Memory.Laws.{byte-poke_outside}
use pglite_ios.Wasi.State.{Shim, gptr, gread_u32, store, memory_or_empty}
use pglite_ios.Wasi.Iovec.{Iovec, iov_base, iovs_loop, iovs_to_host, scatter}

-- A buffer without an address is empty; another lies in the memory.
abbrev pub BaseFits : Shim → ℕ → Option ℕ → Type 0
BaseFits w len none = len ≡ 0
BaseFits w len (some p) = p + len ≤ (memory_or_empty w).size

abbrev pub InBounds : Shim → Iovec → Type 0
InBounds w v = BaseFits w v.len v.base

abbrev pub AllInBounds : Shim → List Iovec → Type 0
AllInBounds w [] = Unit {0}
AllInBounds w (v ∷ vs) = InBounds w v × AllInBounds w vs

-- The buffers, where there are any, are `n` and lie in the memory.
abbrev pub Converted : Shim → ℕ → Option (List Iovec) → Type 0
Converted w n none = Unit {0}
Converted w n (some vs) = (length vs ≡ n) × AllInBounds w vs

pub gptr-bounds :
    (w : Shim) (off len : ℕ) {p : ℕ}
    → gptr w off len ≡ some p
    → (p ≡ off) × (off + len ≤ (memory_or_empty w).size)
unfolding gptr
gptr-bounds w off len e = ground arith

-- What holds of a base, where there is one.
abbrev SomeBase : Shim → ℕ → Option (Option ℕ) → Type 0
SomeBase w len none = Unit {0}
SomeBase w len (some base) = BaseFits w len base

iov_base-SomeBase : (w : Shim) (buf len : ℕ) → SomeBase w len (iov_base w buf len)
unfolding iov_base
iov_base-SomeBase w buf len =
    option_rule (SomeBase w len) (gptr w buf len)
      (λ _. if_rule (SomeBase w len) (len == 0) (λ e. ground arith) (λ _. tt))
      (λ p e. let (same, fits) = gptr-bounds w buf len e in omega arith)

iovs_loop-Converted : (w : Shim) (iovs_p n i : ℕ) → Converted w n (iovs_loop w iovs_p n i)
unfolding iovs_loop
iovs_loop-Converted w iovs_p zero i = (refl, tt)
iovs_loop-Converted w iovs_p (suc n) i =
    option_rule (Converted w (suc n)) (gread_u32 w (u32 (iovs_p + 8 * i))) (λ _. tt)
      (λ buf _.
        option_rule (Converted w (suc n)) (gread_u32 w (u32 (iovs_p + 8 * i + 4))) (λ _. tt)
          (λ len _.
            option_rule (Converted w (suc n)) (iov_base w buf len) (λ _. tt)
              (λ base b.
                option_rule (Converted w (suc n)) (iovs_loop w iovs_p n (i + 1)) (λ _. tt)
                  (λ rest e.
                    let fits = subst (SomeBase w len) b (iov_base-SomeBase w buf len) in
                    let (size, all) =
                      subst (Converted w n) e (iovs_loop-Converted w iovs_p n (i + 1)) in
                    (omega (arith, size), (fits, all))))))

-- The buffers that `iovs_to_host` gives are as many as the guest said, at most `max_iov`, and
-- each lies in the guest's memory or is empty.
pub iovs_to_host-Converted :
    (w : Shim) (iovs_p n max_iov : ℕ)
    → Converted w n (iovs_to_host w iovs_p n max_iov)
      × ((iovs_to_host w iovs_p n max_iov ≡ none) ⊎ (n ≤ max_iov))
unfolding iovs_to_host
iovs_to_host-Converted w iovs_p n max_iov = elim (Bool-cases (ltb max_iov n)) [
  | inl many ↦ rw many (tt, inl refl)
  | inr few ↦ rw few (iovs_loop-Converted w iovs_p n 0, inr (ltb→le max_iov n few))
]

-- The address is not in the buffer.
abbrev pub IsMissed : ℕ → ℕ → Option ℕ → Type 0
IsMissed i len none = Unit {0}
IsMissed i len (some p) = (i < p) ⊎ (p + len ≤ i)

abbrev pub AllMissed : ℕ → List Iovec → Type 0
AllMissed i [] = Unit {0}
AllMissed i (v ∷ vs) = IsMissed i v.len v.base × AllMissed i vs

abbrev pub byte_at : Shim → ℕ → ℕ
byte_at w i = (memory_or_empty w).byte i

pub byte_at-store :
    (w : Shim) (p i : ℕ) (bs : Bytes)
    → (i < p) ⊎ (p + length bs ≤ i)
    → byte_at (store p bs w) i ≡ byte_at w i
unfolding store
byte_at-store w p i bs h = elim (Option-cases w.mem) [
  | inl e ↦ rw e refl
  | inr (m, e) ↦ rw e (byte-poke_outside m p bs i h)
]

-- The write of one buffer.
write_buffer : Option ℕ → ℕ → Bytes → Shim → Shim
write_buffer base len bs w = elim base [ none ↦ w | some p ↦ store p (take len bs) w ]

byte_at-write_buffer :
    (w : Shim) (base : Option ℕ) (len i : ℕ) (bs : Bytes)
    → IsMissed i len base
    → byte_at (write_buffer base len bs w) i ≡ byte_at w i
unfolding write_buffer
byte_at-write_buffer w none len i bs h = refl
byte_at-write_buffer w (some p) len i bs h =
    byte_at-store w p i (take len bs) (ground (arith, length-take len bs))

-- What `readv` brings changes no byte outside the buffers.
pub byte_at-scatter :
    (w : Shim) (i : ℕ) (vs : List Iovec) (bs : Bytes)
    → AllMissed i vs
    → byte_at (scatter vs bs w) i ≡ byte_at w i
unfolding scatter write_buffer
byte_at-scatter w i [] bs h = refl
byte_at-scatter w i (v ∷ vs) bs (h, rest) =
    byte_at-scatter (write_buffer v.base v.len bs w) i vs (drop v.len bs) rest
    ∙ byte_at-write_buffer w v.base v.len i bs h
