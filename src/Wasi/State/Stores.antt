-- ===== src/Wasi/State/Stores.antt =====
-- Writes to the guest's memory, for native/shim/wasi_shim.c: where the range lies in the memory.
use pglite_ios.Common.{
  ℕ, ◌+◌, ◌-◌, ◌≤◌, ◌≡◌, refl, sym, ap, ◌∙◌, inl, inr, Option, some, [], ◌++◌, arith, Bool-cases,
  ltb, length, length-append, get_or, get_or-append_left, get_or-append_right, Bytes, le_bytes,
}
use mathlib.Core.Path.{fun_ext}
use pglite_ios.Wasi.Memory.{Memory, poke}
use pglite_ios.Wasi.Memory.Laws.{byte-poke_inside, byte-poke_outside}
use pglite_ios.Wasi.State.{Shim, ok, gptr, gwrite_u32, store, put_u32}

pub gptr-some :
    (w : Shim) (m : Memory) (off len : ℕ)
    → w.mem ≡ some m
    → off + len ≤ m.size
    → gptr w off len ≡ some off
unfolding gptr
gptr-some w m off len e h = ground (arith, e)

pub mem-store :
    (w : Shim) (m : Memory) (p : ℕ) (bs : Bytes)
    → w.mem ≡ some m
    → (store p bs w).mem ≡ some (poke m p bs)
unfolding store
mem-store w m p bs e = rw e refl

pub size-poke : (m : Memory) (p : ℕ) (bs : Bytes) → (poke m p bs).size ≡ m.size
unfolding poke
size-poke m p bs = refl

pub put_u32-store :
    (w : Shim) (m : Memory) (p v : ℕ)
    → w.mem ≡ some m
    → p + 4 ≤ m.size
    → put_u32 p v w ≡ (ok tt, store p (le_bytes 4 v) w)
unfolding put_u32 gwrite_u32
put_u32-store w m p v e h = rw (gptr-some w m p 4 e h) refl

byte-poke-append :
    (m : Memory) (p : ℕ) (s t : Bytes) (i : ℕ)
    → (poke (poke m p s) (p + length s) t).byte i ≡ (poke m p (s ++ t)).byte i
byte-poke-append m p s t i =
    let n = length-append s t in
    elim (Bool-cases (ltb i p)) [
      | inl before ↦
          byte-poke_outside (poke m p s) (p + length s) t i (inl (ground arith))
          ∙ byte-poke_outside m p s i (inl (ground arith))
          ∙ sym (byte-poke_outside m p (s ++ t) i (inl (ground arith)))
      | inr after ↦ elim (Bool-cases (ltb i (p + length s))) [
        | inl first ↦
            byte-poke_outside (poke m p s) (p + length s) t i (inl (ground arith))
            ∙ byte-poke_inside m p s i (ground arith) (ground arith)
            ∙ sym (get_or-append_left s t (i - p) 0 (ground arith))
            ∙ sym (byte-poke_inside m p (s ++ t) i (ground arith) (ground (arith, n)))
        | inr second ↦ elim (Bool-cases (ltb i (p + length s + length t))) [
          | inl inside ↦
              let at : length s + (i - (p + length s)) ≡ i - p = ground arith in
              byte-poke_inside (poke m p s) (p + length s) t i (ground arith) (ground arith)
              ∙ sym (get_or-append_right s t (i - (p + length s)) 0)
              ∙ ap (λ j. get_or (s ++ t) j 0) at
              ∙ sym (byte-poke_inside m p (s ++ t) i (ground arith) (ground (arith, n)))
          | inr past ↦
              byte-poke_outside (poke m p s) (p + length s) t i (inr (ground arith))
              ∙ byte-poke_outside m p s i (inr (ground arith))
              ∙ sym (byte-poke_outside m p (s ++ t) i (inr (ground (arith, n))))
        ]
      ]
    ]

with_bytes : Memory → (ℕ → ℕ) → Memory
with_bytes m f = record m { byte = f }

pub poke-append :
    (m : Memory) (p : ℕ) (s t : Bytes) → poke (poke m p s) (p + length s) t ≡ poke m p (s ++ t)
unfolding with_bytes poke
poke-append m p s t = ap (with_bytes m) (fun_ext (byte-poke-append m p s t))

-- Two writes, the second behind the first, are one.
pub store-append :
    (w : Shim) (m : Memory) (p : ℕ) (s t : Bytes)
    → w.mem ≡ some m
    → store (p + length s) t (store p s w) ≡ store p (s ++ t) w
unfolding store
store-append w m p s t e =
    rw e (ap (λ (m' : Memory). record w { mem = some m' }) (poke-append m p s t))

poke-nil : (m : Memory) (p : ℕ) → poke m p [] ≡ m
unfolding with_bytes poke
poke-nil m p = ap (with_bytes m) (fun_ext (λ i. ground arith))

pub store-nil : (w : Shim) (m : Memory) (p : ℕ) → w.mem ≡ some m → store p [] w ≡ w
unfolding store
store-nil w m p e = ap (λ (o : Option Memory). record w { mem = o }) (rw e (ap some (poke-nil m p)))
