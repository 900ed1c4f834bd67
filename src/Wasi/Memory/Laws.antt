-- ===== src/Wasi/Memory/Laws.antt =====
-- Reading back what was written to the guest's memory, and what a write leaves alone.
use pglite_ios.Common.{
  ℕ, zero, suc, ◌+◌, ◌-◌, ◌≤◌, ◌<◌, ◌≡◌, refl, ◌⊎◌, [], ◌∷◌, ap, ◌∙◌, arith, length, get_or, Bytes,
}
use mathlib.Core.Path.{ap₂}
use pglite_ios.Wasi.Memory.{Memory, peek, poke}

pub byte-poke_outside :
    (m : Memory) (off : ℕ) (bs : Bytes) (i : ℕ)
    → (i < off) ⊎ (off + length bs ≤ i)
    → (poke m off bs).byte i ≡ m.byte i
unfolding poke
byte-poke_outside m off bs i h = ground arith

pub byte-poke_inside :
    (m : Memory) (off : ℕ) (bs : Bytes) (i : ℕ)
    → off ≤ i
    → i < off + length bs
    → (poke m off bs).byte i ≡ get_or bs (i - off) 0
unfolding poke
byte-poke_inside m off bs i p q = ground arith

pub length-peek : (m : Memory) (off n : ℕ) → length (peek m off n) ≡ n
unfolding peek
length-peek m off zero = refl
length-peek m off (suc n) = ap suc (length-peek m (off + 1) n)

-- Two memories that agree on a range read the same there.
pub peek_ext :
    (m m' : Memory) (n off : ℕ)
    → ((i : ℕ) → off ≤ i → i < off + n → m.byte i ≡ m'.byte i)
    → peek m off n ≡ peek m' off n
unfolding peek
peek_ext m m' zero off h = refl
peek_ext m m' (suc n) off h =
    ap₂ ◌∷◌ (h off (omega arith) (omega arith))
      (peek_ext m m' n (off + 1) (λ i p q. h i (omega arith) (omega arith)))

pub peek-poke_disjoint :
    (m : Memory) (off : ℕ) (bs : Bytes) (p n : ℕ)
    → (p + n ≤ off) ⊎ (off + length bs ≤ p)
    → peek (poke m off bs) p n ≡ peek m p n
peek-poke_disjoint m off bs p n h =
    peek_ext (poke m off bs) m n p (λ i l r. byte-poke_outside m off bs i (ground arith))

-- The bytes of a memory that holds `bs` at `off`.
peek_of_get_or :
    (m : Memory) (bs : Bytes) (off : ℕ)
    → ((j : ℕ) → j < length bs → m.byte (off + j) ≡ get_or bs j 0)
    → peek m off (length bs) ≡ bs
unfolding peek
peek_of_get_or m [] off h = refl
peek_of_get_or m (b ∷ bs) off h =
    ap₂ ◌∷◌ (ap m.byte (omega arith) ∙ h 0 (omega arith))
      (peek_of_get_or m bs (off + 1) (λ j lt. ap m.byte (omega arith) ∙ h (suc j) (omega arith)))

pub peek-poke : (m : Memory) (off : ℕ) (bs : Bytes) → peek (poke m off bs) off (length bs) ≡ bs
peek-poke m off bs =
    peek_of_get_or (poke m off bs) bs off
      (λ j lt. ground (arith, byte-poke_inside m off bs (off + j)))
