-- ===== src/Wasi/Memory.antt =====
-- The guest's linear memory, `wasm_rt_memory_t`: a size and the bytes behind `data`.
pub mod Laws
use pglite_ios.Common.{
  ℕ, zero, suc, ◌+◌, ◌-◌, ◌<◌, Bool, ◌&&◌, List, [], ◌∷◌, ltb, leb, if◌then◌else◌, length, get_or,
  Bytes,
}

pub record Memory : Type 0 where
  pub size : ℕ
  pub byte : ℕ → ℕ

-- `memcpy` out of the memory: `n` bytes from `off`.
unfoldable pub peek : Memory → ℕ → ℕ → Bytes
peek m off zero = []
peek m off (suc n) = m.byte off ∷ peek m (off + 1) n

-- Is `i` one of the `n` addresses from `off`?
abbrev pub within : ℕ → ℕ → ℕ → Bool
within off n i = leb off i && ltb i (off + n)

-- `memcpy` into the memory.
unfoldable pub poke : Memory → ℕ → Bytes → Memory
poke m off bs = record m {
  byte = λ i. if within off (length bs) i then get_or bs (i - off) 0 else m.byte i;
}

-- Each cell of the memory holds a byte.
abbrev pub IsBytes : Memory → Type 0
IsBytes m = (i : ℕ) → m.byte i < 256
