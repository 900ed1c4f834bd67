-- ===== src/Bridge/Exec/Clip.antt =====
-- `sappend` of native/bridge/pglite_bridge.c appends to a text that is cut to the caller's buffer.
use pglite_ios.Common.{
  ℕ, suc, ◌+◌, ◌-◌, ◌^◌, ◌≤◌, ◌<◌, ◌≡◌, sym, ap, ◌∙◌, some, ◌++◌, arith, leb, if◌then◌else◌, length,
  length-take, take, take-append_split, take-take, min, Bytes,
}
use pglite_ios.Bridge.Exec.{size_sub, sappend}

-- What `sappend` copies, for a text that ends below the capacity.
copied : ℕ → ℕ → ℕ → ℕ
copied outcap used n = if leb outcap (used + n) then size_sub outcap (used + 1) else n

copied_lem : (k used n : ℕ) → used ≤ k → suc k < 2 ^ 64 → copied (suc k) used n ≡ min (k - used) n
unfolding copied
copied_lem k used n h small = ground arith

sappend-some :
    (outcap : ℕ) (out s : Bytes) (n m : ℕ)
    → copied outcap (length out) n ≡ m
    → m ≤ length s
    → length out + m < outcap
    → sappend outcap out s n ≡ some (out ++ take m s)
unfolding sappend copied
sappend-some outcap out s n m e readable room = ground (arith, e)

-- With a buffer of `k + 1` bytes, below 2 ^ 64, that has the first `k` bytes of a text, and `n`
-- bytes that can be read, `sappend` appends them to the whole text: what is in the buffer is that
-- text cut to its first `k` bytes.
pub sappend-take :
    (k : ℕ) (whole s : Bytes) (n : ℕ)
    → suc k < 2 ^ 64
    → n ≤ length s
    → sappend (suc k) (take k whole) s n ≡ some (take k (whole ++ take n s))
sappend-take k whole s n small readable =
    let used = length-take k whole in
    let m = min (k - length whole) n in
    let e : copied (suc k) (length (take k whole)) n ≡ m =
      copied_lem k (length (take k whole)) n (omega (arith, used)) small ∙ omega (arith, used) in
    sappend-some (suc k) (take k whole) s n m e (omega arith) (omega (arith, used))
    ∙ ap (λ t. some (take k whole ++ t)) (sym (take-take (k - length whole) n s))
    ∙ ap some (sym (take-append_split k whole (take n s)))
