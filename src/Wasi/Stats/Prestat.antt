-- ===== src/Wasi/Stats/Prestat.antt =====
-- `fd_prestat_get` and `fd_prestat_dir_name` of native/shim/wasi_shim.c, one after the other, as
-- the C library of the guest calls them.
use pglite_ios.Common.{
  ℕ, ◌+◌, ◌^◌, ◌≤◌, ◌<◌, ◌≡◌, refl, sym, ap, ◌∙◌, true, false, Option, none, some, ◌++◌, ltb,
  if◌then◌else◌, length, replicate, arith, Bytes, is_neg, to_nat, u32, le_bytes, le_value,
  le_value-le_bytes_four,
}
use pglite_ios.Wasi.Code
use pglite_ios.Wasi.Memory.{Memory, peek, poke}
use pglite_ios.Wasi.Memory.Laws.{peek-poke}
use pglite_ios.Wasi.State.{FdEntry, Shim, ok, err, gets, modify, fail, store, load, gptr}
use pglite_ios.Wasi.State.Steps.{or_fail-some, ok-step}
use pglite_ios.Wasi.State.Stores.{gptr-some, mem-store, poke-append}
use pglite_ios.Wasi.FdTable.{fd_get}
use pglite_ios.Wasi.Stats.{preopened, get_guest_path, fd_prestat_get, fd_prestat_dir_name}

-- `fd` is the preopened directory with the guest path `gp`.
pub record IsPreopened (w : Shim) (fd : ℕ) (gp : Bytes) : Type 0 where
  pub entry : FdEntry
  pub found : fd_get w fd ≡ some entry
  pub marked : is_neg entry.preopen ≡ false
  pub path : (w.preopens (to_nat entry.preopen)).guest_path ≡ gp

-- The 8 bytes of a `prestat`.
abbrev prestat : ℕ → Bytes
prestat n = replicate 4 0 ++ le_bytes 4 n

module _ {fd : ℕ} {gp : Bytes} where
  stored-IsPreopened :
      (w : Shim) (p : ℕ) (bs : Bytes) → IsPreopened w fd gp → IsPreopened (store p bs w) fd gp
  unfolding store fd_get
  stored-IsPreopened w p bs h = record {
    entry = h.entry;
    found = h.found;
    marked = h.marked;
    path = h.path;
  }

  preopened-some : (w : Shim) (h : IsPreopened w fd gp) → preopened fd w ≡ some h.entry
  preopened-some w h =
      ap
        (λ (o : Option FdEntry). elim o [
          | none ↦ none
          | some e ↦ if is_neg e.preopen then none else some e
        ])
        h.found
      ∙ rw h.marked refl

  guest_path-of : (w : Shim) → IsPreopened w fd gp → get_guest_path fd w ≡ (ok gp, w)
  unfolding gets
  guest_path-of w h =
      or_fail-some _ w Code.badf (preopened fd) h.entry (preopened-some w h) ∙ rw h.path refl

  module _ (w : Shim) (m : Memory) (e : w.mem ≡ some m) (h : IsPreopened w fd gp) where
    fd_prestat_get-some :
        (p : ℕ)
        → p + 8 ≤ m.size
        → fd_prestat_get fd p w ≡ (ok tt, store p (prestat (u32 (length gp))) w)
    unfolding fd_prestat_get modify
    fd_prestat_get-some p fits =
        ok-step (get_guest_path fd) _ w w gp (guest_path-of w h)
        ∙ or_fail-some _ w Code.fault (λ x. gptr x p 8) p (gptr-some w m p 8 e fits)

    fd_prestat_dir_name-short :
        (q k : ℕ) → k < u32 (length gp) → fd_prestat_dir_name fd q k w ≡ (err Code.inval, w)
    unfolding fd_prestat_dir_name fail
    fd_prestat_dir_name-short q k lt =
        let short : ltb k (u32 (length gp)) ≡ true = ground (arith, lt) in
        ok-step (get_guest_path fd) _ w w gp (guest_path-of w h) ∙ rw short refl

    fd_prestat_dir_name-long :
        (q k : ℕ)
        → u32 (length gp) ≤ k
        → q + u32 (length gp) ≤ m.size
        → fd_prestat_dir_name fd q k w ≡ (ok tt, store q gp w)
    unfolding fd_prestat_dir_name modify
    fd_prestat_dir_name-long q k le fits =
        let enough : ltb k (u32 (length gp)) ≡ false = ground (arith, le) in
        ok-step (get_guest_path fd) _ w w gp (guest_path-of w h)
        ∙ rw enough (
            or_fail-some _ w Code.fault (λ x. gptr x q (u32 (length gp))) q
              (gptr-some w m q (u32 (length gp)) e fits))

load-store :
    (w : Shim) (m : Memory) (p : ℕ) (bs : Bytes)
    → w.mem ≡ some m
    → load (store p bs w) p (length bs) ≡ bs
unfolding load store
load-store w m p bs e = rw e (peek-poke m p bs)

load-prestat :
    (w : Shim) (m : Memory) (p n : ℕ)
    → w.mem ≡ some m
    → n < 2 ^ 32
    → le_value (load (store p (prestat n) w) (p + 4) 4) ≡ n
unfolding load store le_bytes
load-prestat w m p n e lt =
    let bs = le_bytes 4 n in
    let zeros = replicate 4 0 in
    let split = ap (λ (x : Memory). le_value (peek x (p + 4) 4)) (sym (poke-append m p zeros bs)) in
    let read = ap le_value (peek-poke (poke m p zeros) (p + 4) bs) in
    rw e (split ∙ read ∙ le_value-le_bytes_four n lt)

-- How a guest learns the path of a preopened directory: the length from `fd_prestat_get` with the
-- answer at `p`, then the path from `fd_prestat_dir_name` with the answer at `q`.
pub record Discovers (fd p q : ℕ) (gp : Bytes) (w : Shim) : Type 0 where
  pub asked : (fd_prestat_get fd p w).0 ≡ ok tt
  pub size : le_value (load (fd_prestat_get fd p w).1 (p + 4) 4) ≡ length gp
  pub named :
      (fd_prestat_dir_name fd q
        (le_value (load (fd_prestat_get fd p w).1 (p + 4) 4))
        (fd_prestat_get fd p w).1).0
      ≡ ok tt
  pub name :
      load
        (fd_prestat_dir_name fd q
          (le_value (load (fd_prestat_get fd p w).1 (p + 4) 4))
          (fd_prestat_get fd p w).1).1
        q
        (length gp)
      ≡ gp
  pub shorter : (k : ℕ) → k < length gp → (fd_prestat_dir_name fd q k w) ≡ (err Code.inval, w)

-- For a preopened directory whose path a 32-bit length can count, and with the two answers in the
-- memory, `fd_prestat_get` returns 0 and gives the length of the path; `fd_prestat_dir_name`, with
-- that length, returns 0 and leaves the path in the memory; with a smaller length it returns
-- `EINVAL` and does nothing.
pub fd_prestat_get-Discovers :
    (w : Shim) (m : Memory) (fd p q : ℕ) (gp : Bytes)
    → w.mem ≡ some m
    → IsPreopened w fd gp
    → length gp < 2 ^ 32
    → p + 8 ≤ m.size
    → q + length gp ≤ m.size
    → Discovers fd p q gp w
unfolding poke
fd_prestat_get-Discovers w m fd p q gp e h lt fits_p fits_q =
    let small : u32 (length gp) ≡ length gp = omega (arith, lt) in
    let w1 = store p (prestat (length gp)) w in
    let m1 = poke m p (prestat (length gp)) in
    let first : fd_prestat_get fd p w ≡ (ok tt, w1) =
      fd_prestat_get-some w m e h p fits_p ∙ ap (λ n. (ok tt, store p (prestat n) w)) small in
    let count = load-prestat w m p (length gp) e lt in
    let second : fd_prestat_dir_name fd q (length gp) w1 ≡ (ok tt, store q gp w1) =
      fd_prestat_dir_name-long w1 m1 (mem-store w m p (prestat (length gp)) e)
        (stored-IsPreopened w p (prestat (length gp)) h) q (length gp) (omega (arith, small))
        (omega (arith, small, fits_q)) in
    record {
      asked = ap (λ r. r.0) first;
      size = rw first count;
      named = rw (first, count, second) refl;
      name =
          rw (first, count, second)
            (load-store w1 m1 q gp (mem-store w m p (prestat (length gp)) e));
      shorter = λ k less. fd_prestat_dir_name-short w m e h q k (omega (arith, small, less));
    }
