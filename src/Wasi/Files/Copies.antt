-- ===== src/Wasi/Files/Copies.antt =====
-- `fd_read` of native/shim/wasi_shim.c and then `fd_write` with the same buffers.
use pglite_ios.Common.{
  ℕ, ◌+◌, ◌*◌, ◌^◌, ◌≤◌, ◌≡◌, refl, ap, ◌∙◌, ◌⊎◌, inl, inr, Option, Option-cases, none, some, List,
  [], ◌∷◌, arith, length, take, drop, Bytes, u32, le_bytes, length-le_bytes,
}
use mathlib.Core.Path.{ap₂}
use pglite_ios.Wasi.Code
use pglite_ios.Wasi.Host.{Call, readv, writev, got}
use pglite_ios.Wasi.Memory.{Memory}
use pglite_ios.Wasi.State.{Shim, FdEntry, Res, ok, gptr, gwrite_u32, put_u32, load, store}
use pglite_ios.Wasi.State.Steps.{
  called, or_fail-some, try-got, try-failed, modify-step, gets-step, Sys-cases,
}
use pglite_ios.Wasi.State.Stores.{gptr-some}
use pglite_ios.Wasi.FdTable.{fd_get}
use pglite_ios.Wasi.Iovec.{Iovec, iovs_to_host, lengths, scatter, gather}
use pglite_ios.Wasi.Iovec.RoundTrip.{
  AllApart, BaseApart, Disjoint, room, joined, HasMemory, filled, filled-HasMemory, content,
  load-store_apart, load-scatter_apart, gather-scatter,
}
use pglite_ios.Wasi.Iovec.Table.{
  SameAt, iovs_to_host-SameAt, gptr-store, gptr-scatter, AllApart-within,
}
use pglite_ios.Wasi.Files.{fd_read, fd_write}

scatter-HasMemory :
    (vs : List Iovec) (bs : Bytes) (w : Shim) → HasMemory w → HasMemory (scatter vs bs w)
unfolding scatter
scatter-HasMemory [] bs w h = h
scatter-HasMemory (v ∷ vs) bs w h =
    scatter-HasMemory vs (drop v.len bs) (filled v.base (take v.len bs) w)
      (filled-HasMemory v.base (take v.len bs) w h)

fd_get-filled :
    (o : Option ℕ) (bs : Bytes) (w : Shim) (fd : ℕ) → fd_get (filled o bs w) fd ≡ fd_get w fd
unfolding fd_get store
fd_get-filled none bs w fd = refl
fd_get-filled (some p) bs w fd = refl

fd_get-scatter :
    (vs : List Iovec) (bs : Bytes) (w : Shim) (fd : ℕ) → fd_get (scatter vs bs w) fd ≡ fd_get w fd
unfolding scatter
fd_get-scatter [] bs w fd = refl
fd_get-scatter (v ∷ vs) bs w fd =
    fd_get-scatter vs (drop v.len bs) (filled v.base (take v.len bs) w) fd
    ∙ fd_get-filled v.base (take v.len bs) w fd

-- A write apart from a buffer, and from all of them.
content-store :
    (o : Option ℕ) (len : ℕ) (w : Shim) (m : Memory) (p n : ℕ) (bs : Bytes)
    → w.mem ≡ some m
    → length bs ≤ n
    → BaseApart p n len o
    → content (store p bs w) len o ≡ content w len o
content-store none len w m p n bs e le h = refl
content-store (some q) len w m p n bs e le h =
    load-store_apart w m q len p n bs e le (ground (arith, h))

gather-store :
    (vs : List Iovec) (w : Shim) (m : Memory) (p n : ℕ) (bs : Bytes)
    → w.mem ≡ some m
    → length bs ≤ n
    → AllApart p n vs
    → gather (store p bs w) vs ≡ gather w vs
unfolding gather
gather-store [] w m p n bs e le h = refl
gather-store (v ∷ vs) w m p n bs e le (h, hs) =
    ap₂ ◌∷◌ (content-store v.base v.len w m p n bs e le h) (gather-store vs w m p n bs e le hs)

calls-put_u32 : (p v : ℕ) (w : Shim) → (put_u32 p v w).1.calls ≡ w.calls
unfolding put_u32 gwrite_u32 store
calls-put_u32 p v w = elim (Option-cases (gptr w p 4)) [
  | inl e ↦ rw e refl
  | inr (q, e) ↦ rw e refl
]

-- The call of `fd_write`, once the entry and the buffers are known.
calls-fd_write :
    (w : Shim) (fd p n count_p : ℕ) (e : FdEntry) (vs : List Iovec)
    → fd_get w fd ≡ some e
    → iovs_to_host w p n 64 ≡ some vs
    → (fd_write fd p n count_p w).1.calls ≡ writev e.host_fd (gather w vs) ∷ w.calls
unfolding fd_write
calls-fd_write w fd p n count_p e vs f g =
    let calls_of : Res (Unit {0}) × Shim → List Call = λ r. r.1.calls in
    let c = writev e.host_fd (gather w vs) in
    ap calls_of (or_fail-some _ w Code.badf (λ w. fd_get w fd) e f)
    ∙ ap calls_of (or_fail-some _ w Code.fault (λ w. iovs_to_host w p n 64) vs g)
    ∙ ap calls_of (gets-step _ w (λ w. gather w vs))
    ∙ elim (Sys-cases (w.os.count_of w.calls c)) [
      | inl (r, k) ↦
          ap calls_of (try-got _ w (λ os. os.count_of) c r k)
          ∙ calls-put_u32 count_p (u32 r) (called c w)
      | inr (x, k) ↦ ap calls_of (try-failed _ w (λ os. os.count_of) c x k)
    ]

-- After the `readv` of `bs` and the count.
abbrev after_read : Call → List Iovec → Bytes → ℕ → Shim → Shim
after_read c vs bs count_p w =
    store count_p (le_bytes 4 (u32 (length bs))) (scatter vs bs (called c w))

load-called : (c : Call) (w : Shim) (a k : ℕ) → load (called c w) a k ≡ load w a k
unfolding load
load-called c w a k = refl

gptr-called : (c : Call) (w : Shim) (a k : ℕ) → gptr (called c w) a k ≡ gptr w a k
unfolding gptr
gptr-called c w a k = refl

fd_get-called : (c : Call) (w : Shim) (fd : ℕ) → fd_get (called c w) fd ≡ fd_get w fd
unfolding fd_get
fd_get-called c w fd = refl

fd_get-store : (p : ℕ) (bs : Bytes) (w : Shim) (fd : ℕ) → fd_get (store p bs w) fd ≡ fd_get w fd
fd_get-store p bs w fd = fd_get-filled (some p) bs w fd

module _ (w : Shim) (h : HasMemory w) (c : Call) (vs : List Iovec) (bs : Bytes) (count_p : ℕ) where
  count-fits : length (le_bytes 4 (u32 (length bs))) ≤ 4
  count-fits = omega (arith, length-le_bytes 4 (u32 (length bs)))

  -- The table of the buffers is as before, where it is apart from them and from the count.
  after_read-SameAt :
      (p n : ℕ)
      → AllApart p n vs
      → (count_p + 4 ≤ p) ⊎ (p + n ≤ count_p)
      → SameAt p n w (after_read c vs bs count_p w)
  after_read-SameAt p n apart other =
      let ws = scatter vs bs (called c w) in
      let (m, e) = scatter-HasMemory vs bs (called c w) h in
      let count = le_bytes 4 (u32 (length bs)) in
      record {
        pointers = λ a k.
            gptr-store count_p count ws a k m e
            ∙ gptr-scatter vs bs (called c w) a k h
            ∙ gptr-called c w a k;
        bytes = λ a k le fits.
            load-store_apart ws m a k count_p 4 count e count-fits (ground (arith, other, le, fits))
            ∙ load-scatter_apart vs bs (called c w) a k h (AllApart-within vs p n a k le fits apart)
            ∙ load-called c w a k;
      }

  fd_get-after_read : (fd : ℕ) → fd_get (after_read c vs bs count_p w) fd ≡ fd_get w fd
  fd_get-after_read fd =
      fd_get-store count_p (le_bytes 4 (u32 (length bs))) (scatter vs bs (called c w)) fd
      ∙ fd_get-scatter vs bs (called c w) fd
      ∙ fd_get-called c w fd

  joined-after_read :
      AllApart count_p 4 vs
      → Disjoint vs
      → length bs ≡ room vs
      → joined (gather (after_read c vs bs count_p w) vs) ≡ bs
  joined-after_read apart disjoint full =
      let ws = scatter vs bs (called c w) in
      let (m, e) = scatter-HasMemory vs bs (called c w) h in
      ap joined (gather-store vs ws m count_p 4 (le_bytes 4 (u32 (length bs))) e count-fits apart)
      ∙ gather-scatter vs bs (called c w) h disjoint full

fd_read-after_read :
    (w : Shim) (m : Memory) (fd p n count_p : ℕ) (e : FdEntry) (vs : List Iovec) (bs : Bytes)
    → w.mem ≡ some m
    → fd_get w fd ≡ some e
    → iovs_to_host w p n 64 ≡ some vs
    → w.os.bytes_of w.calls (readv e.host_fd (lengths vs)) ≡ got bs
    → count_p + 4 ≤ m.size
    → fd_read fd p n count_p w ≡ (ok tt, after_read (readv e.host_fd (lengths vs)) vs bs count_p w)
unfolding fd_read put_u32 gwrite_u32
fd_read-after_read w m fd p n count_p e vs bs f g i r fits =
    let c = readv e.host_fd (lengths vs) in
    let ws = scatter vs bs (called c w) in
    let pointer : gptr ws count_p 4 ≡ some count_p =
      gptr-scatter vs bs (called c w) count_p 4 (m, f)
      ∙ gptr-called c w count_p 4
      ∙ gptr-some w m count_p 4 f fits in
    or_fail-some _ w Code.badf (λ w. fd_get w fd) e g
    ∙ or_fail-some _ w Code.fault (λ w. iovs_to_host w p n 64) vs i
    ∙ try-got _ w (λ os. os.bytes_of) c bs r
    ∙ modify-step _ (called c w) (scatter vs bs)
    ∙ rw pointer refl

-- Where both descriptors are open, the buffers, their table and the count lie apart from each
-- other in a memory of at most 2 ^ 32 bytes, and `readv` fills the buffers: `fd_read` returns 0, and
-- `fd_write` with the same table then gives `writev` exactly the bytes that were read, in order.
pub fd_write-fd_read :
    (w : Shim) (m : Memory) (fd_in fd_out p n count_p : ℕ) (e_in e_out : FdEntry) (vs : List Iovec)
    (bs : Bytes)
    → w.mem ≡ some m
    → m.size ≤ 2 ^ 32
    → p + 8 * n ≤ m.size
    → count_p + 4 ≤ m.size
    → fd_get w fd_in ≡ some e_in
    → fd_get w fd_out ≡ some e_out
    → iovs_to_host w p n 64 ≡ some vs
    → Disjoint vs
    → AllApart p (8 * n) vs
    → AllApart count_p 4 vs
    → (count_p + 4 ≤ p) ⊎ (p + 8 * n ≤ count_p)
    → w.os.bytes_of w.calls (readv e_in.host_fd (lengths vs)) ≡ got bs
    → length bs ≡ room vs
    → ((fd_read fd_in p n count_p w).0 ≡ ok tt)
      × (bufs : List Bytes) × (joined bufs ≡ bs)
      × ((fd_write fd_out p n count_p (fd_read fd_in p n count_p w).1).1.calls
          ≡ writev e_out.host_fd bufs ∷ (fd_read fd_in p n count_p w).1.calls)
fd_write-fd_read w m fd_in fd_out p n count_p e_in e_out vs bs f small fits_p fits_count g_in g_out
      i disjoint apart_p apart_count other r full =
    let c = readv e_in.host_fd (lengths vs) in
    let w1 = after_read c vs bs count_p w in
    let first = fd_read-after_read w m fd_in p n count_p e_in vs bs f g_in i r fits_count in
    let same = after_read-SameAt w (m, f) c vs bs count_p p (8 * n) apart_p other in
    let entry = fd_get-after_read w (m, f) c vs bs count_p fd_out ∙ g_out in
    let table = iovs_to_host-SameAt same n (omega (arith, small, fits_p)) (omega arith) ∙ i in
    (
      ap (λ x. x.0) first,
      gather w1 vs,
      joined-after_read w (m, f) c vs bs count_p apart_count disjoint full,
      rw first (calls-fd_write w1 fd_out p n count_p e_out vs entry table),
    )
