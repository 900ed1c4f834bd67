-- ===== src/Wasi/Requests/Stable.antt =====
-- A predicate that neutral calls of the operating system, writes to guest memory and the exit
-- status leave alone is kept by every import of native/shim/wasi_shim.c that moves no descriptor.
use mathlib.Core.Option
use pglite_ios.Common.{
  ℕ, zero, suc, Option, Option-cases, none, some, inl, inr, List, [], ◌∷◌, Bytes, drop, take, ◌+◌,
  u32, le_bytes, true, length,
}
use pglite_ios.Wasi.Host.{Call, Os, History, Sys}
use pglite_ios.Wasi.State.{Shim, ask, modify, err, written, gptr, tell_os, put_u32, put_u64, store}
use pglite_ios.Wasi.Keeps.{
  Keeps, Keeps-pure, Keeps-fail, Keeps-skip, Keeps-if, Keeps-bind, Keeps-or_fail, keeps_rules,
}
use pglite_ios.Wasi.Iovec.{Iovec, scatter}
use pglite_ios.Wasi.Args.{strings_get, args_sizes_get, args_get, environ_sizes_get, environ_get}
use pglite_ios.Wasi.Clocks.{clock_time_get, random_get, yield_processor, proc_exit}
use pglite_ios.Wasi.Files.{
  fd_read, fd_write, fd_pread, fd_pwrite, fd_seek, fd_tell, fd_sync, fd_datasync, fd_advise,
  fd_allocate, fd_fdstat_get, fd_filestat_set_size,
}
use pglite_ios.Wasi.Stats.{fd_filestat_get, fd_prestat_get, fd_prestat_dir_name}
use pglite_ios.Wasi.Paths.{
  path_filestat_get, path_create_directory, path_remove_directory, path_unlink_file, path_rename,
  path_symlink, path_readlink, put_link,
}
use pglite_ios.Wasi.Poll.{
  Polled, relative_ns, emit_ready, poll_subscription, poll_loop, poll_clock, poll_oneoff,
}
use pglite_ios.Wasi.Ledger.{Neutral}
use pglite_ios.Wasi.Requests.{Request, handle}

pub record IsNeutral (P : Shim → Type 0) : Type 0 where
  pub call : (c : Call) → Neutral c → (w : Shim) → P w → P (record w { calls = c ∷ w.calls })
  pub memory : (p : ℕ) (bs : Bytes) (w : Shim) → P w → P (store p bs w)
  pub exit : (code : ℕ) (w : Shim) → P w → P (record w { exit_code = code; exited = true })

module _ {P : Shim → Type 0} (s : IsNeutral P) where
  pub Keeps-ask :
      {A : Type 0} (f : Os → History → Call → Sys A) (c : Call) → Neutral c → Keeps P (ask f c)
  unfolding ask
  Keeps-ask f c n = record { at = s.call c n }

  pub Keeps-tell_os : (c : Call) → Neutral c → Keeps P (tell_os c)
  unfolding tell_os
  Keeps-tell_os c n = record { at = s.call c n }

  pub Keeps-put : (p : ℕ) (bs : Bytes) → Keeps P (modify (store p bs))
  unfolding modify
  Keeps-put p bs = record { at = s.memory p bs }

  written_at :
      (o : Option ℕ) (bs : Bytes) (e : ℕ) (w : Shim)
      → P w
      → P (written (Option.map (λ p. store p bs w) o) (err e, w)).1
  written_at none bs e w h = h
  written_at (some p) bs e w h = s.memory p bs w h

  pub Keeps-put_u32 : (p x : ℕ) → Keeps P (put_u32 p x)
  unfolding put_u32
  Keeps-put_u32 p x = record { at = λ w h. written_at (gptr w p 4) (le_bytes 4 x) _ w h }

  pub Keeps-put_u64 : (p x : ℕ) → Keeps P (put_u64 p x)
  unfolding put_u64
  Keeps-put_u64 p x = record { at = λ w h. written_at (gptr w p 8) (le_bytes 8 x) _ w h }

  scatter_at : (iovs : List Iovec) (bs : Bytes) (w : Shim) → P w → P (scatter iovs bs w)
  unfolding scatter
  scatter_at [] bs w h = h
  scatter_at (i ∷ is) bs w h = elim (Option-cases i.base) [
    | inl e ↦ rw e (scatter_at is (drop i.len bs) w h)
    | inr (p, e) ↦
        rw e (
          scatter_at is (drop i.len bs) (store p (take i.len bs) w)
            (s.memory p (take i.len bs) w h))
  ]

  pub Keeps-scatter : (iovs : List Iovec) (bs : Bytes) → Keeps P (modify (scatter iovs bs))
  unfolding modify
  Keeps-scatter iovs bs = record { at = scatter_at iovs bs }

pub ruleset neutral_rules = (
  keeps_rules, tt, Keeps-ask, Keeps-tell_os, Keeps-put, Keeps-put_u32, Keeps-put_u64, Keeps-scatter,
)

module _ {P : Shim → Type 0} (s : IsNeutral P) where
  strings_get-Keeps : (table i off : ℕ) (ss : List Bytes) → Keeps P (strings_get table i off ss)
  unfolding strings_get
  strings_get-Keeps table i off [] = search neutral_rules
  strings_get-Keeps table i off (x ∷ ss) =
      let rest = strings_get-Keeps table (i + 1) (u32 (off + u32 (length x + 1))) ss in
      Keeps-bind (Keeps-or_fail _ _)
        (λ dst. Keeps-bind (Keeps-put_u32 s _ _) (λ _. Keeps-bind (Keeps-put s _ _) (λ _. rest)))

  put_link-Keeps : (dst : Option ℕ) (bs : Bytes) → Keeps P (put_link dst bs)
  put_link-Keeps none bs = Keeps-skip
  put_link-Keeps (some p) bs = Keeps-put s p bs

  relative_ns-Keeps : (clock_id timeout flags : ℕ) → Keeps P (relative_ns clock_id timeout flags)
  unfolding relative_ns
  relative_ns-Keeps clock_id timeout flags = search neutral_rules depth 20

  emit_ready-Keeps :
      (out_p userdata tag : ℕ) (a : Polled) → Keeps P (emit_ready out_p userdata tag a)
  unfolding emit_ready
  emit_ready-Keeps out_p userdata tag a = search neutral_rules depth 20

  poll_subscription-Keeps : (out_p sub : ℕ) (a : Polled) → Keeps P (poll_subscription out_p sub a)
  unfolding poll_subscription
  poll_subscription-Keeps out_p sub a =
      search (neutral_rules, relative_ns-Keeps, emit_ready-Keeps) depth 20

  poll_loop-Keeps : (in_p out_p n i : ℕ) (a : Polled) → Keeps P (poll_loop in_p out_p n i a)
  unfolding poll_loop
  poll_loop-Keeps in_p out_p zero i a = Keeps-pure a
  poll_loop-Keeps in_p out_p (suc n) i a =
      Keeps-bind (poll_subscription-Keeps out_p _ a) λ a'. poll_loop-Keeps in_p out_p n (i + 1) a'

  poll_clock-Keeps : (out_p : ℕ) (a : Polled) → Keeps P (poll_clock out_p a)
  unfolding poll_clock
  poll_clock-Keeps out_p a = search neutral_rules depth 20

  proc_exit-Keeps : (code : ℕ) → Keeps P (proc_exit code)
  unfolding proc_exit
  proc_exit-Keeps code = record { at = λ w h. s.exit code w h }

ruleset handler_rules = (
  neutral_rules, strings_get-Keeps, put_link-Keeps, poll_loop-Keeps, poll_clock-Keeps,
  proc_exit-Keeps,
)

-- The requests that change the table, open or close a descriptor.
abbrev pub MovesDescriptors : Request → Type 0
MovesDescriptors (Request.fd_close fd) = Unit {0}
MovesDescriptors (Request.fd_renumber from to) = Unit {0}
MovesDescriptors (Request.fd_fdstat_set_flags fd flags) = Unit {0}
MovesDescriptors (Request.path_open a b c d e f g h i) = Unit {0}
MovesDescriptors (Request.fd_readdir fd buf_p buf_len cookie used_p) = Unit {0}
MovesDescriptors _ = ⊥

pub handle-Keeps :
    {P : Shim → Type 0} → IsNeutral P → (r : Request) → ¬ MovesDescriptors r → Keeps P (handle r)
unfolding handle args_sizes_get args_get environ_sizes_get environ_get clock_time_get random_get
    yield_processor fd_read fd_write fd_pread fd_pwrite fd_seek fd_tell fd_sync fd_datasync
    fd_advise fd_allocate fd_fdstat_get fd_filestat_get fd_filestat_set_size fd_prestat_get
    fd_prestat_dir_name path_filestat_get path_create_directory path_remove_directory
    path_unlink_file path_rename path_symlink path_readlink poll_oneoff
handle-Keeps s Request.sched_yield still = Keeps-tell_os s _ tt
handle-Keeps s (Request.fd_close fd) still = absurd (still tt)
handle-Keeps s (Request.fd_renumber from to) still = absurd (still tt)
handle-Keeps s (Request.fd_fdstat_set_flags fd flags) still = absurd (still tt)
handle-Keeps s (Request.path_open a b c d e f g h i) still = absurd (still tt)
handle-Keeps s (Request.fd_readdir a b c d e) still = absurd (still tt)
handle-Keeps s _ still = search handler_rules depth 20
