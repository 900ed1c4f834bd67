-- ===== src/Wasi/Ledger/Listing.antt =====
-- `fd_readdir` of native/shim/wasi_shim.c keeps the books on descriptors right.
use pglite_ios.Common.{ℕ, ◌+◌, ◌≡◌, ◌<◌, refl, inl, inr, arith, Option-cases, pos}
use pglite_ios.Wasi.Host.{Call, dup, fdopendir, closedir, close, got}
use pglite_ios.Wasi.State.{Shim, store, max_fds}
use pglite_ios.Wasi.State.Steps.{called, Sys-cases}
use pglite_ios.Wasi.FdTable.{fd_get}
use pglite_ios.Wasi.Readdir.{fd_readdir}
use pglite_ios.Wasi.Readdir.Steps.{fd_readdir-no_entry, fd_readdir-no_dup, fd_readdir-no_dir}
use pglite_ios.Wasi.Readdir.Releases.{Shuts, fd_readdir-shuts}
use pglite_ios.Wasi.Ledger.{
  Neutral, Opens, one_if, gives, opened, released, opened_got, opened-Neutral, released_open,
  released-Neutral,
}
use pglite_ios.Wasi.Ledger.Sound.{held, EntryFits, Sound}
use pglite_ios.Wasi.Ledger.Opens.{Sound-failed}

-- The books while the descriptor `d` is open besides.
pub record Pending (d : ℕ) (w : Shim) : Type 0 where
  pub balance :
      (fd : ℕ) → opened w.os fd w.calls ≡ released fd w.calls + held w fd + gives (got d) fd
  pub entries : (i : ℕ) → i < max_fds → EntryFits w (w.fds i)

pub after_open :
    (w : Shim) (d : ℕ) (x : Call)
    → Opens x
    → w.os.fd_of w.calls x ≡ got d
    → Sound w
    → Pending d (called x w)
after_open w d x o g s = record {
  balance = λ fd.
      omega (arith, opened_got w.os fd d x w.calls o g, released_open fd x w.calls o, s.balance fd);
  entries = s.entries;
}

pub after-Neutral : (w : Shim) (d : ℕ) (c : Call) → Neutral c → Pending d w → Pending d (called c w)
after-Neutral w d c n p = record {
  balance = λ fd.
      omega
        (arith, opened-Neutral w.os fd c w.calls n, released-Neutral fd c w.calls n, p.balance fd);
  entries = p.entries;
}

gives-one_if : (d fd : ℕ) → gives (got d) fd ≡ one_if (pos d) (pos fd)
gives-one_if d fd = refl

closed_dir : (d : ℕ) (w : Shim) → Pending d w → Sound (called (closedir (pos d)) w)
unfolding opened released
closed_dir d w p = record { balance = λ fd. omega (arith, p.balance fd); entries = p.entries }

pub closed : (d : ℕ) (w : Shim) → Pending d w → Sound (called (close (pos d)) w)
unfolding opened released
closed d w p = record { balance = λ fd. omega (arith, p.balance fd); entries = p.entries }

Pending-Shuts : (d : ℕ) → Shuts (pos d) (Pending d) Sound
unfolding store
Pending-Shuts d = record {
  memory = λ p bs w h. record { balance = h.balance; entries = h.entries };
  memory_after = λ p bs w h. record { balance = h.balance; entries = h.entries };
  close = closed_dir d;
}

pub fd_readdir-Sound :
    (w : Shim) (fd buf_p buf_len cookie used_p : ℕ)
    → Sound w
    → Sound (fd_readdir fd buf_p buf_len cookie used_p w).1
fd_readdir-Sound w fd buf_p buf_len cookie used_p s = elim (Option-cases (fd_get w fd)) [
  | inl f ↦ rw (fd_readdir-no_entry w fd buf_p buf_len cookie used_p f) s
  | inr (e, f) ↦ elim (Sys-cases (w.os.fd_of w.calls (dup e.host_fd))) [
    | inr (x, g) ↦
        rw (fd_readdir-no_dup w fd buf_p buf_len cookie used_p f g)
          (Sound-failed w (dup e.host_fd) x tt g s)
    | inl (d, g) ↦
        let w1 = called (dup e.host_fd) w in
        let p = after-Neutral w1 d (fdopendir (pos d)) tt (after_open w d (dup e.host_fd) tt g s) in
        elim (Sys-cases (w1.os.entries_of w1.calls (fdopendir (pos d)))) [
          | inr (x, h) ↦
              rw (fd_readdir-no_dir w fd buf_p buf_len cookie used_p d f g h)
                (closed d (called (fdopendir (pos d)) w1) p)
          | inl (des, h) ↦
              fd_readdir-shuts (Pending-Shuts d) w fd buf_p buf_len cookie used_p f g h p
        ]
  ]
]
