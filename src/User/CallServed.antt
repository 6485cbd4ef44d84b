-- ===== src/User/CallServed.antt =====
-- What it means that the system calls of lib/fs.c are served by the operations of fs/main.c.
use jix.Base.{
  ℕ, suc, ◌+◌, ◌≤◌, ◌<◌, ◌≡◌, false, Option, none, some, ◌==◌, if◌then◌else◌, ℤ, pos, negsuc,
  minus_two, to_u32,
}
use jix.Kernel.State.{Msg}
use jix.Fs.Serve.{FsOps, is_minus_two}
use jix.User.FsCall
use jix.User.FsCall.{nofile}
use jix.User.Transfer.{chunk, piece, read, write}
use jix.User.ServedMoves.{via, pipe_result, moved}

-- What a call gives for the result of an operation: with -2 the answer is of type BESLEEP, on which
-- the `assert` of the call fails.
abbrev pub unless_sleep : {S : Type 0} → ℤ × S → Option (ℤ × S)
unless_sleep (pos n, s) = some (pos n, s)
unless_sleep (negsuc n, s) = if n == 1 then none else some (negsuc n, s)

abbrev pub state_of : {S : Type 0} → Option (ℤ × S) → Option S
state_of none = none
state_of (some (r, s)) = some s

-- What the calls of a program come to, with the message `m` uninitialised and the file system in `s`.
pub record IsServed {S : Type 0} (ops : FsOps S) (i : ℕ) (m : Msg) (s : S) : Type 0 where
  pub open_served :
      (path : ℕ) (mode : ℤ)
      → FsCall.open_ (via ops i) m path mode s
        ≡ unless_sleep (ops.do_open path mode (ops.set_current i s))
  pub chdir_served :
      (path : ℕ)
      → FsCall.chdir (via ops i) m path s ≡ unless_sleep (ops.do_chdir path (ops.set_current i s))
  pub dup_served :
      (fd : ℤ) → FsCall.dup (via ops i) m fd s ≡ unless_sleep (ops.do_dup fd (ops.set_current i s))
  pub link_served :
      (n : ℕ) (target : ℕ)
      → FsCall.link (via ops i) m n target s
        ≡ unless_sleep (ops.do_link n target (ops.set_current i s))
  pub unlink_served :
      (path : ℕ)
      → FsCall.unlink (via ops i) m path s ≡ unless_sleep (ops.do_unlink path (ops.set_current i s))
  pub mkdir_served :
      (path : ℕ)
      → FsCall.mkdir (via ops i) m path s ≡ unless_sleep (ops.do_mkdir path (ops.set_current i s))
  pub mknod_served :
      (path : ℕ) (major : ℤ) (minor : ℤ)
      → FsCall.mknod (via ops i) m path major minor s
        ≡ unless_sleep (ops.do_mknod path major minor (ops.set_current i s))
  pub fstat_served :
      (fd : ℤ) (sp : ℕ)
      → FsCall.fstat (via ops i) m fd sp s ≡ unless_sleep (ops.do_stat fd sp (ops.set_current i s))
  pub seek_served :
      (fd : ℤ) (off : ℕ)
      → FsCall.seek (via ops i) m fd off s ≡ unless_sleep (ops.do_seek fd off (ops.set_current i s))
  pub gotoxy_served :
      (x : ℕ) (y : ℕ)
      → FsCall.gotoxy (via ops i) m x y s
        ≡ state_of (unless_sleep (ops.do_gotoxy x y (ops.set_current i s)))
  pub cls_served :
      FsCall.cls (via ops i) m s ≡ state_of (unless_sleep (ops.do_cls (ops.set_current i s)))
  pub ttycolor_served :
      (back : ℤ) (front : ℤ)
      → FsCall.ttycolor (via ops i) m back front s
        ≡ state_of (unless_sleep (ops.do_ttycolor back front (ops.set_current i s)))
  pub ttymode_served :
      (mode : ℤ)
      → FsCall.ttymode (via ops i) m mode s
        ≡ state_of (unless_sleep (ops.do_ttymode (to_u32 mode) (ops.set_current i s)))
  pub close_served :
      (fd : ℕ)
      → fd < nofile
      → FsCall.close (via ops i) m (pos fd) s
        ≡ state_of (unless_sleep (ops.do_close (pos fd) (ops.set_current i s)))
  pub pipe_served :
      FsCall.pipe (via ops i) m s ≡ pipe_result (ops.do_pipe (m.u1, m.u2) (ops.set_current i s))
  pub read_served :
      (fd : ℤ) (at cnt f : ℕ) (r : ℤ) (s' : S)
      → 0 < cnt
      → cnt ≤ chunk
      → ops.do_read fd (at + 0) (piece cnt 0) (ops.set_current i s) ≡ (r, s')
      → is_minus_two ops r ≡ false
      → read (via ops i) fd cnt (suc (suc f)) at m s ≡ some (moved r, s')
  pub read_asks_again :
      (fd : ℤ) (at cnt f : ℕ) (s' : S)
      → 0 < cnt
      → ops.do_read fd (at + 0) (piece cnt 0) (ops.set_current i s) ≡ (minus_two, s')
      → (m' : Msg) × (read (via ops i) fd cnt (suc f) at m s ≡ read (via ops i) fd cnt f at m' s')
  pub write_served :
      (fd : ℤ) (at cnt f : ℕ) (r : ℤ) (s' : S)
      → 0 < cnt
      → cnt ≤ chunk
      → ops.do_write fd at (piece cnt 0) (ops.set_current i s) ≡ (r, s')
      → is_minus_two ops r ≡ false
      → write (via ops i) fd cnt (suc (suc f)) at m s ≡ some (moved r, s')
  pub write_asks_again :
      (fd : ℤ) (at cnt f : ℕ) (s' : S)
      → 0 < cnt
      → ops.do_write fd at (piece cnt 0) (ops.set_current i s) ≡ (minus_two, s')
      → (m' : Msg) × (write (via ops i) fd cnt (suc f) at m s ≡ write (via ops i) fd cnt f at m' s')
