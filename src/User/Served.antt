-- ===== src/User/Served.antt =====
-- The system calls of lib/fs.c end up in the operations that the loop of fs/main.c calls for them.
use jix.Base.{
  ℕ, ◌<◌, ◌≡◌, refl, inl, inr, false, some, arith, leb, ◌==◌, Bool-cases, ℤ, pos, negsuc, to_u32,
}
use jix.Kernel.MsgType
use jix.Kernel.State.{Msg}
use jix.Fs.Serve.{FsOps, set_i1, finish, serve}
use jix.User.FsCall
use jix.User.ServedMoves.{via, pipe_lem, read_lem, read_waits, write_lem, write_waits}
use jix.User.FsCall.{call, call_void, nofile}
use jix.User.CallServed.{unless_sleep, state_of, IsServed}

module _ {S : Type 0} (ops : FsOps S) (i : ℕ) where
  -- A message on which `serve` fills in the result `r`.
  answer_lem :
      (m req : Msg) (r : ℤ × S) (s : S)
      → via ops i req s ≡ finish ops (some (set_i1 (record req { source = i }) r))
      → FsCall.call (via ops i) m req s ≡ unless_sleep r
  answer_lem m req (pos n, s') s e = rw e refl
  answer_lem m req (negsuc n, s') s e = elim (Bool-cases (n == 1)) [
    | inl two ↦ rw (e, two) refl
    | inr other ↦ rw (e, other) refl
  ]

  -- The same for a call that returns nothing.
  void_lem :
      (m req : Msg) (r : ℤ × S) (s : S)
      → via ops i req s ≡ finish ops (some (set_i1 (record req { source = i }) r))
      → FsCall.call_void (via ops i) m req s ≡ state_of (unless_sleep r)
  void_lem m req (pos n, s') s e = rw (e, call_void) refl
  void_lem m req (negsuc n, s') s e = elim (Bool-cases (n == 1)) [
    | inl two ↦ rw (e, call_void, two) refl
    | inr other ↦ rw (e, call_void, other) refl
  ]

  module _ (m : Msg) (s : S) where
    open_lem :
        (path : ℕ) (mode : ℤ)
        → FsCall.open_ (via ops i) m path mode s
          ≡ unless_sleep (ops.do_open path mode (ops.set_current i s))
    unfolding FsCall.open_ serve
    open_lem path mode =
        answer_lem m (record m { type = MsgType.open_; p1 = path; i1 = mode })
          (ops.do_open path mode (ops.set_current i s)) s refl

    chdir_lem :
        (path : ℕ)
        → FsCall.chdir (via ops i) m path s ≡ unless_sleep (ops.do_chdir path (ops.set_current i s))
    unfolding FsCall.chdir serve
    chdir_lem path =
        answer_lem m (record m { type = MsgType.chdir; p1 = path })
          (ops.do_chdir path (ops.set_current i s)) s refl

    dup_lem :
        (fd : ℤ)
        → FsCall.dup (via ops i) m fd s ≡ unless_sleep (ops.do_dup fd (ops.set_current i s))
    unfolding FsCall.dup serve
    dup_lem fd =
        answer_lem m (record m { type = MsgType.dup; i1 = fd })
          (ops.do_dup fd (ops.set_current i s)) s refl

    link_lem :
        (n : ℕ) (target : ℕ)
        → FsCall.link (via ops i) m n target s
          ≡ unless_sleep (ops.do_link n target (ops.set_current i s))
    unfolding FsCall.link serve
    link_lem n target =
        answer_lem m (record m { type = MsgType.link; p1 = n; p2 = target })
          (ops.do_link n target (ops.set_current i s)) s refl

    unlink_lem :
        (path : ℕ)
        → FsCall.unlink (via ops i) m path s
          ≡ unless_sleep (ops.do_unlink path (ops.set_current i s))
    unfolding FsCall.unlink serve
    unlink_lem path =
        answer_lem m (record m { type = MsgType.unlink; p1 = path })
          (ops.do_unlink path (ops.set_current i s)) s refl

    mkdir_lem :
        (path : ℕ)
        → FsCall.mkdir (via ops i) m path s ≡ unless_sleep (ops.do_mkdir path (ops.set_current i s))
    unfolding FsCall.mkdir serve
    mkdir_lem path =
        answer_lem m (record m { type = MsgType.mkdir; p1 = path })
          (ops.do_mkdir path (ops.set_current i s)) s refl

    mknod_lem :
        (path : ℕ) (major : ℤ) (minor : ℤ)
        → FsCall.mknod (via ops i) m path major minor s
          ≡ unless_sleep (ops.do_mknod path major minor (ops.set_current i s))
    unfolding FsCall.mknod serve
    mknod_lem path major minor =
        answer_lem m (record m { type = MsgType.mknod; p1 = path; i1 = major; i2 = minor })
          (ops.do_mknod path major minor (ops.set_current i s)) s refl

    fstat_lem :
        (fd : ℤ) (sp : ℕ)
        → FsCall.fstat (via ops i) m fd sp s
          ≡ unless_sleep (ops.do_stat fd sp (ops.set_current i s))
    unfolding FsCall.fstat serve
    fstat_lem fd sp =
        answer_lem m (record m { type = MsgType.stat; i1 = fd; p1 = sp })
          (ops.do_stat fd sp (ops.set_current i s)) s refl

    seek_lem :
        (fd : ℤ) (off : ℕ)
        → FsCall.seek (via ops i) m fd off s
          ≡ unless_sleep (ops.do_seek fd off (ops.set_current i s))
    unfolding FsCall.seek serve
    seek_lem fd off =
        answer_lem m (record m { type = MsgType.seek; i1 = fd; u1 = off })
          (ops.do_seek fd off (ops.set_current i s)) s refl

    gotoxy_lem :
        (x : ℕ) (y : ℕ)
        → FsCall.gotoxy (via ops i) m x y s
          ≡ state_of (unless_sleep (ops.do_gotoxy x y (ops.set_current i s)))
    unfolding FsCall.gotoxy serve
    gotoxy_lem x y =
        void_lem m (record m { type = MsgType.gotoxy; u1 = x; u2 = y })
          (ops.do_gotoxy x y (ops.set_current i s)) s refl

    cls_lem :
        FsCall.cls (via ops i) m s ≡ state_of (unless_sleep (ops.do_cls (ops.set_current i s)))
    unfolding FsCall.cls serve
    cls_lem = void_lem m (record m { type = MsgType.cls }) (ops.do_cls (ops.set_current i s)) s refl

    ttycolor_lem :
        (back : ℤ) (front : ℤ)
        → FsCall.ttycolor (via ops i) m back front s
          ≡ state_of (unless_sleep (ops.do_ttycolor back front (ops.set_current i s)))
    unfolding FsCall.ttycolor serve
    ttycolor_lem back front =
        void_lem m (record m { type = MsgType.ttycolor; i1 = back; i2 = front })
          (ops.do_ttycolor back front (ops.set_current i s)) s refl

    ttymode_lem :
        (mode : ℤ)
        → FsCall.ttymode (via ops i) m mode s
          ≡ state_of (unless_sleep (ops.do_ttymode (to_u32 mode) (ops.set_current i s)))
    unfolding FsCall.ttymode serve
    ttymode_lem mode =
        void_lem m (record m { type = MsgType.ttymode; u1 = to_u32 mode })
          (ops.do_ttymode (to_u32 mode) (ops.set_current i s)) s refl

    close_lem :
        (fd : ℕ)
        → fd < nofile
        → FsCall.close (via ops i) m (pos fd) s
          ≡ state_of (unless_sleep (ops.do_close (pos fd) (ops.set_current i s)))
    unfolding FsCall.close serve
    close_lem fd lt =
        let ok : leb nofile fd ≡ false = ground arith in
        rw ok (
          void_lem m (record m { type = MsgType.close; i1 = pos fd })
            (ops.do_close (pos fd) (ops.set_current i s)) s refl)

    -- Each system call of lib/fs.c, made by process `i` through a message that `task_fs` serves, comes
    -- to the `do_` function of its name, run for process `i` on the arguments of the call: the call
    -- returns its result, or nothing for a call that returns nothing, and `pipe` the two descriptors
    -- too. `read` and `write` do so for 1 to 1024 bytes, with -1 for any other negative result. On the
    -- result -2 `read` and `write` ask again, for any number of bytes, and every other call fails its
    -- assertion. `close` calls for descriptors below 16.
    pub calls-IsServed : IsServed ops i m s
    calls-IsServed = record {
      open_served = open_lem;
      chdir_served = chdir_lem;
      dup_served = dup_lem;
      link_served = link_lem;
      unlink_served = unlink_lem;
      mkdir_served = mkdir_lem;
      mknod_served = mknod_lem;
      fstat_served = fstat_lem;
      seek_served = seek_lem;
      gotoxy_served = gotoxy_lem;
      cls_served = cls_lem;
      ttycolor_served = ttycolor_lem;
      ttymode_served = ttymode_lem;
      close_served = close_lem;
      pipe_served = pipe_lem ops i m s;
      read_served = λ fd at cnt f. read_lem ops i m s fd at cnt f;
      read_asks_again = λ fd at cnt f. read_waits ops i m s fd at cnt f;
      write_served = λ fd at cnt f. write_lem ops i m s fd at cnt f;
      write_asks_again = λ fd at cnt f. write_waits ops i m s fd at cnt f;
    }
