-- ===== src/Fs/RefsKept.antt =====
-- The calls of fs/do_fs.c keep the reference counts of the open files right.
use jix.Base.{
  ℕ, ◌+◌, ◌<◌, ◌≡◌, refl, ap, ◌∙◌, subst, ◌≢◌, ◌⊎◌, inl, inr, true, false, Option, none, some,
  arith, ◌==◌, find_from, update, update_self, update-ne, find_from-some, pos, minus_one,
}
use jix.Kernel.State.{FilePtr, null, reserved, file, Proc, nproc}
use jix.Fs.File.{Files, File, set_file, filedup}
use jix.Fs.Fd.{nofile, put_ofile, is_null, ofile_of, fdalloc, do_dup, dup_to}
use jix.Fs.Refs.{refs, points, IsCounted, refs-set, refs-open}

-- A descriptor of process `i` is changed from `old` to `p`, and the counts with it.
pub counted-set :
    (count count' : ℕ → ℕ) (t : ℕ → Proc) (i fd : ℕ) (old p : FilePtr) (q : Proc)
    → i < nproc
    → fd < nofile
    → (t i).ofile fd ≡ old
    → q.ofile ≡ update (t i).ofile fd p
    → ((f : ℕ) → count' f + points f old ≡ count f + points f p)
    → ((f : ℕ) → count f ≡ refs f t)
    → (f : ℕ) → count' f ≡ refs f (update t i q)
counted-set count count' t i fd old p q li lf was now change counted f =
    let e = refs-set f i fd p q t li lf now in
    let e' : points f ((t i).ofile fd) ≡ points f old = ap (points f) was in
    let a : refs f (update t i q) + points f old ≡ refs f t + points f p = rw e' at e in
    go _ _ _ _ _ _ a (change f) (counted f)
  where
    go : (r' o r p x x' : ℕ) → r' + o ≡ r + p → x' + o ≡ x + p → x ≡ r → x' ≡ r'
    go r' o r p x x' a b c = omega arith

is_null-lem : (p : FilePtr) → is_null p ≡ true → p ≡ null
is_null-lem null e = refl
is_null-lem reserved e = cc
is_null-lem (file f) e = cc

-- Another reference to `f`, in place of a mark.
pub one_more :
    (files : ℕ → File) (f g : ℕ)
    → (update files f (record (files f) { ref = (files f).ref + 1 }) g).ref + 0
      ≡ (files g).ref + points g (file f)
one_more files f g = ground arith

-- One reference less to `f`.
pub one_less :
    (files : ℕ → File) (x : File) (f g : ℕ)
    → x.ref + 1 ≡ (files f).ref
    → (update files f x g).ref + points g (file f) ≡ (files g).ref + 0
one_less files x f g e = ground arith

dup_to-open :
    {I : Type 0} (fd nfd f : ℕ) (s s' : Files I)
    → ofile_of s fd ≡ file f
    → filedup f s ≡ some s'
    → dup_to fd (some nfd, s) ≡ some (pos nfd, put_ofile nfd (ofile_of s' fd) s')
dup_to-open fd nfd f s s' at ok = rw (at, dup_to, ok) refl

module _ {I : Type 0} (s : Files I) (here : s.fs_current < nproc) (counted : IsCounted s) where
  abbrev my : Proc
  my = s.kernel.ptable s.fs_current

  pub open-ref : (fd f : ℕ) → fd < nofile → ofile_of s fd ≡ file f → ((s.files f).ref == 0) ≡ false
  open-ref fd f lt e =
      let pos_refs = refs-open f s.fs_current fd s.kernel.ptable here lt e in
      go _ _ (counted f) pos_refs
    where
      go : (a b : ℕ) → a ≡ b → 0 < b → (a == 0) ≡ false
      go a b e lt = ground arith

  module _ (nfd : ℕ) (lt : nfd < nofile) (free : is_null (ofile_of s nfd) ≡ true) where
    -- `fdalloc` marks a free descriptor, which is no reference.
    fdalloc-IsCounted : IsCounted (put_ofile nfd reserved s)
    fdalloc-IsCounted =
        let count : ℕ → ℕ = λ f. (s.files f).ref in
        counted-set count count s.kernel.ptable s.fs_current nfd null reserved _ here lt
          (is_null-lem (ofile_of s nfd) free) refl (λ f. refl) counted

    marked : (fd f : ℕ) → ofile_of s fd ≡ file f → ofile_of (put_ofile nfd reserved s) fd ≡ file f
    marked fd f e =
        let q : Proc = record my { ofile = update my.ofile nfd reserved } in
        let ne : nfd ≢ fd = λ h.
          let bad : is_null (ofile_of s fd) ≡ true =
            subst (λ x. is_null (ofile_of s x) ≡ true) h free in
          (let bad' : is_null (file f) ≡ true = rw e at bad in cc) in
        ap (λ (p : Proc). p.ofile fd) (update_self s.kernel.ptable s.fs_current q)
        ∙ update-ne my.ofile nfd fd reserved ne
        ∙ e

    abbrev dupped : ℕ → Files I
    dupped f =
        let s1 = put_ofile nfd reserved s in
        put_ofile nfd (file f) (set_file f (record (s.files f) { ref = (s.files f).ref + 1 }) s1)

    dupped-IsCounted : (f : ℕ) → IsCounted (dupped f)
    dupped-IsCounted f =
        let s1 = put_ofile nfd reserved s in
        let p1 = s1.kernel.ptable s.fs_current in
        let q : Proc = record my { ofile = update my.ofile nfd reserved } in
        let count : ℕ → ℕ = λ g. (s.files g).ref in
        let count' : ℕ → ℕ =
          λ g. (update s.files f (record (s.files f) { ref = (s.files f).ref + 1 }) g).ref in
        let mark : p1.ofile nfd ≡ reserved =
          ap (λ (p : Proc). p.ofile nfd) (update_self s.kernel.ptable s.fs_current q)
          ∙ update_self my.ofile nfd reserved in
        counted-set count count' s1.kernel.ptable s.fs_current nfd reserved (file f) _ here lt mark
          refl (one_more s.files f) fdalloc-IsCounted

    dupped-open : (f : ℕ) → ofile_of (dupped f) nfd ≡ file f
    dupped-open f =
        let s1 = put_ofile nfd reserved s in
        let p1 = s1.kernel.ptable s.fs_current in
        let q : Proc = record p1 { ofile = update p1.ofile nfd (file f) } in
        ap (λ (p : Proc). p.ofile nfd) (update_self s1.kernel.ptable s.fs_current q)
        ∙ update_self p1.ofile nfd (file f)

    fdalloc-some :
        find_from (λ x. is_null (ofile_of s x)) nofile 0 ≡ some nfd
        → fdalloc s ≡ (some nfd, put_ofile nfd reserved s)
    unfolding fdalloc
    fdalloc-some found = rw (found, fdalloc) refl

    filedup-some :
        (fd f : ℕ)
        → fd < nofile
        → ofile_of s fd ≡ file f
        → filedup f (put_ofile nfd reserved s)
          ≡ some (
              set_file f
                (record (s.files f) { ref = (s.files f).ref + 1 })
                (put_ofile nfd reserved s))
    unfolding filedup
    filedup-some fd f lo open_fd = rw (open-ref fd f lo open_fd, filedup) refl

    do_dup-some :
        (fd f : ℕ)
        → find_from (λ x. is_null (ofile_of s x)) nofile 0 ≡ some nfd
        → fd < nofile
        → ofile_of s fd ≡ file f
        → do_dup fd s ≡ some (pos nfd, dupped f)
    unfolding do_dup
    do_dup-some fd f found lo open_fd =
        let s2 =
          set_file f (record (s.files f) { ref = (s.files f).ref + 1 })
            (put_ofile nfd reserved s) in
        let still = marked fd f open_fd in
        ap (dup_to fd) (fdalloc-some found)
        ∙ dup_to-open fd nfd f (put_ofile nfd reserved s) s2 still (filedup-some fd f lo open_fd)
        ∙ ap (λ p. some (pos nfd, put_ofile nfd p s2)) still

fdalloc-none :
    {I : Type 0} (s : Files I)
    → find_from (λ x. is_null (ofile_of s x)) nofile 0 ≡ none
    → fdalloc s ≡ (none, s)
unfolding fdalloc
fdalloc-none s full = rw (full, fdalloc) refl

-- `do_dup` of an open descriptor, where each open file counts its references: it returns -1 and
-- changes nothing, or returns a descriptor that was free and now holds the same file, and the counts
-- are right again; it fails no assertion.
pub do_dup-IsCounted :
    {I : Type 0} (s : Files I) (fd f : ℕ)
    → s.fs_current < nproc
    → IsCounted s
    → fd < nofile
    → ofile_of s fd ≡ file f
    → (do_dup fd s ≡ some (minus_one, s))
      ⊎ ((nfd : ℕ) × (s' : Files I) × (do_dup fd s ≡ some (pos nfd, s'))
          × (is_null (ofile_of s nfd) ≡ true)
          × (ofile_of s' nfd ≡ file f)
          × IsCounted s')
unfolding do_dup
do_dup-IsCounted {I} s fd f here counted lt at =
    go (find_from (λ x. is_null (ofile_of s x)) nofile 0) refl
  where
    go :
        (r : Option ℕ)
        → find_from (λ x. is_null (ofile_of s x)) nofile 0 ≡ r
        → (do_dup fd s ≡ some (minus_one, s))
          ⊎ ((nfd : ℕ) × (s' : Files I) × (do_dup fd s ≡ some (pos nfd, s'))
              × (is_null (ofile_of s nfd) ≡ true)
              × (ofile_of s' nfd ≡ file f)
              × IsCounted s')
    go none e = inl (ap (dup_to fd) (fdalloc-none s e))
    go (some nfd) e =
        let (lo, hi, free, before) = find_from-some (λ x. is_null (ofile_of s x)) nofile 0 nfd e in
        let in_range : nfd < nofile = omega arith in
        inr (
          nfd,
          dupped s here counted nfd in_range free f,
          do_dup-some s here counted nfd in_range free fd f e lt at,
          free,
          dupped-open s here counted nfd in_range free f,
          dupped-IsCounted s here counted nfd in_range free f,
        )
