-- ===== src/Fs/RefsFork.antt =====
-- `do_fsfork` of fs/do_fs.c and the reference counts of the open files.
use jix.Base.{
  ℕ, zero, suc, ◌+◌, ◌≤◌, ◌<◌, ◌≡◌, refl, sym, ap, ◌∙◌, subst, ◌≢◌, inl, inr, Bool, true, false,
  Option, none, some, arith, ◌==◌, Bool-cases, Option-cases, update, update_self, update-ne, pos,
}
use jix.Kernel.State.{Kernel, FilePtr, null, reserved, file, Proc, nproc}
use jix.Fs.File.{InodeOps, Files, File, set_file, filedup}
use jix.Fs.Fd.{nofile, set_ofile, cwd_of, put_cwd}
use jix.Fs.FdProc.{copy_files, do_fsfork}
use jix.Fs.Refs.{points, IsCounted, refs-open, refs-same}
use jix.Fs.RefsKept.{counted-set, one_more}

abbrev pub is_mark : FilePtr → Bool
is_mark null = false
is_mark reserved = true
is_mark (file f) = false

module _ {I : Type 0} (op np : ℕ) where
  -- The descriptors of a process.
  abbrev pub fds : Files I → ℕ → ℕ → FilePtr
  fds s i = (s.kernel.ptable i).ofile

  -- The loop of `do_fsfork` with the descriptors below `fd` behind it; the directory of the parent and
  -- the inodes are as at its start.
  pub record Copying (dir : Option ℕ) (inodes : I) (fd : ℕ) (s : Files I) : Type 0 where
    pub same_dir : cwd_of s op ≡ dir
    pub same_inodes : s.inodes ≡ inodes
    pub counted : IsCounted s
    pub unmarked : (x : ℕ) → x < nofile → is_mark (fds s op x) ≡ false
    pub copied : (x : ℕ) → x < fd → fds s np x ≡ fds s op x
    pub free : (x : ℕ) → fd ≤ x → x < nofile → fds s np x ≡ null

  module _ (here : op < nproc) (there : np < nproc) (apart : np ≢ op) (dir : Option ℕ)
      (inodes : I) where
    -- A round that stores `p`, which `op` has too, and counts it.
    stored : (files : ℕ → File) → ℕ → FilePtr → Files I → Files I
    stored files fd p s = record s { files = files; kernel = set_ofile np fd p s.kernel }

    Copying-step :
        (files : ℕ → File) (fd : ℕ) (p : FilePtr) (s : Files I)
        → fd < nofile
        → fds s op fd ≡ p
        → ((g : ℕ) → (files g).ref + 0 ≡ (s.files g).ref + points g p)
        → Copying dir inodes fd s
        → Copying dir inodes (fd + 1) (stored files fd p s)
    unfolding stored
    Copying-step files fd p s lt at change h =
        let t = s.kernel.ptable in
        let q : Proc = record (t np) { ofile = update (t np).ofile fd p } in
        let count : ℕ → ℕ = λ g. (s.files g).ref in
        let count' : ℕ → ℕ = λ g. (files g).ref in
        let mine : update t np q np ≡ q = update_self t np q in
        let same : update t np q op ≡ t op = update-ne t np op q apart in
        let mine_at : (x : ℕ) → (update t np q np).ofile x ≡ update (t np).ofile fd p x =
          λ x. ap (λ (r : Proc). r.ofile x) mine in
        let op_at : (x : ℕ) → (update t np q op).ofile x ≡ (t op).ofile x =
          λ x. ap (λ (r : Proc). r.ofile x) same in
        record {
          same_dir = ap (λ (r : Proc). r.cwd) same ∙ h.same_dir;
          same_inodes = h.same_inodes;
          counted =
              counted-set count count' t np fd null p q there lt (h.free fd (omega arith) lt) refl
                change h.counted;
          unmarked = λ x l. ap is_mark (op_at x) ∙ h.unmarked x l;
          copied = λ x l. elim (Bool-cases (fd == x)) [
            | inl e ↦
                let e' : fd ≡ x = ground arith in
                mine_at x
                ∙ subst (λ y. update (t np).ofile fd p y ≡ p) e' (update_self (t np).ofile fd p)
                ∙ sym at
                ∙ ap (t op).ofile e'
                ∙ sym (op_at x)
            | inr ne ↦
                mine_at x
                ∙ update-ne (t np).ofile fd x p (ground arith)
                ∙ h.copied x (ground arith)
                ∙ sym (op_at x)
          ];
          free = λ x l r.
              mine_at x ∙ update-ne (t np).ofile fd x p (omega arith) ∙ h.free x (omega arith) r;
        }

    filedup-open :
        (fd f : ℕ) (s : Files I)
        → fd < nofile
        → fds s op fd ≡ file f
        → IsCounted s
        → filedup f s ≡ some (set_file f (record (s.files f) { ref = (s.files f).ref + 1 }) s)
    unfolding filedup
    filedup-open fd f s lt at counted =
        let some_refs = refs-open f op fd s.kernel.ptable here lt at in
        let held : ((s.files f).ref == 0) ≡ false = go _ _ (counted f) some_refs in
        rw (held, filedup) refl
      where
        go : (a b : ℕ) → a ≡ b → 0 < b → (a == 0) ≡ false
        go a b e lt = ground arith

    pub copy_files-Copying :
        (n fd : ℕ) (s : Files I)
        → fd + n ≡ nofile
        → Copying dir inodes fd s
        → (s' : Files I) × (copy_files op np n fd s ≡ some s') × Copying dir inodes nofile s'
    unfolding copy_files stored
    copy_files-Copying zero fd s e h =
        let at_end : fd ≡ nofile = omega arith in
        (s, refl, subst (λ x. Copying dir inodes x s) at_end h)
    copy_files-Copying (suc n) fd s e h =
        go (fds s op fd) refl (λ r c. copy_files-Copying n (fd + 1) r (omega arith) c)
      where
        lt : fd < nofile
        lt = omega arith

        go :
            (p : FilePtr)
            → fds s op fd ≡ p
            → ((r : Files I)
                → Copying dir inodes (fd + 1) r
                → (s' : Files I) × (copy_files op np n (fd + 1) r ≡ some s')
                  × Copying dir inodes nofile s')
            → (s' : Files I) × (copy_files op np (suc n) fd s ≡ some s')
              × Copying dir inodes nofile s'
        go null at later =
            let step = Copying-step s.files fd null s lt at (λ g. refl) h in
            let (s', eq, all) = later (stored s.files fd null s) step in
            (s', rw (at, copy_files) eq, all)
        go reserved at later =
            let bad : is_mark reserved ≡ false = rw at at (h.unmarked fd lt) in cc
        go (file f) at later =
            let files' = update s.files f (record (s.files f) { ref = (s.files f).ref + 1 }) in
            let step = Copying-step files' fd (file f) s lt at (one_more s.files f) h in
            let (s', eq, all) = later (stored files' fd (file f) s) step in
            (s', rw (at, filedup-open fd f s lt at h.counted, copy_files) eq, all)

    -- Storing a working directory leaves the descriptors alone.
    put_cwd-Copying :
        (c : Option ℕ) (s s1 : Files I)
        → Copying dir inodes nofile s
        → s1.files ≡ s.files
        → s1.kernel ≡ s.kernel
        → IsCounted (put_cwd np c s1)
          × ((x : ℕ) → x < nofile → fds (put_cwd np c s1) np x ≡ fds (put_cwd np c s1) op x)
    put_cwd-Copying c s s1 h files kernel =
        let t = s1.kernel.ptable in
        let same : (i : ℕ)
            → (update t np (record (t np) { cwd = c }) i).ofile ≡ (s.kernel.ptable i).ofile =
          λ i. keeps t np c i ∙ ap (λ (k : Kernel). (k.ptable i).ofile) kernel in
        (
          λ g.
              ap (λ (fs : ℕ → File). (fs g).ref) files
              ∙ h.counted g
              ∙ refs-same g s.kernel.ptable _ (λ i. sym (same i)),
          λ x l.
              ap (λ (o : ℕ → FilePtr). o x) (same np)
              ∙ h.copied x l
              ∙ sym (ap (λ (o : ℕ → FilePtr). o x) (same op)),
        )
      where
        keeps :
            (t : ℕ → Proc) (n : ℕ) (c : Option ℕ) (i : ℕ)
            → (update t n (record (t n) { cwd = c }) i).ofile ≡ (t i).ofile
        keeps t n c i = ground arith

  -- `do_fsfork` for two processes of the table, where each open file counts its references, the
  -- parent's descriptors are open or free and the child's are free: it returns 0, the child has the
  -- descriptors of the parent, and the counts are right again. This holds where `idup` of the parent's
  -- directory, if it has one, does not fail.
  pub do_fsfork-IsCounted :
      (ops : InodeOps I) (s : Files I)
      → op < nproc
      → np < nproc
      → np ≢ op
      → IsCounted s
      → ((x : ℕ) → x < nofile → is_mark (fds s op x) ≡ false)
      → ((x : ℕ) → x < nofile → fds s np x ≡ null)
      → ((ip : ℕ) → cwd_of s op ≡ some ip → ops.idup ip s.inodes ≢ none)
      → (s' : Files I) × (do_fsfork ops op np s ≡ some (pos 0, s'))
        × IsCounted s'
        × ((x : ℕ) → x < nofile → fds s' np x ≡ fds s' op x)
  unfolding do_fsfork
  do_fsfork-IsCounted ops s here there apart counted unmarked free keeps =
      let dir = cwd_of s op in
      let start : Copying dir s.inodes 0 s = record {
        same_dir = refl;
        same_inodes = refl;
        counted = counted;
        unmarked = unmarked;
        copied = λ x l. absurd (omega arith);
        free = λ x l r. free x r;
      } in
      let (s1, e, h) =
        copy_files-Copying here there apart dir s.inodes nofile 0 s (omega arith) start in
      elim (Option-cases (cwd_of s1 op)) [
        | inl c ↦
            let (a, b) = put_cwd-Copying here there apart dir s.inodes none s1 s1 h refl refl in
            (put_cwd np none s1, rw (e, c, do_fsfork) refl, a, b)
        | inr (ip, c) ↦ elim (Option-cases (ops.idup ip s1.inodes)) [
          | inl bad ↦
              absurd (keeps ip (sym h.same_dir ∙ c) (ap (ops.idup ip) (sym h.same_inodes) ∙ bad))
          | inr (i, d) ↦
              let s2 = record s1 { inodes = i } in
              let (a, b) =
                put_cwd-Copying here there apart dir s.inodes (some ip) s1 s2 h refl refl in
              (put_cwd np (some ip) s2, rw (e, c, d, do_fsfork) refl, a, b)
        ]
      ]
