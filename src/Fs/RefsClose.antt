-- ===== src/Fs/RefsClose.antt =====
-- `do_close` of fs/do_fs.c and the reference counts of the open files.
use jix.Base.{
  ℕ, ◌+◌, ◌-◌, ◌<◌, ◌≡◌, refl, sym, ap, ◌∙◌, ◌≢◌, inl, inr, Bool, true, false, not, ◌&&◌, Option,
  none, some, arith, ltb, leb, ◌==◌, if◌then◌else◌, Bool-cases, Option-cases, update,
  map_range-inside, map_range-outside, pos,
}
use jix.Mm.Pages.{kfree}
use jix.Kernel.State.{Kernel, FilePtr, null, file, Proc, nproc}
use jix.Kernel.Proc.{wake_one, wake_up}
use jix.Fs.Pipe.{Pipe, pipeclose, read_chan, write_chan}
use jix.Fs.File.{
  InodeOps, Files, File, FileType, fd_none, fd_pipe, fd_inode, set_file, fileclose, close_last,
  set_closed,
}
use jix.Fs.Fd.{nofile, put_ofile, ofile_of, open_file, do_close}
use jix.Fs.Refs.{refs, points, IsCounted, refs-same}
use jix.Fs.RefsKept.{counted-set, open-ref, one_less}

ofile-wake_one : (c : ℕ) (p : Proc) → (wake_one c p).ofile ≡ p.ofile
ofile-wake_one c p = ground arith

-- Waking processes leaves their descriptors alone.
ofile-wake_up : (c : ℕ) (k : Kernel) (i : ℕ) → ((wake_up c k).ptable i).ofile ≡ (k.ptable i).ofile
unfolding wake_up
ofile-wake_up c k i = elim (Bool-cases (ltb i nproc)) [
  | inl inside ↦
      ap (λ (p : Proc). p.ofile)
        (map_range-inside (wake_one c) nproc 0 k.ptable i (omega arith) (ground arith))
      ∙ ofile-wake_one c (k.ptable i)
  | inr outside ↦
      ap (λ (p : Proc). p.ofile)
        (map_range-outside (wake_one c) nproc 0 k.ptable i (inr (ground arith)))
]

-- Every process keeps its descriptors.
abbrev SameFiles : Kernel → Kernel → Type 0
SameFiles k k' = (i : ℕ) → (k'.ptable i).ofile ≡ (k.ptable i).ofile

abbrev Keeps : Kernel → Option (Pipe × Kernel) → Type 0
Keeps k none = Unit {0}
Keeps k (some (p, k')) = SameFiles k k'

pipeclose-Keeps : (a : ℕ) (w : Bool) (p : Pipe) (k : Kernel) → Keeps k (pipeclose a w p k)
unfolding pipeclose
pipeclose-Keeps a w p k =
    let c = if w then read_chan a else write_chan a in
    let p' = if w then record p { writeopen = false } else record p { readopen = false } in
    let k' = wake_up c k in
    elim (Bool-cases (not p'.readopen && not p'.writeopen)) [
      | inr still ↦ rw (still, pipeclose) (ofile-wake_up c k)
      | inl last ↦ elim (Option-cases (kfree a k'.pages)) [
        | inl bad ↦ rw (last, bad, pipeclose) tt
        | inr (g, ok) ↦ rw (last, ok, pipeclose) (ofile-wake_up c k)
      ]
    ]

module _ {I : Type 0} (ops : InodeOps I) where
  -- What the cleanup of the last reference to `f` leaves.
  record Cleaned (f : ℕ) (s s' : Files I) : Type 0 where
    same_proc : s'.fs_current ≡ s.fs_current
    same_files : SameFiles s.kernel s'.kernel
    counts : (g : ℕ) → (s'.files g).ref ≡ (if f == g then 0 else (s.files g).ref)

  abbrev IsCleaned : ℕ → Files I → Option (Files I) → Type 0
  IsCleaned f s none = Unit {0}
  IsCleaned f s (some s') = Cleaned f s s'

  closed-Cleaned :
      (f : ℕ) (s s' : Files I)
      → s'.fs_current ≡ s.fs_current
      → SameFiles s.kernel s'.kernel
      → s'.files ≡ s.files
      → Cleaned f s (set_closed f s')
  closed-Cleaned f s s' cur same files = record {
    same_proc = cur;
    same_files = same;
    counts = λ g. rw files (zero_at s.files f g);
  }
    where
      zero_at :
          (files : ℕ → File) (f g : ℕ)
          → (update files f (record (files f) { ref = 0; type = fd_none }) g).ref
            ≡ (if f == g then 0 else (files g).ref)
      zero_at files f g = ground arith

  close_last-IsCleaned : (f : ℕ) (s : Files I) → IsCleaned f s (close_last ops f s)
  unfolding close_last
  close_last-IsCleaned f s = go (s.files f).type refl
    where
      go : (t : FileType) → (s.files f).type ≡ t → IsCleaned f s (close_last ops f s)
      go fd_none e = rw (e, close_last) (closed-Cleaned f s s refl (λ i. refl) refl)
      go fd_pipe e =
          let x = s.files f in
          let keeps = pipeclose-Keeps x.pipe x.writable (s.pipes x.pipe) s.kernel in
          elim (Option-cases (pipeclose x.pipe x.writable (s.pipes x.pipe) s.kernel)) [
            | inl bad ↦ rw (e, bad, close_last) tt
            | inr ((p, k), ok) ↦
                rw (e, ok, close_last)
                  (closed-Cleaned f s (record s { pipes = update s.pipes x.pipe p; kernel = k })
                    refl (rw ok at keeps) refl)
          ]
      go fd_inode e = elim (Option-cases (ops.iput (s.files f).ip s.inodes)) [
        | inl bad ↦ rw (e, bad, close_last) tt
        | inr (i, ok) ↦
            rw (e, ok, close_last)
              (closed-Cleaned f s (record s { inodes = i }) refl (λ i. refl) refl)
      ]

  -- The state in which `fileclose` begins the cleanup.
  abbrev pub dropped : ℕ → Files I → Files I
  dropped f s = set_file f (record (s.files f) { ref = (s.files f).ref - 1 }) s

  -- Descriptor `fd` is cleared, and the count of its file is one less.
  cleared-IsCounted :
      (s s' : Files I) (fd f : ℕ)
      → s.fs_current < nproc
      → IsCounted s
      → fd < nofile
      → ofile_of s fd ≡ file f
      → s'.fs_current ≡ s.fs_current
      → SameFiles s.kernel s'.kernel
      → ((g : ℕ) → (s'.files g).ref + points g (file f) ≡ (s.files g).ref + 0)
      → IsCounted (put_ofile fd null s')
  cleared-IsCounted s s' fd f here counted lt at cur same change g =
      let c = s'.fs_current in
      let t = s'.kernel.ptable in
      let count : ℕ → ℕ = λ x. (s.files x).ref in
      let count' : ℕ → ℕ = λ x. (s'.files x).ref in
      let was : (t c).ofile fd ≡ file f =
        ap (λ x. (t x).ofile fd) cur ∙ ap (λ (o : ℕ → FilePtr). o fd) (same s.fs_current) ∙ at in
      let all : (x : ℕ) → count x ≡ refs x t =
        λ x. counted x ∙ refs-same x s.kernel.ptable t (λ i. sym (same i)) in
      counted-set count count' t c fd (file f) null _ (rw cur here) lt was refl change all g

  cleaned_less :
      (files : ℕ → File) (f g n : ℕ)
      → (files f).ref ≡ 1
      → n ≡ (
          if f == g
          then 0
          else (update files f (record (files f) { ref = (files f).ref - 1 }) g).ref)
      → n + points g (file f) ≡ (files g).ref + 0
  cleaned_less files f g n one e = elim (Bool-cases (f == g)) [
    | inl same ↦
        let e' : f ≡ g = ground arith in
        let one' : (files g).ref ≡ 1 = rw e' at one in
        let n0 : n ≡ 0 = rw same at e in rw (same, n0, one') refl
    | inr other ↦ let n0 : n ≡ (files g).ref = rw other at e in rw (other, n0) refl
  ]

  open_lem :
      (s : Files I) (fd f : ℕ)
      → fd < nofile
      → ofile_of s fd ≡ file f
      → open_file (pos fd) s ≡ file f
  open_lem s fd f lt at = let ok : leb nofile fd ≡ false = ground arith in rw ok at

  -- `fileclose` of a file with a descriptor: of one among several, or of the last.
  fileclose-shared :
      (f : ℕ) (s : Files I)
      → ((s.files f).ref == 0) ≡ false
      → ((s.files f).ref - 1 == 0) ≡ false
      → fileclose ops f s ≡ some (dropped f s)
  unfolding fileclose
  fileclose-shared f s held more = rw (held, more, fileclose) refl

  fileclose-last :
      (f : ℕ) (s : Files I)
      → ((s.files f).ref == 0) ≡ false
      → ((s.files f).ref - 1 == 0) ≡ true
      → fileclose ops f s ≡ close_last ops f (dropped f s)
  unfolding fileclose
  fileclose-last f s held last = rw (held, last, fileclose) refl

  do_close-some :
      (s s' : Files I) (fd f : ℕ)
      → open_file (pos fd) s ≡ file f
      → fileclose ops f s ≡ some s'
      → do_close ops (pos fd) s ≡ some (pos 0, put_ofile fd null s')
  unfolding do_close
  do_close-some s s' fd f at ok = rw (at, ok, do_close) refl

  -- `do_close` of an open descriptor, where each open file counts its references: it returns 0, the
  -- descriptor is free, and the counts are right again. This holds where the cleanup of the file, if
  -- it was its last reference, does not panic.
  pub do_close-IsCounted :
      (s : Files I) (fd f : ℕ)
      → s.fs_current < nproc
      → IsCounted s
      → fd < nofile
      → ofile_of s fd ≡ file f
      → close_last ops f (dropped f s) ≢ none
      → (s' : Files I) × (do_close ops (pos fd) s ≡ some (pos 0, put_ofile fd null s'))
        × IsCounted (put_ofile fd null s')
  do_close-IsCounted s fd f here counted lt at clean =
      let held = open-ref s here counted fd f lt at in
      let opened = open_lem s fd f lt at in
      elim (Bool-cases ((s.files f).ref - 1 == 0)) [
        | inr more ↦
            let x : File = record (s.files f) { ref = (s.files f).ref - 1 } in
            (
              dropped f s,
              do_close-some s (dropped f s) fd f opened (fileclose-shared f s held more),
              cleared-IsCounted s (dropped f s) fd f here counted lt at refl (λ i. refl)
                  (λ g. one_less s.files x f g (ground arith)),
            )
        | inl last ↦ elim (Option-cases (close_last ops f (dropped f s))) [
          | inl bad ↦ absurd (clean bad)
          | inr (s', ok) ↦
              let c : Cleaned f (dropped f s) s' =
                rw ok at (close_last-IsCleaned f (dropped f s)) in
              (
                s',
                do_close-some s s' fd f opened (fileclose-last f s held last ∙ ok),
                cleared-IsCounted s s' fd f here counted lt at c.same_proc c.same_files
                    (λ g. cleaned_less s.files f g _ (ground arith) (c.counts g)),
              )
        ]
      ]
