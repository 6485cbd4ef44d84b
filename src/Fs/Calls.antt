-- ===== src/Fs/Calls.antt =====
-- The calls that the file system task makes of fs/inode.c, and of `do_link` and `do_unlink`, one
-- after the other.
use jix.Base.{ℕ, ◌<◌, ◌≡◌, some, List, [], ◌∷◌}
use jix.Fs.Inode.{Inodes, Action, ◌>>=◌, pure, ninode, iget, idup, ialloc, iupdate}
use jix.Fs.InodeData.{iput, readi, writei}
use jix.Fs.Namei.{namei, icreate}
use jix.Fs.Link.{do_link, do_unlink}
use jix.Fs.Keeps.{Keeps, Holds, Keeps-bind, Keeps-pure}
use jix.Fs.Unique.{IsUnique, Keeps-iget, Keeps-idup, Keeps-ialloc, Keeps-iupdate}
use jix.Fs.UniqueData.{Keeps-iput, Keeps-readi, Keeps-writei}
use jix.Fs.UniquePath.{Keeps-namei, Keeps-icreate, Keeps-do_link, Keeps-do_unlink}

pub data Call : Type 0 where
  get : ℕ → ℕ → Call
  dup put sync : ℕ → Call
  alloc : ℕ → ℕ → Call
  read : ℕ → ℕ → ℕ → Call
  write : ℕ → List ℕ → ℕ → Call
  lookup : List ℕ → Call
  create : List ℕ → ℕ → ℕ → ℕ → Call
  link : List ℕ → List ℕ → Call
  unlink : List ℕ → Call

abbrev ignore : {A : Type 0} → Action A → Action (Unit {0})
ignore m = m >>= λ _. pure tt

unfoldable pub run_call : Call → Action (Unit {0})
run_call (get dev inum) = ignore (iget dev inum)
run_call (dup ip) = ignore (idup ip)
run_call (put ip) = iput ip
run_call (sync ip) = iupdate ip
run_call (alloc dev type) = ignore (ialloc dev type)
run_call (read ip off n) = ignore (readi ip off n)
run_call (write ip l off) = ignore (writei ip l off)
run_call (lookup path) = ignore (namei path)
run_call (create path type major minor) = ignore (icreate path type major minor)
run_call (link new target) = ignore (do_link new target)
run_call (unlink path) = ignore (do_unlink path)

unfoldable pub run_calls : List Call → Action (Unit {0})
run_calls [] = pure tt
run_calls (c ∷ l) = run_call c >>= λ _. run_calls l

Keeps-ignore : {A : Type 0} (m : Action A) → Keeps IsUnique m → Keeps IsUnique (ignore m)
Keeps-ignore m k = Keeps-bind m _ k λ a. Keeps-pure tt

Keeps-run_call : (c : Call) → Keeps IsUnique (run_call c)
unfolding run_call
Keeps-run_call (get dev inum) = Keeps-ignore _ (Keeps-iget dev inum)
Keeps-run_call (dup ip) = Keeps-ignore _ (Keeps-idup ip)
Keeps-run_call (put ip) = Keeps-iput ip
Keeps-run_call (sync ip) = Keeps-iupdate ip
Keeps-run_call (alloc dev type) = Keeps-ignore _ (Keeps-ialloc dev type)
Keeps-run_call (read ip off n) = Keeps-ignore _ (Keeps-readi ip off n)
Keeps-run_call (write ip l off) = Keeps-ignore _ (Keeps-writei ip l off)
Keeps-run_call (lookup path) = Keeps-ignore _ (Keeps-namei path)
Keeps-run_call (create path type major minor) = Keeps-ignore _ (Keeps-icreate path type major minor)
Keeps-run_call (link new target) = Keeps-ignore _ (Keeps-do_link new target)
Keeps-run_call (unlink path) = Keeps-ignore _ (Keeps-do_unlink path)

Keeps-run_calls : (l : List Call) → Keeps IsUnique (run_calls l)
unfolding run_calls
Keeps-run_calls [] = Keeps-pure tt
Keeps-run_calls (c ∷ l) = Keeps-bind _ _ (Keeps-run_call c) λ a. Keeps-run_calls l

-- From a table of inodes with no entry in use, after any calls of `iget`, `idup`, `iput`, `iupdate`,
-- `ialloc`, `readi`, `writei`, `namei`, `icreate`, `do_link` and `do_unlink` that come back without a
-- panic: no two entries in use stand for the same inode of the same device.
pub run_calls-IsUnique :
    (l : List Call) (s s' : Inodes)
    → ((i : ℕ) → i < ninode → (s.inodes i).ref ≡ 0)
    → run_calls l s ≡ some (tt, s')
    → IsUnique s'
run_calls-IsUnique l s s' free e =
    let start : IsUnique s = record {
      one = λ i j lt lt' live live' e1 e2. absurd (live (free i lt));
    } in
    let h : Holds IsUnique (run_calls l s) = (Keeps-run_calls l).at s start in rw e at h
