-- ===== src/Fs/Link.antt =====
-- Links: `do_link`, `isdirempty` and `do_unlink` of fs/do_fs.c.
use jix.Base.{
  ℕ, zero, suc, ◌+◌, ◌*◌, ◌^◌, Bool, true, false, not, ◌&&◌, ◌||◌, List, [], ◌∷◌, ltb, ◌==◌,
  if◌then◌else◌, ℤ, pos, minus_one, is_neg, to_u32,
}
use jix.Fs.Inode.{◌>>=◌, Inode, Action, ◌>>◌, pure, panic, require, get_inode, on_option, iupdate}
use jix.Fs.InodeData.{iput, writei}
use jix.Fs.Dir.{
  t_dir, dirent_size, namecmp, dirent_inum, read_dirent, entries_fuel, dirlookup, dirlink,
}
use jix.Fs.Namei.{namei, nameiparent, add_nlink, minus_one_short, dot, dot_dot}

-- `bad` of `do_link`.
unfoldable pub undo_link : ℕ → Action ℤ
undo_link ip = do add_nlink minus_one_short ip; iupdate ip; iput ip; pure minus_one

-- `dp->dev != ip->dev || dirlink(dp, name, ip->inum) < 0`.
unfoldable pub link_fails : ℕ → List ℕ → ℕ → Action Bool
link_fails dp name ip = do
  d ← get_inode dp
  x ← get_inode ip
  if not (d.dev == x.dev) then pure true else do r ← dirlink dp name x.inum; pure (is_neg r)

unfoldable pub link_into : List ℕ → ℕ → Action ℤ
link_into new ip = do
  add_nlink 1 ip
  iupdate ip
  parent ← nameiparent new
  on_option parent (undo_link ip) λ p. do
    fails ← link_fails p.0 p.1 ip
    iput p.0
    if fails then undo_link ip else (iput ip >> pure (pos 0))

unfoldable pub do_link : List ℕ → List ℕ → Action ℤ
do_link new target = do
  found ← namei target
  on_option found (pure minus_one) λ ip. do
    x ← get_inode ip
    if x.type == t_dir then (iput ip >> pure minus_one) else link_into new ip

-- The loop of `isdirempty`, with fuel.
unfoldable pub empty_from : ℕ → ℕ → ℕ → Action Bool
empty_from zero dp off = panic
empty_from (suc f) dp off = do
  x ← get_inode dp
  if not (ltb off x.size) then pure true else do
    de ← read_dirent dp off
    if not (dirent_inum de == 0) then pure false else empty_from f dp (off + dirent_size)

unfoldable pub isdirempty : ℕ → Action Bool
isdirempty dp = do x ← get_inode dp; empty_from (entries_fuel x.size) dp (2 * dirent_size)

-- `ip->type == T_DIR && !isdirempty(ip)`.
unfoldable pub is_full_dir : ℕ → Action Bool
is_full_dir ip = do
  x ← get_inode ip
  if not (x.type == t_dir) then pure false else do empty ← isdirempty ip; pure (not empty)

abbrev pub zeros : ℕ → List ℕ
zeros zero = []
zeros (suc n) = 0 ∷ zeros n

-- `do_unlink` from `memset` on: the entry at `off` of `dp` is cleared, and `ip` loses a link.
unfoldable pub remove_entry : ℕ → ℕ → ℕ → Action ℤ
remove_entry dp off ip = do
  r ← writei dp (zeros dirent_size) off
  require (to_u32 r == dirent_size)
  x ← get_inode ip
  if x.type == t_dir then (add_nlink minus_one_short dp >> iupdate dp) else pure tt
  iput dp
  add_nlink minus_one_short ip
  iupdate ip
  iput ip
  pure (pos 0)

-- `ip->nlink >= 1` of a short.
abbrev pub is_linked : Inode → Bool
is_linked x = not (x.nlink == 0) && ltb x.nlink (2 ^ 15)

unfoldable pub unlink_from : ℕ → List ℕ → Action ℤ
unlink_from dp name = do
  found ← dirlookup dp name
  on_option found (iput dp >> pure minus_one) λ e. do
    x ← get_inode e.1
    require (is_linked x)
    full ← is_full_dir e.1
    if full then (iput e.1 >> (iput dp >> pure minus_one)) else remove_entry dp e.0 e.1

unfoldable pub do_unlink : List ℕ → Action ℤ
do_unlink path = do
  parent ← nameiparent path
  on_option parent (pure minus_one) λ p.
      (if namecmp p.1 dot || namecmp p.1 dot_dot
        then (iput p.0 >> pure minus_one)
        else unlink_from p.0 p.1)
