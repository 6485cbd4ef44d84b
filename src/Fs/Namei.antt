-- ===== src/Fs/Namei.antt =====
-- Paths: `skipelem`, `namex` and `icreate` of fs/inode.c. A path is the list of its bytes before the
-- NUL.
use jix.Base.{
  ℕ, zero, suc, ◌+◌, ◌%◌, ◌^◌, Bool, true, false, not, ◌&&◌, Option, none, some, List, [], ◌∷◌,
  ◌==◌, if◌then◌else◌, length, take, is_neg,
}
use jix.Fs.Inode.{
  ◌>>=◌, Action, ◌>>◌, pure, panic, require, get_inode, on_option, modify, iget, idup, ialloc,
  iupdate,
}
use jix.Fs.InodeData.{iput}
use jix.Fs.Dir.{namelen, t_dir, dirlookup, dirlink}

abbrev pub slash : ℕ
slash = 47

-- `while (*path == '/') path++;`.
unfoldable pub skip_slashes : List ℕ → List ℕ
skip_slashes [] = []
skip_slashes (c ∷ l) = let rest = skip_slashes l in if c == slash then rest else c ∷ l

-- The bytes before the next `/`, and the path from there on.
unfoldable pub element : List ℕ → List ℕ
element [] = []
element (c ∷ l) = let rest = element l in if c == slash then [] else c ∷ rest

unfoldable pub skip_element : List ℕ → List ℕ
skip_element [] = []
skip_element (c ∷ l) = let rest = skip_element l in if c == slash then c ∷ l else rest

-- `skipelem` past the leading slashes: the element's name, and the rest of the path.
unfoldable pub split_path : List ℕ → Option (List ℕ × List ℕ)
split_path [] = none
split_path (c ∷ l) = some (take namelen (element (c ∷ l)), skip_slashes (skip_element (c ∷ l)))

unfoldable pub skipelem : List ℕ → Option (List ℕ × List ℕ)
skipelem path = split_path (skip_slashes path)

abbrev pub is_empty : List ℕ → Bool
is_empty [] = true
is_empty (c ∷ l) = false

-- The body of the loop of `namex` at directory `ip`, for the element `name`; `last` where the parent is
-- asked for and this is it. Where `ip` is not a directory its reference stays.
unfoldable pub enter :
    Bool → ℕ → List ℕ → (ℕ → Action (Option (ℕ × List ℕ))) → Action (Option (ℕ × List ℕ))
enter last ip name on = do
  x ← get_inode ip
  if not (x.type == t_dir) then pure none else do
    if last
        then pure (some (ip, name))
        else do found ← dirlookup ip name; iput ip; on_option found (pure none) λ e. on e.1

-- `namex` behind its loop.
unfoldable pub at_end : Bool → ℕ → Action (Option (ℕ × List ℕ))
at_end parent ip = if parent then (iput ip >> pure none) else pure (some (ip, []))

-- The loop of `namex`, with fuel, from inode `ip` on: the inode, and the name of the last element when
-- the parent is asked for.
unfoldable pub walk : ℕ → Bool → ℕ → List ℕ → Action (Option (ℕ × List ℕ))
walk zero parent ip path = panic
walk (suc f) parent ip path =
    on_option (skipelem path) (at_end parent ip)
      λ step. enter (parent && is_empty step.1) ip step.0 λ next. walk f parent next step.1

abbrev pub rootino : ℕ
rootino = 1

unfoldable pub read_cwd : Action (Option ℕ)
read_cwd s = some (s.cwd, s)

unfoldable pub put_cwd : ℕ → Action (Unit {0})
put_cwd ip s = some (tt, record s { cwd = some ip })

-- `fs_current->cwd`, which is the root when there is none yet.
unfoldable pub get_cwd : Action ℕ
get_cwd = do
  cwd ← read_cwd
  on_option cwd (do ip ← iget 0 rootino; put_cwd ip; pure ip) λ ip. pure ip

abbrev pub is_absolute : List ℕ → Bool
is_absolute [] = false
is_absolute (c ∷ l) = c == slash

-- `namex`: each round consumes a byte at least, and one more sees the end.
unfoldable pub namex : List ℕ → Bool → Action (Option (ℕ × List ℕ))
namex path parent = do
  cwd ← get_cwd
  ip ← if is_absolute path then iget 0 rootino else idup cwd
  walk (length path + 1) parent ip path

abbrev pub inode_of : Option (ℕ × List ℕ) → Option ℕ
inode_of none = none
inode_of (some (ip, name)) = some ip

unfoldable pub namei : List ℕ → Action (Option ℕ)
namei path = do found ← namex path false; pure (inode_of found)

abbrev pub nameiparent : List ℕ → Action (Option (ℕ × List ℕ))
nameiparent path = namex path true

-- `ip->nlink++` and `ip->nlink--`, of a short.
unfoldable pub add_nlink : ℕ → ℕ → Action (Unit {0})
add_nlink k ip = modify ip λ x. record x { nlink = (x.nlink + k) % 2 ^ 16 }

abbrev pub minus_one_short : ℕ
minus_one_short = 65535

abbrev pub dot : List ℕ
dot = 46 ∷ []

abbrev pub dot_dot : List ℕ
dot_dot = 46 ∷ 46 ∷ []

-- `dirlink`, whose failure is a panic.
unfoldable pub must_link : ℕ → List ℕ → ℕ → Action (Unit {0})
must_link dp name inum = do r ← dirlink dp name inum; require (not (is_neg r))

-- The entries `.` and `..` of a new directory.
unfoldable pub link_dots : ℕ → ℕ → Action (Unit {0})
link_dots dp ip = do
  add_nlink 1 dp
  iupdate dp
  x ← get_inode ip
  must_link ip dot x.inum
  y ← get_inode dp
  must_link ip dot_dot y.inum

-- `icreate` of a name that is not there; the numbers of the device are shorts.
unfoldable pub create_in : ℕ → List ℕ → ℕ → ℕ → ℕ → Action ℕ
create_in dp name type major minor = do
  d ← get_inode dp
  ip ← ialloc d.dev type
  modify ip λ x. record x { major = major; minor = minor; nlink = 1 }
  iupdate ip
  y ← get_inode ip
  if y.type == t_dir then link_dots dp ip else pure tt
  must_link dp name y.inum
  iput dp
  pure ip

abbrev pub t_file : ℕ
t_file = 2

-- `icreate` of a name that is there.
unfoldable pub present : ℕ → ℕ → ℕ → Action (Option ℕ)
present dp ip type = do
  iput dp
  x ← get_inode ip
  if type == t_file && x.type == t_file then pure (some ip) else (iput ip >> pure none)

unfoldable pub icreate : List ℕ → ℕ → ℕ → ℕ → Action (Option ℕ)
icreate path type major minor = do
  parent ← nameiparent path
  on_option parent (pure none) λ p. do
    found ← dirlookup p.0 p.1
    on_option found (do ip ← create_in p.0 p.1 type major minor; pure (some ip))
        λ e. present p.0 e.1 type
