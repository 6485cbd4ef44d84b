-- ===== src/Fs/Dir.antt =====
-- Directories: `namecmp`, `dirlookup` and `dirlink` of fs/inode.c. A directory is a file of entries
-- of 20 bytes: a `u32` number and a name of 16 bytes. A name is the list of its bytes before the NUL.
use jix.Base.{
  ℕ, zero, suc, ◌+◌, ◌/◌, ◌%◌, ◌^◌, Bool, true, not, ◌&&◌, ◌||◌, Option, none, some, List, [], ◌∷◌,
  ◌++◌, ltb, ◌==◌, if◌then◌else◌, length, take, drop, ℤ, pos, minus_one, to_u32,
}
use jix.Fs.Block.{get32}
use jix.Fs.Inode.{◌>>=◌, Action, ◌>>◌, pure, panic, require, get_inode, on_option, iget}
use jix.Fs.InodeData.{iput, readi, writei}

abbrev pub namelen : ℕ
namelen = 16

abbrev pub dirent_size : ℕ
dirent_size = 20

abbrev pub t_dir : ℕ
t_dir = 1

-- Byte `i` of a list, and NUL behind its end.
abbrev pub byte_of : List ℕ → ℕ → ℕ
byte_of [] i = 0
byte_of (x ∷ l) zero = x
byte_of (x ∷ l) (suc i) = byte_of l i

-- `strncmp(a, b, n) == 0`.
unfoldable pub same_name : ℕ → List ℕ → List ℕ → Bool
same_name zero a b = true
same_name (suc n) a b =
    let rest = same_name n (drop 1 a) (drop 1 b) in
    if not (byte_of a 0 == 0) && byte_of a 0 == byte_of b 0
    then rest
    else byte_of a 0 == byte_of b 0

-- `namecmp(a, b) == 0`.
abbrev pub namecmp : List ℕ → List ℕ → Bool
namecmp a b = same_name namelen a b

-- The fields of an entry.
abbrev pub dirent_inum : List ℕ → ℕ
dirent_inum de = get32 (byte_of de) 0

abbrev pub dirent_name : List ℕ → List ℕ
dirent_name de = drop 4 de

-- `readi` of an entry, which must read it whole.
unfoldable pub read_dirent : ℕ → ℕ → Action (List ℕ)
read_dirent dp off = do
  (r, de) ← readi dp off dirent_size
  require (to_u32 r == dirent_size)
  pure de

-- The loop of `dirlookup`, with fuel: the offset of the entry and its inode.
unfoldable pub lookup_from : ℕ → ℕ → List ℕ → ℕ → Action (Option (ℕ × ℕ))
lookup_from zero dp name off = panic
lookup_from (suc f) dp name off = do
  x ← get_inode dp
  if not (ltb off x.size) then pure none else do
    de ← read_dirent dp off
    if dirent_inum de == 0 || not (namecmp name (dirent_name de))
        then lookup_from f dp name (off + dirent_size)
        else do ip ← iget x.dev (dirent_inum de); pure (some (off, ip))

-- One round for each entry, and one for the last test.
abbrev pub entries_fuel : ℕ → ℕ
entries_fuel size = size / dirent_size + 2

unfoldable pub dirlookup : ℕ → List ℕ → Action (Option (ℕ × ℕ))
dirlookup dp name = do
  x ← get_inode dp
  require (x.type == t_dir)
  lookup_from (entries_fuel x.size) dp name 0

-- The loop of `dirlink` that looks for a free entry: where it stops, and the entry read last.
unfoldable pub free_from : ℕ → ℕ → ℕ → List ℕ → Action (ℕ × List ℕ)
free_from zero dp off de = panic
free_from (suc f) dp off de = do
  x ← get_inode dp
  if not (ltb off x.size) then pure (off, de) else do
    de' ← read_dirent dp off
    if dirent_inum de' == 0 then pure (off, de') else free_from f dp (off + dirent_size) de'

-- The four bytes of a `u32`.
abbrev pub word_bytes : ℕ → List ℕ
word_bytes v = (v % 256) ∷ (v / 2 ^ 8 % 256) ∷ (v / 2 ^ 16 % 256) ∷ (v / 2 ^ 24 % 256) ∷ []

-- `strncpy(de.name, name, NAMELEN)`, which leaves what stands behind the NUL.
abbrev pub copy_name : List ℕ → List ℕ → List ℕ
copy_name name old = take namelen (name ++ (0 ∷ drop (suc (length name)) old))

unfoldable pub get_stale : Action (List ℕ)
get_stale s = some (s.stale, s)

-- `dirlink` once the name is known to be new.
unfoldable pub add_entry : ℕ → List ℕ → ℕ → Action ℤ
add_entry dp name inum = do
  x ← get_inode dp
  old ← get_stale
  (off, de) ← free_from (entries_fuel x.size) dp 0 old
  r ← writei dp (word_bytes inum ++ copy_name name (dirent_name de)) off
  require (to_u32 r == dirent_size)
  pure (pos 0)

unfoldable pub dirlink : ℕ → List ℕ → ℕ → Action ℤ
dirlink dp name inum = do
  found ← dirlookup dp name
  on_option found (add_entry dp name inum) λ e. (iput e.1 >> pure minus_one)
