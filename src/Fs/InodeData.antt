-- ===== src/Fs/InodeData.antt =====
-- The contents of inodes: `bmap`, `itrunc`, `iput`, `stati`, `readi` and `writei` of fs/inode.c.
use jix.Base.{
  ℕ, zero, suc, ◌+◌, ◌-◌, ◌*◌, ◌/◌, ◌%◌, ◌^◌, min, not, ◌&&◌, ◌||◌, none, some, List, [], ◌∷◌, ◌++◌,
  ltb, ◌==◌, if◌then◌else◌, length, take, drop, update, ℤ, minus_one, to_int,
}
use jix.Fs.Block.{Block, set_block, get32, put32, bsize}
use jix.Fs.Inode.{
  ◌>>=◌, Inode, Action, ◌>>◌, pure, panic, require, get_inode, modify, get_disk, put_disk, ndirect,
  nindirect, alloc_block, free_block, iupdate,
}
use jix.Fs.Tty.{tty_read, tty_write}

-- `ip->addrs[i] = addr`.
unfoldable pub set_addr : ℕ → ℕ → ℕ → Action (Unit {0})
set_addr ip i addr = modify ip λ x. record x { addrs = update x.addrs i addr }

-- The block `ip->addrs[i]`, allocated if there is none.
unfoldable pub direct : ℕ → ℕ → Action ℕ
direct ip i = do
  x ← get_inode ip
  if not (x.addrs i == 0)
      then pure (x.addrs i)
      else do addr ← alloc_block x.dev; set_addr ip i addr; pure addr

-- Word `i` of the indirect block `n`, allocated if there is none.
unfoldable pub indirect : ℕ → ℕ → ℕ → Action ℕ
indirect dev n i = do
  d ← get_disk
  if not (get32 (d dev n) (4 * i) == 0) then pure (get32 (d dev n) (4 * i)) else do
    addr ← alloc_block dev
    d' ← get_disk
    put_disk (set_block d' dev n (put32 (d' dev n) (4 * i) addr))
    pure addr

unfoldable pub bmap : ℕ → ℕ → Action ℕ
bmap ip bn = if ltb bn ndirect then direct ip bn else do
  if not (ltb (bn - ndirect) nindirect)
      then panic
      else do n ← direct ip ndirect; x ← get_inode ip; indirect x.dev n (bn - ndirect)

-- The loops of `itrunc`, with `n` rounds left at index `i`.
unfoldable pub free_direct : ℕ → ℕ → ℕ → Action (Unit {0})
free_direct ip zero i = pure tt
free_direct ip (suc n) i = do
  x ← get_inode ip
  if x.addrs i == 0
      then free_direct ip n (i + 1)
      else do free_block x.dev (x.addrs i); set_addr ip i 0; free_direct ip n (i + 1)

unfoldable pub free_indirect : ℕ → ℕ → ℕ → ℕ → Action (Unit {0})
free_indirect dev b zero i = pure tt
free_indirect dev b (suc n) i = do
  d ← get_disk
  if get32 (d dev b) (4 * i) == 0
      then free_indirect dev b n (i + 1)
      else do free_block dev (get32 (d dev b) (4 * i)); free_indirect dev b n (i + 1)

-- The second half of `itrunc`, for the indirect block.
unfoldable pub free_rest : ℕ → Action (Unit {0})
free_rest ip = do
  x ← get_inode ip
  if x.addrs ndirect == 0 then pure tt else do
    free_indirect x.dev (x.addrs ndirect) nindirect 0
    free_block x.dev (x.addrs ndirect)
    set_addr ip ndirect 0

unfoldable pub set_size : ℕ → ℕ → Action (Unit {0})
set_size ip n = modify ip λ x. record x { size = n }

unfoldable pub itrunc : ℕ → Action (Unit {0})
itrunc ip = do free_direct ip ndirect 0; free_rest ip; set_size ip 0; iupdate ip

-- The part of `iput` that gives the inode back to the disk.
unfoldable pub iput_last : ℕ → Action (Unit {0})
iput_last ip = do itrunc ip; modify ip λ x. record x { type = 0 }; iupdate ip

unfoldable pub drop_ref : ℕ → Action (Unit {0})
drop_ref ip = modify ip λ x. record x { ref = x.ref - 1 }

unfoldable pub iput : ℕ → Action (Unit {0})
iput ip = do
  x ← get_inode ip
  require (not (x.ref == 0))
  if x.ref == 1 && x.nlink == 0 then (iput_last ip >> drop_ref ip) else drop_ref ip

-- `stati`: the device, the number, the type, the links and the size.
abbrev pub stati : Inode → ℕ × ℕ × ℕ × ℕ × ℕ
stati x = (x.dev, x.inum, x.type, x.nlink, x.size)

-- The `m` bytes of a block from offset `o` on, and a block with bytes stored there.
abbrev pub bytes_at : Block → ℕ → ℕ → List ℕ
bytes_at b o zero = []
bytes_at b o (suc m) = b o ∷ bytes_at b (o + 1) m

abbrev pub store_bytes : Block → ℕ → List ℕ → Block
store_bytes b o [] = b
store_bytes b o (x ∷ l) = store_bytes (update b o x) (o + 1) l

-- `min(n - tot, BSIZE - off % BSIZE)`, with `left` bytes to go.
abbrev pub chunk_at : ℕ → ℕ → ℕ
chunk_at off left = min left (bsize - off % bsize)

-- The loop of `readi`, with `left` bytes to go. Each round reads a byte at least.
unfoldable pub read_blocks : ℕ → ℕ → ℕ → ℕ → Action (List ℕ)
read_blocks ip zero off left = if left == 0 then pure [] else panic
read_blocks ip (suc f) off left = if left == 0 then pure [] else do
  n ← bmap ip (off / bsize)
  x ← get_inode ip
  d ← get_disk
  rest ← read_blocks ip f (off + chunk_at off left) (left - chunk_at off left)
  pure (bytes_at (d x.dev n) (off % bsize) (chunk_at off left) ++ rest)

abbrev pub t_dev : ℕ
t_dev = 3

-- `tty_read` and `tty_write` on the terminal of the state.
unfoldable pub read_tty : ℕ → Action (ℤ × List ℕ)
read_tty n s =
    let (r, d, t, sleeps) = tty_read n s.tty in
    some ((r, d), record s { tty = t; asleep = if sleeps then some s.tty_addr else none })

unfoldable pub write_tty : List ℕ → Action ℤ
write_tty l s = some (to_int (length l), record s { tty = tty_write l s.tty })

-- `readi`: its result and the bytes that it stores.
unfoldable pub readi : ℕ → ℕ → ℕ → Action (ℤ × List ℕ)
readi ip off n = do
  x ← get_inode ip
  if x.type == t_dev then read_tty n else do
    if ltb x.size off then pure (minus_one, []) else do
      let m = if ltb x.size ((off + n) % 2 ^ 32) then x.size - off else n
      l ← read_blocks ip m off m
      pure (to_int m, l)

-- The loop of `writei`.
unfoldable pub write_blocks : ℕ → ℕ → ℕ → List ℕ → Action (Unit {0})
write_blocks ip zero off l = if length l == 0 then pure tt else panic
write_blocks ip (suc f) off l = if length l == 0 then pure tt else do
  n ← bmap ip (off / bsize)
  x ← get_inode ip
  d ← get_disk
  let m = chunk_at off (length l)
  put_disk (set_block d x.dev n (store_bytes (d x.dev n) (off % bsize) (take m l)))
  write_blocks ip f (off + m) (drop m l)

abbrev pub maxfile : ℕ
maxfile = 140

-- The end of `writei`, at offset `off`.
unfoldable pub grow : ℕ → ℕ → ℕ → Action (Unit {0})
grow ip n off = do
  x ← get_inode ip
  if ltb 0 n && ltb x.size off then (set_size ip off >> iupdate ip) else pure tt

unfoldable pub writei : ℕ → List ℕ → ℕ → Action ℤ
writei ip l off = do
  x ← get_inode ip
  if x.type == t_dev then write_tty l else do
    if ltb x.size off || ltb (maxfile * bsize) ((off + length l) % 2 ^ 32)
        then pure minus_one
        else do
          write_blocks ip (length l) off l
          grow ip (length l) (off + length l)
          pure (to_int (length l))
