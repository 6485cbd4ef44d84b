-- ===== src/Fs/ReadBytes.antt =====
-- What `readi` of fs/inode.c reads of a file in its direct blocks.
use jix.Base.{ℕ, zero, suc, ◌+◌, ◌/◌, ◌%◌, ◌<◌, ◌≢◌, List, [], ◌∷◌}
use jix.Fs.Block.{bsize, Disk}
use jix.Fs.Inode.{Inode, ndirect}

-- The byte at offset `k` of a file.
abbrev pub file_byte : Disk → Inode → ℕ → ℕ
file_byte d x k = d x.dev (x.addrs (k / bsize)) (k % bsize)

-- The `n` bytes from offset `off` on.
abbrev pub file_bytes : Disk → Inode → ℕ → ℕ → List ℕ
file_bytes d x off zero = []
file_bytes d x off (suc n) = file_byte d x off ∷ file_bytes d x (off + 1) n

-- The first `n` bytes of the file have direct blocks.
abbrev pub HasBlocks : Inode → ℕ → Type 0
HasBlocks x n = (k : ℕ) → k < n → (k / bsize < ndirect) × (x.addrs (k / bsize) ≢ 0)
