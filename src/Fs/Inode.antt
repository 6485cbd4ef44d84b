-- ===== src/Fs/Inode.antt =====
-- The inodes in memory and on the disk: the first half of fs/inode.c. An operation is an action on
-- the state below; `none` is a panic or a failed `assert`.
use jix.Base.{
  ℕ, zero, suc, ◌+◌, ◌-◌, ◌*◌, ◌%◌, Bool, true, false, not, ◌&&◌, Option, none, some, List, ltb,
  leb, ◌==◌, if◌then◌else◌, find_from, update,
}
use jix.Fs.Block.{
  Block, Disk, set_block, get16, get32, put16, put32, ipb, iblock, sb_ninodes, balloc, bfree,
}
use jix.Fs.Tty.{Tty}

-- `struct inode`; the shorts are numbers below 2^16.
pub record Inode : Type 0 where
  pub dev : ℕ
  pub inum : ℕ
  pub ref : ℕ
  pub type : ℕ
  pub nlink : ℕ
  pub major : ℕ
  pub minor : ℕ
  pub size : ℕ
  pub addrs : ℕ → ℕ

-- `inodes`, the disks, the terminal and its address, `fs_current->cwd`, the value that the last read
-- gave `fs_sleep`, and the bytes of the stack where `dirlink` has its `de`.
pub record Inodes : Type 0 where
  pub inodes : ℕ → Inode
  pub disk : Disk
  pub tty : Tty
  pub tty_addr : ℕ
  pub cwd : Option ℕ
  pub asleep : Option ℕ
  pub stale : List ℕ

abbrev pub Action : Type 0 → Type 0
Action A = Inodes → Option (A × Inodes)

unfoldable pub pure : {A : Type 0} → A → Action A
pure a s = some (a, s)

unfoldable pub panic : {A : Type 0} → Action A
panic s = none

-- `assert`.
unfoldable pub require : Bool → Action (Unit {0})
require true s = some (tt, s)
require false s = none

unfoldable pub get_inode : ℕ → Action Inode
get_inode ip s = some (s.inodes ip, s)

-- Inode `ip` rewritten.
unfoldable pub modify : ℕ → (Inode → Inode) → Action (Unit {0})
modify ip g s = some (tt, record s { inodes = update s.inodes ip (g (s.inodes ip)) })

unfoldable pub get_disk : Action Disk
get_disk s = some (s.disk, s)

unfoldable pub put_disk : Disk → Action (Unit {0})
put_disk d s = some (tt, record s { disk = d })

infixl 5 ◌>>=◌ ◌>>◌
unfoldable pub ◌>>=◌ : {A B : Type 0} → Action A → (A → Action B) → Action B
unfolding pure panic require get_inode modify get_disk put_disk
◌>>=◌ m f s = elim (m s) [ none ↦ none | some (a, s') ↦ f a s' ]

abbrev pub ◌>>◌ : {A B : Type 0} → Action A → Action B → Action B
m >> k = m >>= λ _. k

-- The two ways on from a call that returns a pointer or NULL.
unfoldable pub on_option : {A B : Type 0} → Option B → Action A → (B → Action A) → Action A
on_option none m f = m
on_option (some b) m f = f b

abbrev pub ninode : ℕ
ninode = 64

abbrev pub ndirect : ℕ
ndirect = 12

abbrev pub nindirect : ℕ
nindirect = 128

-- The offset of an inode in its block, and its fields there.
abbrev pub dinode_at : ℕ → ℕ
dinode_at inum = inum % ipb * 64

abbrev pub load_dinode : Disk → ℕ → ℕ → Inode
load_dinode d dev inum =
    let b = d dev (iblock inum) in
    let o = dinode_at inum in
    record {
      dev = dev;
      inum = inum;
      ref = 1;
      type = get16 b o;
      nlink = get16 b (o + 2);
      major = get16 b (o + 4);
      minor = get16 b (o + 6);
      size = get32 b (o + 8);
      addrs = λ i. get32 b (o + 12 + 4 * i);
    }

abbrev pub is_at : ℕ → ℕ → Inode → Bool
is_at dev inum x = not (x.ref == 0) && (x.dev == dev && x.inum == inum)

unfoldable pub iget : ℕ → ℕ → Action ℕ
iget dev inum s = elim (find_from (λ i. is_at dev inum (s.inodes i)) ninode 0) [
  | some ip ↦
      let x = s.inodes ip in
      some (ip, record s { inodes = update s.inodes ip (record x { ref = x.ref + 1 }) })
  | none ↦ elim (find_from (λ i. (s.inodes i).ref == 0) ninode 0) [
    | none ↦ none
    | some ip ↦ some (ip, record s { inodes = update s.inodes ip (load_dinode s.disk dev inum) })
  ]
]

-- `memset(dip, 0, sizeof(*dip))`.
abbrev pub clear_dinode : Block → ℕ → Block
clear_dinode b o x = if leb o x && ltb x (o + 64) then 0 else b x

unfoldable pub ialloc : ℕ → ℕ → Action ℕ
ialloc dev type = do
  d ← get_disk
  let free = find_from (λ i. get16 (d dev (iblock i)) (dinode_at i) == 0) (sb_ninodes d dev - 1) 1
  on_option free panic λ inum. do
    let o = dinode_at inum
    let b = put16 (clear_dinode (d dev (iblock inum)) o) o type
    put_disk (set_block d dev (iblock inum) b)
    iget dev inum

-- `memcpy(dip->addrs, ip->addrs, sizeof(ip->addrs))`: `n` words from index `i` on.
unfoldable pub put_addrs : ℕ → ℕ → (ℕ → ℕ) → ℕ → Block → Block
put_addrs zero i addrs o b = b
put_addrs (suc n) i addrs o b = put_addrs n (i + 1) addrs o (put32 b (o + 4 * i) (addrs i))

unfoldable pub store_dinode : Inode → Block → Block
store_dinode x b =
    let o = dinode_at x.inum in
    let b1 = put16 (put16 b o x.type) (o + 2) x.nlink in
    let b2 = put16 (put16 b1 (o + 4) x.major) (o + 6) x.minor in
    put_addrs (ndirect + 1) 0 x.addrs (o + 12) (put32 b2 (o + 8) x.size)

unfoldable pub iupdate : ℕ → Action (Unit {0})
iupdate ip = do
  x ← get_inode ip
  d ← get_disk
  put_disk (set_block d x.dev (iblock x.inum) (store_dinode x (d x.dev (iblock x.inum))))

unfoldable pub idup : ℕ → Action ℕ
idup ip = do
  x ← get_inode ip
  require (not (x.ref == 0))
  modify ip λ y. record y { ref = y.ref + 1 }
  pure ip

-- `balloc` and `bfree` on the state.
unfoldable pub alloc_block : ℕ → Action ℕ
alloc_block dev s = elim (balloc dev s.disk) [
  | none ↦ none
  | some (b, d) ↦ some (b, record s { disk = d })
]

unfoldable pub free_block : ℕ → ℕ → Action (Unit {0})
free_block dev b s = elim (bfree dev b s.disk) [
  | none ↦ none
  | some d ↦ some (tt, record s { disk = d })
]
