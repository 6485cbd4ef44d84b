-- ===== src/Fs/Dinode.antt =====
-- An inode written to the disk and read back: `iupdate` and `iget` of fs/inode.c.
use jix.Base.{
  ℕ, ◌+◌, ◌*◌, ◌^◌, ◌≤◌, ◌<◌, ◌≡◌, refl, ap, ◌∙◌, subst, ◌≢◌, ◌⊎◌, inl, inr, some, arith, ◌==◌,
  Bool-cases,
}
use jix.Fs.Block.{Block, Disk, set_block, get16, get32, put16, put32, iblock}
use jix.Fs.Inode.{Inode, Inodes, ◌>>=◌, dinode_at, load_dinode, store_dinode, iupdate, ndirect}
use jix.Fs.Bitmap.{set_block-same, set_block-other}
use jix.Fs.Words.{
  put16-outside, put32-outside, get16-put16, get32-put32, get16-same, get32-same, put_addrs-outside,
  get32-put_addrs,
}

-- What the disk keeps of an inode.
pub record SameDinode (x y : Inode) : Type 0 where
  pub type : x.type ≡ y.type
  pub nlink : x.nlink ≡ y.nlink
  pub major : x.major ≡ y.major
  pub minor : x.minor ≡ y.minor
  pub size : x.size ≡ y.size
  pub addrs : (i : ℕ) → i < ndirect + 1 → x.addrs i ≡ y.addrs i

-- Fields within their words.
pub record InRange (x : Inode) : Type 0 where
  pub type : x.type < 2 ^ 16
  pub nlink : x.nlink < 2 ^ 16
  pub major : x.major < 2 ^ 16
  pub minor : x.minor < 2 ^ 16
  pub size : x.size < 2 ^ 32
  pub addrs : (i : ℕ) → i < ndirect + 1 → x.addrs i < 2 ^ 32

module _ (x : Inode) (b : Block) where
  abbrev at : ℕ
  at = dinode_at x.inum

  abbrev halves : Block
  halves =
      put16 (put16 (put16 (put16 b at x.type) (at + 2) x.nlink) (at + 4) x.major) (at + 6) x.minor

  abbrev fields : Block
  fields = put32 halves (at + 8) x.size

  store_dinode-outside : (p : ℕ) → (p < at) ⊎ (at + 64 ≤ p) → store_dinode x b p ≡ b p
  unfolding store_dinode
  store_dinode-outside p h =
      let b1 = put16 b at x.type in
      let b2 = put16 b1 (at + 2) x.nlink in
      let b3 = put16 b2 (at + 4) x.major in
      put_addrs-outside (ndirect + 1) 0 x.addrs (at + 12) fields p (ground arith)
      ∙ put32-outside halves (at + 8) x.size p (ground arith)
      ∙ put16-outside b3 (at + 6) x.minor p (ground arith)
      ∙ put16-outside b2 (at + 4) x.major p (ground arith)
      ∙ put16-outside b1 (at + 2) x.nlink p (ground arith)
      ∙ put16-outside b at x.type p (ground arith)

  store_dinode-low : (p : ℕ) → p < at + 12 → store_dinode x b p ≡ fields p
  unfolding store_dinode
  store_dinode-low p lt =
      put_addrs-outside (ndirect + 1) 0 x.addrs (at + 12) fields p (inl (omega arith))

  store_dinode-half : (p : ℕ) → p < at + 8 → store_dinode x b p ≡ halves p
  store_dinode-half p lt =
      store_dinode-low p (omega arith) ∙ put32-outside halves (at + 8) x.size p (inl lt)

  -- Field `p` read after the words behind it are written.
  stored-minor : x.minor < 2 ^ 16 → get16 (store_dinode x b) (at + 6) ≡ x.minor
  stored-minor lt =
      let b3 = put16 (put16 (put16 b at x.type) (at + 2) x.nlink) (at + 4) x.major in
      get16-same (store_dinode x b) halves (at + 6) (store_dinode-half _ (omega arith))
        (store_dinode-half _ (omega arith))
      ∙ get16-put16 b3 (at + 6) x.minor lt

  stored-major : x.major < 2 ^ 16 → get16 (store_dinode x b) (at + 4) ≡ x.major
  stored-major lt =
      let b2 = put16 (put16 b at x.type) (at + 2) x.nlink in
      let b3 = put16 b2 (at + 4) x.major in
      let old : (p : ℕ) → p < at + 6 → store_dinode x b p ≡ b3 p =
        λ p h. store_dinode-half p (omega arith) ∙ put16-outside b3 (at + 6) x.minor p (inl h) in
      get16-same (store_dinode x b) b3 (at + 4) (old _ (omega arith)) (old _ (omega arith))
      ∙ get16-put16 b2 (at + 4) x.major lt

  stored-nlink : x.nlink < 2 ^ 16 → get16 (store_dinode x b) (at + 2) ≡ x.nlink
  stored-nlink lt =
      let b1 = put16 b at x.type in
      let b2 = put16 b1 (at + 2) x.nlink in
      let b3 = put16 b2 (at + 4) x.major in
      let old : (p : ℕ) → p < at + 4 → store_dinode x b p ≡ b2 p = λ p h.
        store_dinode-half p (omega arith)
        ∙ put16-outside b3 (at + 6) x.minor p (inl (omega arith))
        ∙ put16-outside b2 (at + 4) x.major p (inl h) in
      get16-same (store_dinode x b) b2 (at + 2) (old _ (omega arith)) (old _ (omega arith))
      ∙ get16-put16 b1 (at + 2) x.nlink lt

  stored-type : x.type < 2 ^ 16 → get16 (store_dinode x b) at ≡ x.type
  stored-type lt =
      let b1 = put16 b at x.type in
      let b2 = put16 b1 (at + 2) x.nlink in
      let b3 = put16 b2 (at + 4) x.major in
      let old : (p : ℕ) → p < at + 2 → store_dinode x b p ≡ b1 p = λ p h.
        store_dinode-half p (omega arith)
        ∙ put16-outside b3 (at + 6) x.minor p (inl (omega arith))
        ∙ put16-outside b2 (at + 4) x.major p (inl (omega arith))
        ∙ put16-outside b1 (at + 2) x.nlink p (inl h) in
      get16-same (store_dinode x b) b1 at (old _ (omega arith)) (old _ (omega arith))
      ∙ get16-put16 b at x.type lt

  stored-size : x.size < 2 ^ 32 → get32 (store_dinode x b) (at + 8) ≡ x.size
  stored-size lt =
      get32-same (store_dinode x b) fields (at + 8) (λ p l u. store_dinode-low p (omega arith))
      ∙ get32-put32 halves (at + 8) x.size lt

  stored-addrs :
      (i : ℕ)
      → i < ndirect + 1
      → x.addrs i < 2 ^ 32
      → get32 (store_dinode x b) (at + 12 + 4 * i) ≡ x.addrs i
  unfolding store_dinode
  stored-addrs i h lt =
      get32-put_addrs (ndirect + 1) 0 x.addrs (at + 12) fields i (omega arith) (omega arith) lt

-- The disk that `iupdate` leaves, and the block with the inode there.
abbrev synced : Inode → Disk → Disk
synced x d = set_block d x.dev (iblock x.inum) (store_dinode x (d x.dev (iblock x.inum)))

load-stored :
    (x : Inode) (d : Disk) → InRange x → SameDinode (load_dinode (synced x d) x.dev x.inum) x
load-stored x d r =
    let b = d x.dev (iblock x.inum) in
    let e : synced x d x.dev (iblock x.inum) ≡ store_dinode x b =
      set_block-same d x.dev (iblock x.inum) (store_dinode x b) in
    let o = dinode_at x.inum in
    record {
      type = ap (λ (c : Block). get16 c o) e ∙ stored-type x b r.type;
      nlink = ap (λ (c : Block). get16 c (o + 2)) e ∙ stored-nlink x b r.nlink;
      major = ap (λ (c : Block). get16 c (o + 4)) e ∙ stored-major x b r.major;
      minor = ap (λ (c : Block). get16 c (o + 6)) e ∙ stored-minor x b r.minor;
      size = ap (λ (c : Block). get32 c (o + 8)) e ∙ stored-size x b r.size;
      addrs = λ i h.
          ap (λ (c : Block). get32 c (o + 12 + 4 * i)) e ∙ stored-addrs x b i h (r.addrs i h);
    }

-- Two blocks that agree on an inode.
load-same :
    (d e : Disk) (dev inum : ℕ)
    → ((p : ℕ)
        → dinode_at inum ≤ p
        → p < dinode_at inum + 64
        → d dev (iblock inum) p ≡ e dev (iblock inum) p)
    → SameDinode (load_dinode d dev inum) (load_dinode e dev inum)
load-same d e dev inum h =
    let b = d dev (iblock inum) in
    let c = e dev (iblock inum) in
    let half : (k : ℕ) → k < 8 → get16 b (dinode_at inum + k) ≡ get16 c (dinode_at inum + k) =
      λ k lt.
        get16-same b c (dinode_at inum + k) (h _ (omega arith) (omega arith))
          (h _ (omega arith) (omega arith)) in
    record {
      type =
          get16-same b c (dinode_at inum) (h _ (omega arith) (omega arith))
            (h _ (omega arith) (omega arith));
      nlink = half 2 (omega arith);
      major = half 4 (omega arith);
      minor = half 6 (omega arith);
      size = get32-same b c _ λ p l u. h p (omega arith) (omega arith);
      addrs = λ i lt. get32-same b c _ λ p l u. h p (omega arith) (omega arith);
    }

load-other :
    (x : Inode) (d : Disk) (j : ℕ)
    → j ≢ x.inum
    → SameDinode (load_dinode (synced x d) x.dev j) (load_dinode d x.dev j)
load-other x d j ne =
    let b = d x.dev (iblock x.inum) in
    load-same (synced x d) d x.dev j λ p l u. elim (Bool-cases (iblock x.inum == iblock j)) [
      | inr away ↦
          let away' : iblock x.inum ≢ iblock j = ground arith in
          ap (λ (c : Block). c p)
            (set_block-other d x.dev (iblock x.inum) (iblock j) (store_dinode x b) away')
      | inl here ↦
          let here' : iblock x.inum ≡ iblock j = ground arith in
          let out : (p < dinode_at x.inum) ⊎ (dinode_at x.inum + 64 ≤ p) = ground arith in
          subst (λ n. synced x d x.dev n p ≡ d x.dev n p) here'
            (ap (λ (c : Block). c p) (set_block-same d x.dev (iblock x.inum) (store_dinode x b))
              ∙ store_dinode-outside x b p out)
    ]

-- `iupdate` of an inode whose fields fit their words comes back with the table of inodes unchanged,
-- and from the disk then `iget` would load the fields that the inode has in memory; of every other
-- inode of that device it would load what it would have loaded before.
pub iupdate-load :
    (ip j : ℕ) (s : Inodes)
    → InRange (s.inodes ip)
    → j ≢ (s.inodes ip).inum
    → (s' : Inodes) × (iupdate ip s ≡ some (tt, s'))
      × (s'.inodes ≡ s.inodes)
      × SameDinode (load_dinode s'.disk (s.inodes ip).dev (s.inodes ip).inum) (s.inodes ip)
      × SameDinode
          (load_dinode s'.disk (s.inodes ip).dev j)
          (load_dinode s.disk (s.inodes ip).dev j)
unfolding iupdate ◌>>=◌
iupdate-load ip j s r ne =
    let x = s.inodes ip in
    (
      record s { disk = synced x s.disk },
      refl,
      refl,
      load-stored x s.disk r,
      load-other x s.disk j ne,
    )
