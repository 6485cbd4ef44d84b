-- ===== src/Fs/Unique.antt =====
-- No two live entries of the table of inodes stand for the same inode: fs/inode.c.
use jix.Base.{
  ℕ, ◌<◌, ◌≡◌, refl, sym, ap, ◌∙◌, ◌≢◌, ◌⊎◌, inl, inr, true, false, arith, ◌==◌, Bool-cases,
  Option-cases, find_from, update, find_from-some, find_from-none,
}
use jix.Fs.Block.{Disk, balloc, bfree}
use jix.Fs.Inode.{
  Inode, Inodes, ◌>>=◌, modify, put_disk, ninode, is_at, iget, load_dinode, ialloc, iupdate, idup,
  alloc_block, free_block,
}
use jix.Fs.Keeps.{Holds, Keeps, keeps_rules}

-- Entries that stand for the same inode, and are in use, are one entry.
pub record IsUnique (s : Inodes) : Type 0 where
  pub one :
      (i j : ℕ)
      → i < ninode
      → j < ninode
      → (s.inodes i).ref ≢ 0
      → (s.inodes j).ref ≢ 0
      → (s.inodes i).dev ≡ (s.inodes j).dev
      → (s.inodes i).inum ≡ (s.inodes j).inum
      → i ≡ j

-- An update that keeps which inode the entry stands for, and does not revive it.
abbrev pub KeepsKey : (Inode → Inode) → Type 0
KeepsKey g = (x : Inode) → ((g x).dev ≡ x.dev) × ((g x).inum ≡ x.inum) × (x.ref ≡ 0 → (g x).ref ≡ 0)

-- Tables with the same live entries, or fewer.
IsUnique-fewer :
    (s s' : Inodes)
    → ((i : ℕ)
        → (s'.inodes i).ref ≢ 0
        → ((s.inodes i).ref ≢ 0)
          × ((s'.inodes i).dev ≡ (s.inodes i).dev)
          × ((s'.inodes i).inum ≡ (s.inodes i).inum))
    → IsUnique s
    → IsUnique s'
IsUnique-fewer s s' same h = record {
  one = λ i j lt lt' live live' e e'.
      let (a, b, c) = same i live in
      let (a', b', c') = same j live' in h.one i j lt lt' a a' (sym b ∙ e ∙ b') (sym c ∙ e' ∙ c');
}

-- An entry of an updated table: the new one, or an old one.
pub update-either :
    {A : Type 0} (f : ℕ → A) (i j : ℕ) (a : A)
    → ((i ≡ j) × (update f i a j ≡ a)) ⊎ ((i ≢ j) × (update f i a j ≡ f j))
update-either f i j a = elim (Bool-cases (i == j)) [
  | inl e ↦ inl (ground arith, rw e refl)
  | inr ne ↦ let ne' : i ≢ j = ground arith in inr (ne', rw ne refl)
]

pub Keeps-modify : (ip : ℕ) (g : Inode → Inode) → KeepsKey g → Keeps IsUnique (modify ip g)
unfolding modify
Keeps-modify ip g k = record {
  at = λ s h.
      IsUnique-fewer s _
        (λ i live. elim (update-either s.inodes ip i (g (s.inodes ip))) [
          | inl (e, new) ↦
              let (a, b, c) = k (s.inodes ip) in
              let live' : (g (s.inodes ip)).ref ≢ 0 = rw new at live in
              rw (new, ← e) (λ z. live' (c z), a, b)
          | inr (ne, old) ↦
              let live2 : (s.inodes i).ref ≢ 0 = rw old at live in rw old (live2, refl, refl)
        ])
        h;
}

pub Keeps-put_disk : (d : Disk) → Keeps IsUnique (put_disk d)
unfolding put_disk
Keeps-put_disk d = record { at = λ s h. record { one = h.one } }

-- A live entry rewritten with the same key.
IsUnique-alive :
    (s : Inodes) (ip : ℕ) (x : Inode)
    → (s.inodes ip).ref ≢ 0
    → x.dev ≡ (s.inodes ip).dev
    → x.inum ≡ (s.inodes ip).inum
    → IsUnique s
    → IsUnique (record s { inodes = update s.inodes ip x })
IsUnique-alive s ip x alive a b h =
    IsUnique-fewer s _
      (λ i live. elim (update-either s.inodes ip i x) [
        | inl (e, new) ↦ rw (new, ← e) (alive, a, b)
        | inr (ne, old) ↦
            let live' : (s.inodes i).ref ≢ 0 = rw old at live in rw old (live', refl, refl)
      ])
      h

pub is_at-true :
    (dev inum : ℕ) (x : Inode)
    → is_at dev inum x ≡ true
    → (x.ref ≢ 0) × (x.dev ≡ dev) × (x.inum ≡ inum)
is_at-true dev inum x h = ground arith

is_at-false :
    (dev inum : ℕ) (x : Inode)
    → is_at dev inum x ≡ false
    → x.ref ≢ 0
    → x.dev ≡ dev
    → x.inum ≡ inum
    → ⊥
is_at-false dev inum x h live a b = ground arith

-- An entry filled with an inode that no live entry stands for.
IsUnique-new :
    (s : Inodes) (ip : ℕ) (x : Inode)
    → ((j : ℕ) → j < ninode → is_at x.dev x.inum (s.inodes j) ≡ false)
    → IsUnique s
    → IsUnique (record s { inodes = update s.inodes ip x })
IsUnique-new s ip x new h = record {
  one = λ i j lt lt' live live' e e'. elim (update-either s.inodes ip i x) [
    | inl (here, a) ↦ elim (update-either s.inodes ip j x) [
      | inl (here', b) ↦ sym here ∙ here'
      | inr (apart, b) ↦ absurd (
          is_at-false x.dev x.inum (s.inodes j) (new j lt') (rw b at live')
            (sym (ap (λ (y : Inode). y.dev) b) ∙ sym e ∙ ap (λ (y : Inode). y.dev) a)
            (sym (ap (λ (y : Inode). y.inum) b) ∙ sym e' ∙ ap (λ (y : Inode). y.inum) a))
    ]
    | inr (apart, a) ↦ elim (update-either s.inodes ip j x) [
      | inl (here', b) ↦ absurd (
          is_at-false x.dev x.inum (s.inodes i) (new i lt) (rw a at live)
            (sym (ap (λ (y : Inode). y.dev) a) ∙ e ∙ ap (λ (y : Inode). y.dev) b)
            (sym (ap (λ (y : Inode). y.inum) a) ∙ e' ∙ ap (λ (y : Inode). y.inum) b))
      | inr (apart', b) ↦
          h.one i j lt lt' (rw a at live) (rw b at live')
            (sym (ap (λ (y : Inode). y.dev) a) ∙ e ∙ ap (λ (y : Inode). y.dev) b)
            (sym (ap (λ (y : Inode). y.inum) a) ∙ e' ∙ ap (λ (y : Inode). y.inum) b)
    ]
  ];
}

iget-Holds : (dev inum : ℕ) (s : Inodes) → IsUnique s → Holds IsUnique (iget dev inum s)
unfolding iget
iget-Holds dev inum s h =
    elim (Option-cases (find_from (λ i. is_at dev inum (s.inodes i)) ninode 0)) [
      | inr (ip, e) ↦
          let (lo, hi, hit, before) = find_from-some _ ninode 0 ip e in
          let (a, b, c) = is_at-true dev inum (s.inodes ip) hit in
          rw (e, iget) (IsUnique-alive s ip _ a refl refl h)
      | inl e ↦ elim (Option-cases (find_from (λ i. (s.inodes i).ref == 0) ninode 0)) [
        | inl e' ↦ rw (e, e', iget) tt
        | inr (ip, e') ↦
            rw (e, e', iget)
              (IsUnique-new s ip (load_dinode s.disk dev inum)
                (λ j lt. find_from-none _ ninode 0 e j (omega arith) (omega arith)) h)
      ]
    ]

pub Keeps-iget : (dev inum : ℕ) → Keeps IsUnique (iget dev inum)
Keeps-iget dev inum = record { at = iget-Holds dev inum }

pub Keeps-idup : (ip : ℕ) → Keeps IsUnique (idup ip)
unfolding idup ◌>>=◌
Keeps-idup ip = record {
  at = λ s h. elim (Bool-cases ((s.inodes ip).ref == 0)) [
    | inl e ↦ rw e tt
    | inr e ↦
        let alive : (s.inodes ip).ref ≢ 0 = ground arith in
        rw e (IsUnique-alive s ip _ alive refl refl h)
  ];
}

pub Keeps-alloc_block : (dev : ℕ) → Keeps IsUnique (alloc_block dev)
unfolding alloc_block
Keeps-alloc_block dev = record {
  at = λ s h. elim (Option-cases (balloc dev s.disk)) [
    | inl e ↦ rw (e, Holds) tt
    | inr ((b, d), e) ↦ rw (e, Holds) (record { one = h.one })
  ];
}

pub Keeps-free_block : (dev b : ℕ) → Keeps IsUnique (free_block dev b)
unfolding free_block
Keeps-free_block dev b = record {
  at = λ s h. elim (Option-cases (bfree dev b s.disk)) [
    | inl e ↦ rw (e, Holds) tt
    | inr (d, e) ↦ rw (e, Holds) (record { one = h.one })
  ];
}

pub ruleset unique_rules =
    (keeps_rules, Keeps-put_disk, Keeps-iget, Keeps-idup, Keeps-alloc_block, Keeps-free_block)

pub Keeps-ialloc : (dev type : ℕ) → Keeps IsUnique (ialloc dev type)
unfolding ialloc
Keeps-ialloc dev type = search unique_rules

pub Keeps-iupdate : (ip : ℕ) → Keeps IsUnique (iupdate ip)
unfolding iupdate
Keeps-iupdate ip = search unique_rules
