-- ===== src/Fs/Iget.antt =====
-- `iget` and `iput` of fs/inode.c: what they do to the table of inodes.
use jix.Base.{
  ℕ, ◌+◌, ◌-◌, ◌<◌, ◌≡◌, refl, ap, ◌∙◌, fun_ext, ◌≢◌, inl, inr, true, false, Option, none, some,
  arith, ◌==◌, Bool-cases, Option-cases, find_from, update, update_self, update-ne, find_from-first,
  find_from-some, find_from-none,
}
use jix.Fs.Inode.{Inode, Inodes, ◌>>=◌, ninode, is_at, iget, load_dinode}
use jix.Fs.InodeData.{iput, drop_ref}
use jix.Fs.Unique.{update-either, is_at-true}

-- One reference more to entry `ip`.
abbrev pub one_more : ℕ → Inodes → Inodes
one_more ip s =
    let x = s.inodes ip in record s { inodes = update s.inodes ip (record x { ref = x.ref + 1 }) }

is_at-one_more :
    (dev inum ip j : ℕ) (s : Inodes)
    → is_at dev inum (s.inodes j) ≡ false
    → is_at dev inum (s.inodes ip) ≡ true
    → is_at dev inum ((one_more ip s).inodes j) ≡ false
is_at-one_more dev inum ip j s away here =
    let x = s.inodes ip in
    elim (update-either s.inodes ip j (record x { ref = x.ref + 1 })) [
      | inl (e, new) ↦
          let away' : is_at dev inum (s.inodes ip) ≡ false = rw (← e) at away in
          absurd (ground arith)
      | inr (ne, old) ↦ rw old away
    ]

is_at-new :
    (dev inum : ℕ) (x : Inode) → x.ref ≢ 0 → x.dev ≡ dev → x.inum ≡ inum → is_at dev inum x ≡ true
is_at-new dev inum x a b c = ground arith

-- What `iget` returns is the first entry for the inode.
abbrev IsFirst : ℕ → ℕ → ℕ → Inodes → Type 0
IsFirst dev inum ip s =
    (ip < ninode)
    × (is_at dev inum (s.inodes ip) ≡ true)
    × ((j : ℕ) → j < ip → is_at dev inum (s.inodes j) ≡ false)

iget-first :
    (dev inum ip : ℕ) (s : Inodes)
    → IsFirst dev inum ip s
    → iget dev inum s ≡ some (ip, one_more ip s)
unfolding iget
iget-first dev inum ip s (lt, hit, before) =
    let e : find_from (λ i. is_at dev inum (s.inodes i)) ninode 0 ≡ some ip =
      find_from-first _ ninode 0 ip (omega arith) (omega arith) hit (λ j lo h. before j h) in
    rw (e, iget) refl

IsFirst-one_more :
    (dev inum ip : ℕ) (s : Inodes) → IsFirst dev inum ip s → IsFirst dev inum ip (one_more ip s)
IsFirst-one_more dev inum ip s (lt, hit, before) =
    let x = s.inodes ip in
    let (a, b, c) = is_at-true dev inum x hit in
    let here = update_self s.inodes ip (record x { ref = x.ref + 1 }) in
    (
      lt,
      rw here (is_at-new dev inum (record x { ref = x.ref + 1 }) (omega arith) b c),
      λ j h. is_at-one_more dev inum ip j s (before j h) hit,
    )

IsFirst-loaded :
    (dev inum ip : ℕ) (s : Inodes)
    → ip < ninode
    → ((j : ℕ) → j < ninode → is_at dev inum (s.inodes j) ≡ false)
    → IsFirst dev inum ip (record s { inodes = update s.inodes ip (load_dinode s.disk dev inum) })
IsFirst-loaded dev inum ip s lt new =
    let x = load_dinode s.disk dev inum in
    (
      lt,
      rw (update_self s.inodes ip x) (is_at-new dev inum x (omega arith) refl refl),
      λ j h. rw (update-ne s.inodes ip j x (omega arith)) (new j (omega arith)),
    )

-- What a call of `iget` leaves, unless it panicked.
abbrev Got : ℕ → ℕ → Option (ℕ × Inodes) → Type 0
Got dev inum none = Unit {0}
Got dev inum (some (ip, s)) = IsFirst dev inum ip s

iget-Got : (dev inum : ℕ) (s : Inodes) → Got dev inum (iget dev inum s)
unfolding iget
iget-Got dev inum s = elim (Option-cases (find_from (λ i. is_at dev inum (s.inodes i)) ninode 0)) [
  | inr (ip, e) ↦
      let (lo, hi, hit, before) = find_from-some _ ninode 0 ip e in
      rw (e, iget, Got)
        (IsFirst-one_more dev inum ip s (hi, hit, λ j lt. before j (omega arith) lt))
  | inl e ↦ elim (Option-cases (find_from (λ i. (s.inodes i).ref == 0) ninode 0)) [
    | inl e' ↦ rw (e, e', iget) tt
    | inr (ip, e') ↦
        let (lo, hi, hit, before) = find_from-some _ ninode 0 ip e' in
        rw (e, e', iget, Got)
          (IsFirst-loaded dev inum ip s hi
            λ j lt. find_from-none _ ninode 0 e j (omega arith) (omega arith))
  ]
]

-- When `iget` returns entry `ip`, a second `iget` of the same inode returns the same entry, and all
-- that changes is that the entry, which is in use and is the one for that inode, has a reference more.
pub iget-iget :
    (dev inum ip : ℕ) (s s' : Inodes)
    → iget dev inum s ≡ some (ip, s')
    → (ip < ninode)
      × (is_at dev inum (s'.inodes ip) ≡ true)
      × (iget dev inum s' ≡ some (ip, one_more ip s'))
iget-iget dev inum ip s s' e =
    let h : Got dev inum (iget dev inum s) = iget-Got dev inum s in
    let first : IsFirst dev inum ip s' = rw e at h in
    let (a, b, c) = first in (a, b, iget-first dev inum ip s' first)

-- A table updated twice, back to what it was.
update-undo : {A : Type 0} (f : ℕ → A) (i : ℕ) (a : A) → update (update f i a) i (f i) ≡ f
update-undo f i a = fun_ext λ j. elim (Bool-cases (i == j)) [
  | inl e ↦ let e' : i ≡ j = ground arith in rw (e, ← e') refl
  | inr ne ↦ rw ne refl
]

-- `iput` of an entry with two references at least.
iput-shared :
    (ip : ℕ) (s : Inodes)
    → (s.inodes ip).ref ≢ 0
    → (s.inodes ip).ref ≢ 1
    → iput ip s
      ≡ some (
        tt,
        record s {
          inodes = update s.inodes ip (record (s.inodes ip) { ref = (s.inodes ip).ref - 1 });
        },
      )
unfolding iput ◌>>=◌ drop_ref
iput-shared ip s a b =
    let n0 : ((s.inodes ip).ref == 0) ≡ false = ground arith in
    let n1 : ((s.inodes ip).ref == 1) ≡ false = ground arith in rw (n0, n1) refl

iput-one_more :
    (ip : ℕ) (s : Inodes) → (s.inodes ip).ref ≢ 0 → iput ip (one_more ip s) ≡ some (tt, s)
iput-one_more ip s a =
    let x = s.inodes ip in
    let here = update_self s.inodes ip (record x { ref = x.ref + 1 }) in
    let t : Inodes = one_more ip s in
    let ref : (t.inodes ip).ref ≡ x.ref + 1 = ap (λ (y : Inode). y.ref) here in
    let same : x.ref + 1 - 1 ≡ x.ref = omega arith in
    let back : record (t.inodes ip) { ref = (t.inodes ip).ref - 1 } ≡ x =
      ap (λ (y : Inode). record y { ref = y.ref - 1 }) here
      ∙ ap (λ (n : ℕ). record x { ref = n }) same in
    iput-shared ip t (omega arith) (omega arith)
    ∙ ap (λ (y : Inode). some (tt, record t { inodes = update t.inodes ip y })) back
    ∙ ap (λ (f : ℕ → Inode). some (tt, record s { inodes = f }))
        (update-undo s.inodes ip (record x { ref = x.ref + 1 }))

-- With an entry in use for the inode, `iget` finds one, and `iput` of it puts back the state as it
-- was, whether or not the inode still has links.
iput-iget :
    (dev inum i : ℕ) (s : Inodes)
    → i < ninode
    → is_at dev inum (s.inodes i) ≡ true
    → (ip : ℕ) × (s' : Inodes) × (iget dev inum s ≡ some (ip, s')) × (iput ip s' ≡ some (tt, s))
iput-iget dev inum i s lt hit =
    elim (Option-cases (find_from (λ k. is_at dev inum (s.inodes k)) ninode 0)) [
      | inl e ↦ let miss = find_from-none _ ninode 0 e i (omega arith) (omega arith) in absurd (cc)
      | inr (ip, e) ↦
          let (lo, hi, hit', before) = find_from-some _ ninode 0 ip e in
          let (a, b, c) = is_at-true dev inum (s.inodes ip) hit' in
          let found = iget-first dev inum ip s (hi, hit', λ j h. before j (omega arith) h) in
          (ip, one_more ip s, found, iput-one_more ip s a)
    ]
