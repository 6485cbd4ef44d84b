-- ===== src/Fs/CacheGet.antt =====
-- What `bget` of fs/cache.c gives, by the list of buffers.
use jix.Base.{
  ℕ, zero, suc, ◌+◌, ◌≤◌, ◌<◌, ◌≡◌, refl, ap, ◌∙◌, ◌≢◌, inl, inr, true, false, Option, none, some,
  List, [], ◌∷◌, arith, ◌==◌, if◌then◌else◌, Bool-cases, length,
}
use jix.Fs.Cache.{Cache, Buf, head, nbuf, set_buf, is_for, search_from, take_last, got, bget}
use jix.Fs.CacheRing.{NotIn, Linked, IsRing, last_of, Linked-prev}

-- The first buffer of a list that is for a block.
unfoldable pub cached : ℕ → ℕ → (ℕ → Buf) → List ℕ → Option ℕ
cached dev sector buf [] = none
cached dev sector buf (b ∷ l) =
    let rest = cached dev sector buf l in if is_for dev sector (buf b) then some b else rest

search_from-cached :
    (f dev sector a : ℕ) (c : Cache) (l : List ℕ)
    → Linked c.next c.prev a l head
    → NotIn head l
    → length l < f
    → search_from f dev sector (c.next a) c ≡ cached dev sector c.buf l
unfolding search_from cached
search_from-cached zero dev sector a c l h out lt = absurd (omega arith)
search_from-cached (suc f) dev sector a c [] (e, p) out lt = rw e refl
search_from-cached (suc f) dev sector a c (x ∷ l) (e, p, h) (nx, out) lt =
    let ne : (x == head) ≡ false = ground arith in
    let rest = search_from-cached f dev sector x c l h out (omega arith) in rw (e, ne, rest) refl

-- Buffer `b` turned to another block, with nothing read yet.
abbrev pub retarget : ℕ → ℕ → ℕ → Cache → Cache
retarget dev sector b c =
    set_buf b (record (c.buf b) { dev = some dev; sector = sector; valid = false; dirty = false }) c

abbrev pub chosen : ℕ → ℕ → Cache → ℕ → Option ℕ → ℕ × Cache
chosen dev sector c tail (some b) = (b, c)
chosen dev sector c tail none = (tail, retarget dev sector tail c)

got-chosen :
    (dev sector tail : ℕ) (c : Cache) (r : Option ℕ)
    → c.prev head ≡ tail
    → got dev sector c r ≡ chosen dev sector c tail r
unfolding take_last
got-chosen dev sector tail c none e = rw e refl
got-chosen dev sector tail c (some b) e = refl

-- In a ring of at most `NBUF` buffers `bget` gives the buffer nearest to the front that is for the
-- block, and changes nothing; when there is none it gives the buffer at the tail, turned to the block.
pub bget-chosen :
    (dev sector : ℕ) (c : Cache) (l : List ℕ)
    → IsRing c l
    → length l ≤ nbuf
    → bget dev sector c ≡ chosen dev sector c (last_of head l) (cached dev sector c.buf l)
unfolding bget
bget-chosen dev sector c l r le =
    let (out, d) = r.distinct in
    let found = search_from-cached (nbuf + 1) dev sector head c l r.linked out (omega arith) in
    ap (got dev sector c) found
    ∙ got-chosen dev sector (last_of head l) c (cached dev sector c.buf l)
        (Linked-prev c.next c.prev head l head r.linked)

-- A buffer turned to one block is not for another.
cached-retarget :
    (dev s t b : ℕ) (c : Cache) (l : List ℕ)
    → s ≢ t
    → cached dev t c.buf l ≡ none
    → cached dev t (retarget dev s b c).buf l ≡ none
unfolding cached
cached-retarget dev s t b c [] ne h = refl
cached-retarget dev s t b c (x ∷ l) ne h = elim (Bool-cases (is_for dev t (c.buf x))) [
  | inl hit ↦ let bad : some x ≡ none = rw hit at h in absurd (cc)
  | inr miss ↦
      let h' : cached dev t c.buf l ≡ none = rw miss at h in
      let rest = cached-retarget dev s t b c l ne h' in
      let apart : (s == t) ≡ false = ground arith in
      elim (Bool-cases (b == x)) [
        | inl e ↦ let same : (dev == dev) ≡ true = ground arith in rw (e, same, apart) rest
        | inr away ↦ rw (away, miss) rest
      ]
]

-- In a ring of at most `NBUF` buffers, two calls of `bget` for two blocks of a device that are not
-- cached, with no `brelse` between them, give one and the same buffer, the one at the tail: the first
-- caller's buffer is then for the block of the second.
pub bget-bget :
    (dev s t : ℕ) (c : Cache) (l : List ℕ)
    → IsRing c l
    → length l ≤ nbuf
    → s ≢ t
    → cached dev s c.buf l ≡ none
    → cached dev t c.buf l ≡ none
    → let c1 = retarget dev s (last_of head l) c in
      (bget dev s c ≡ (last_of head l, c1))
      × (bget dev t c1 ≡ (last_of head l, retarget dev t (last_of head l) c1))
bget-bget dev s t c l r le ne hs ht =
    let tail = last_of head l in
    let c1 = retarget dev s tail c in
    let r1 : IsRing c1 l = record { linked = r.linked; distinct = r.distinct } in
    (
      bget-chosen dev s c l r le ∙ ap (chosen dev s c tail) hs,
      bget-chosen dev t c1 l r1 le
          ∙ ap (chosen dev t c1 tail) (cached-retarget dev s t tail c l ne ht),
    )
