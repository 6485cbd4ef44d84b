-- ===== src/Fs/Cache.antt =====
-- The cache of disk blocks: fs/cache.c. A pointer to a buffer is its index in `cache.buf`, and `nbuf`
-- is the head of the list. A call of the driver is a transfer that is over when `iderw` comes back.
use jix.Base.{
  ℕ, zero, suc, ◌+◌, Bool, true, false, not, ◌&&◌, Option, none, some, ltb, ◌==◌, if◌then◌else◌,
  update,
}
use jix.Fs.Block.{Block, Disk, set_block}

abbrev pub nbuf : ℕ
nbuf = 64

abbrev pub head : ℕ
head = nbuf

-- `struct buf` less its links, with its flags `B_VALID` and `B_DIRTY`; `dev` is `none` for -1.
pub record Buf : Type 0 where
  pub valid : Bool
  pub dirty : Bool
  pub dev : Option ℕ
  pub sector : ℕ
  pub bytes : Block

pub record Cache : Type 0 where
  pub buf : ℕ → Buf
  pub next : ℕ → ℕ
  pub prev : ℕ → ℕ

abbrev pub set_next : ℕ → ℕ → Cache → Cache
set_next b v c = record c { next = update c.next b v }

abbrev pub set_prev : ℕ → ℕ → Cache → Cache
set_prev b v c = record c { prev = update c.prev b v }

abbrev pub set_buf : ℕ → Buf → Cache → Cache
set_buf b x c = record c { buf = update c.buf b x }

-- The four assignments that put `b` in front.
unfoldable pub push : ℕ → Cache → Cache
push b c =
    let c1 = set_next b (c.next head) c in
    let c2 = set_prev b head c1 in let c3 = set_prev (c2.next head) b c2 in set_next head b c3

-- The loop of `binit`, with `n` buffers left from `b` on.
unfoldable pub binit_from : ℕ → ℕ → Cache → Cache
binit_from zero b c = c
binit_from (suc n) b c =
    binit_from n (b + 1) (push b (set_buf b (record (c.buf b) { dev = none }) c))

unfoldable pub binit : Cache → Cache
binit c = set_prev head 0 (binit_from nbuf 0 (set_next head head c))

abbrev pub is_for : ℕ → ℕ → Buf → Bool
is_for dev sector x = elim x.dev [ none ↦ false | some d ↦ d == dev && x.sector == sector ]

-- The loop of `bget` from buffer `b` on, with fuel.
unfoldable pub search_from : ℕ → ℕ → ℕ → ℕ → Cache → Option ℕ
search_from zero dev sector b c = none
search_from (suc f) dev sector b c =
    let rest = search_from f dev sector (c.next b) c in
    if b == head then none else if is_for dev sector (c.buf b) then some b else rest

-- `bget` of a block that is not cached takes the last buffer.
unfoldable pub take_last : ℕ → ℕ → Cache → ℕ × Cache
take_last dev sector c =
    let b = c.prev head in
    (
      b,
      set_buf b (record (c.buf b) { dev = some dev; sector = sector; valid = false; dirty = false })
          c,
    )

abbrev pub got : ℕ → ℕ → Cache → Option ℕ → ℕ × Cache
got dev sector c (some b) = (b, c)
got dev sector c none = take_last dev sector c

unfoldable pub bget : ℕ → ℕ → Cache → ℕ × Cache
bget dev sector c = got dev sector c (search_from (nbuf + 1) dev sector (c.next head) c)

-- What the interrupt leaves of a buffer of device `dev` with a transfer to make, and of the disk.
abbrev pub transferred : ℕ → Buf → Disk → Buf × Disk
transferred dev x d =
    if x.dirty
    then (record x { valid = true; dirty = false }, set_block d dev x.sector x.bytes)
    else (record x { valid = true; bytes = d dev x.sector }, d)

-- Not `b->dev >= nr_hd`, where the device is an `int` and `none` is -1.
abbrev pub is_there : ℕ → Option ℕ → Bool
is_there nr_hd none = true
is_there nr_hd (some d) = ltb d nr_hd

-- What `iderw`, with `nr_hd` disks, leaves of a buffer of device `dev` and the disk; `none` is the
-- panic.
unfoldable pub iderw : ℕ → ℕ → Buf → Disk → Option (Buf × Disk)
iderw nr_hd dev x d =
    if x.valid && not x.dirty
    then some (x, d)
    else if is_there nr_hd x.dev
    then some (transferred dev x d)
    else none

unfoldable pub bread : ℕ → ℕ → ℕ → Cache × Disk → Option (ℕ × Cache × Disk)
bread nr_hd dev sector (c, d) =
    let (b, c') = bget dev sector c in
    if (c'.buf b).valid then some (b, c', d) else elim (iderw nr_hd dev (c'.buf b) d) [
      | none ↦ none
      | some (x, d') ↦ some (b, set_buf b x c', d')
    ]

unfoldable pub bwrite : ℕ → ℕ → ℕ → Cache × Disk → Option (Cache × Disk)
bwrite nr_hd dev b (c, d) = elim (iderw nr_hd dev (record (c.buf b) { dirty = true }) d) [
  | none ↦ none
  | some (x, d') ↦ some (set_buf b x c, d')
]

unfoldable pub unlink : ℕ → Cache → Cache
unlink b c = let c1 = set_prev (c.next b) (c.prev b) c in set_next (c1.prev b) (c1.next b) c1

unfoldable pub brelse : ℕ → Cache → Cache
brelse b c = push b (unlink b c)
