-- ===== src/Fs/UniqueData.antt =====
-- The operations on the contents of inodes keep the entries of the table apart: fs/inode.c.
use jix.Base.{ℕ, zero, suc, ◌+◌, ◌-◌, refl, List, arith, length, drop}
use jix.Fs.Inode.{modify}
use jix.Fs.InodeData.{
  chunk_at, set_addr, direct, indirect, bmap, free_direct, free_indirect, free_rest, set_size,
  itrunc, iput_last, drop_ref, iput, read_blocks, read_tty, write_tty, readi, write_blocks, grow,
  writei,
}
use jix.Fs.Keeps.{Keeps}
use jix.Fs.Unique.{IsUnique, Keeps-modify, Keeps-iupdate, unique_rules}

Keeps-set_addr : (ip i addr : ℕ) → Keeps IsUnique (set_addr ip i addr)
unfolding set_addr
Keeps-set_addr ip i addr = Keeps-modify ip _ λ x. (refl, refl, λ e. e)

Keeps-set_size : (ip n : ℕ) → Keeps IsUnique (set_size ip n)
unfolding set_size
Keeps-set_size ip n = Keeps-modify ip _ λ x. (refl, refl, λ e. e)

Keeps-drop_ref : (ip : ℕ) → Keeps IsUnique (drop_ref ip)
unfolding drop_ref
Keeps-drop_ref ip = Keeps-modify ip _ λ x. (refl, refl, λ e. omega arith)

ruleset data_rules = (unique_rules, Keeps-set_addr, Keeps-set_size, Keeps-drop_ref)

Keeps-direct : (ip i : ℕ) → Keeps IsUnique (direct ip i)
unfolding direct
Keeps-direct ip i = search data_rules depth 12

Keeps-indirect : (dev n i : ℕ) → Keeps IsUnique (indirect dev n i)
unfolding indirect
Keeps-indirect dev n i = search data_rules depth 12

Keeps-bmap : (ip bn : ℕ) → Keeps IsUnique (bmap ip bn)
unfolding bmap
Keeps-bmap ip bn = search (data_rules, Keeps-direct, Keeps-indirect) depth 12

Keeps-free_direct : (ip n i : ℕ) → Keeps IsUnique (free_direct ip n i)
unfolding free_direct
Keeps-free_direct ip zero i = search data_rules depth 12
Keeps-free_direct ip (suc n) i =
    let rest = Keeps-free_direct ip n (i + 1) in search data_rules depth 12

Keeps-free_indirect : (dev b n i : ℕ) → Keeps IsUnique (free_indirect dev b n i)
unfolding free_indirect
Keeps-free_indirect dev b zero i = search data_rules depth 12
Keeps-free_indirect dev b (suc n) i =
    let rest = Keeps-free_indirect dev b n (i + 1) in search data_rules depth 12

Keeps-free_rest : (ip : ℕ) → Keeps IsUnique (free_rest ip)
unfolding free_rest
Keeps-free_rest ip = search (data_rules, Keeps-free_indirect) depth 12

Keeps-itrunc : (ip : ℕ) → Keeps IsUnique (itrunc ip)
unfolding itrunc
Keeps-itrunc ip = search (data_rules, Keeps-free_direct, Keeps-free_rest, Keeps-iupdate) depth 12

Keeps-set_type : (ip n : ℕ) → Keeps IsUnique (modify ip λ x. record x { type = n })
Keeps-set_type ip n = Keeps-modify ip _ λ x. (refl, refl, λ e. e)

Keeps-iput_last : (ip : ℕ) → Keeps IsUnique (iput_last ip)
unfolding iput_last
Keeps-iput_last ip = search (data_rules, Keeps-itrunc, Keeps-set_type, Keeps-iupdate) depth 12

pub Keeps-iput : (ip : ℕ) → Keeps IsUnique (iput ip)
unfolding iput
Keeps-iput ip = search (data_rules, Keeps-iput_last) depth 12

Keeps-read_blocks : (ip f off left : ℕ) → Keeps IsUnique (read_blocks ip f off left)
unfolding read_blocks
Keeps-read_blocks ip zero off left = search data_rules depth 12
Keeps-read_blocks ip (suc f) off left =
    let rest = Keeps-read_blocks ip f (off + chunk_at off left) (left - chunk_at off left) in
    search (data_rules, Keeps-bmap) depth 12

Keeps-read_tty : (n : ℕ) → Keeps IsUnique (read_tty n)
unfolding read_tty
Keeps-read_tty n = record { at = λ s h. record { one = h.one } }

Keeps-write_tty : (l : List ℕ) → Keeps IsUnique (write_tty l)
unfolding write_tty
Keeps-write_tty l = record { at = λ s h. record { one = h.one } }

pub Keeps-readi : (ip off n : ℕ) → Keeps IsUnique (readi ip off n)
unfolding readi
Keeps-readi ip off n = search (data_rules, Keeps-read_blocks, Keeps-read_tty) depth 12

Keeps-write_blocks : (ip f off : ℕ) (l : List ℕ) → Keeps IsUnique (write_blocks ip f off l)
unfolding write_blocks
Keeps-write_blocks ip zero off l = search data_rules depth 12
Keeps-write_blocks ip (suc f) off l =
    let m = chunk_at off (length l) in
    let rest = Keeps-write_blocks ip f (off + m) (drop m l) in
    search (data_rules, Keeps-bmap) depth 12

Keeps-grow : (ip n off : ℕ) → Keeps IsUnique (grow ip n off)
unfolding grow
Keeps-grow ip n off = search (data_rules, Keeps-iupdate) depth 12

pub Keeps-writei : (ip : ℕ) (l : List ℕ) (off : ℕ) → Keeps IsUnique (writei ip l off)
unfolding writei
Keeps-writei ip l off =
    search (data_rules, Keeps-write_blocks, Keeps-grow, Keeps-write_tty) depth 12
