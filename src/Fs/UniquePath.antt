-- ===== src/Fs/UniquePath.antt =====
-- The operations on directories, paths and links keep the entries of the table of inodes apart:
-- fs/inode.c and fs/do_fs.c.
use jix.Base.{ℕ, zero, suc, ◌+◌, refl, Bool, Option, List}
use jix.Fs.Inode.{Action, modify}
use jix.Fs.Dir.{
  read_dirent, lookup_from, dirlookup, free_from, dirent_size, get_stale, add_entry, dirlink,
}
use jix.Fs.Namei.{
  enter, at_end, walk, read_cwd, put_cwd, get_cwd, namex, namei, add_nlink, must_link, link_dots,
  create_in, present, icreate,
}
use jix.Fs.Link.{
  undo_link, link_fails, link_into, do_link, empty_from, isdirempty, is_full_dir, remove_entry,
  unlink_from, do_unlink,
}
use jix.Fs.Keeps.{Keeps}
use jix.Fs.Unique.{IsUnique, Keeps-modify, Keeps-ialloc, Keeps-iupdate, unique_rules}
use jix.Fs.UniqueData.{Keeps-iput, Keeps-readi, Keeps-writei}

ruleset path_rules =
    (unique_rules, Keeps-ialloc, Keeps-iupdate, Keeps-iput, Keeps-readi, Keeps-writei)

Keeps-read_dirent : (dp off : ℕ) → Keeps IsUnique (read_dirent dp off)
unfolding read_dirent
Keeps-read_dirent dp off = search path_rules depth 12

Keeps-lookup_from :
    (f dp : ℕ) (name : List ℕ) (off : ℕ) → Keeps IsUnique (lookup_from f dp name off)
unfolding lookup_from
Keeps-lookup_from zero dp name off = search path_rules depth 12
Keeps-lookup_from (suc f) dp name off =
    let rest = Keeps-lookup_from f dp name (off + dirent_size) in
    search (path_rules, Keeps-read_dirent) depth 12

Keeps-dirlookup : (dp : ℕ) (name : List ℕ) → Keeps IsUnique (dirlookup dp name)
unfolding dirlookup
Keeps-dirlookup dp name = search (path_rules, Keeps-lookup_from) depth 12

Keeps-free_from : (f dp off : ℕ) (de : List ℕ) → Keeps IsUnique (free_from f dp off de)
unfolding free_from
Keeps-free_from zero dp off de = search path_rules depth 12
Keeps-free_from (suc f) dp off de =
    let rest = Keeps-free_from f dp (off + dirent_size) in
    search (path_rules, Keeps-read_dirent) depth 12

Keeps-get_stale : Keeps IsUnique get_stale
unfolding get_stale
Keeps-get_stale = record { at = λ s h. h }

Keeps-add_entry : (dp : ℕ) (name : List ℕ) (inum : ℕ) → Keeps IsUnique (add_entry dp name inum)
unfolding add_entry
Keeps-add_entry dp name inum = search (path_rules, Keeps-get_stale, Keeps-free_from) depth 12

Keeps-dirlink : (dp : ℕ) (name : List ℕ) (inum : ℕ) → Keeps IsUnique (dirlink dp name inum)
unfolding dirlink
Keeps-dirlink dp name inum = search (path_rules, Keeps-dirlookup, Keeps-add_entry) depth 12

Keeps-enter :
    (last : Bool) (ip : ℕ) (name : List ℕ) (on : ℕ → Action (Option (ℕ × List ℕ)))
    → ((next : ℕ) → Keeps IsUnique (on next))
    → Keeps IsUnique (enter last ip name on)
unfolding enter
Keeps-enter last ip name on keeps = search (path_rules, Keeps-dirlookup) depth 15

Keeps-at_end : (parent : Bool) (ip : ℕ) → Keeps IsUnique (at_end parent ip)
unfolding at_end
Keeps-at_end parent ip = search path_rules depth 12

Keeps-walk :
    (f : ℕ) (parent : Bool) (ip : ℕ) (path : List ℕ) → Keeps IsUnique (walk f parent ip path)
unfolding walk
Keeps-walk zero parent ip path = search path_rules depth 12
Keeps-walk (suc f) parent ip path =
    let rest = Keeps-walk f parent in search (path_rules, Keeps-enter, Keeps-at_end) depth 12

Keeps-read_cwd : Keeps IsUnique read_cwd
unfolding read_cwd
Keeps-read_cwd = record { at = λ s h. h }

Keeps-put_cwd : (ip : ℕ) → Keeps IsUnique (put_cwd ip)
unfolding put_cwd
Keeps-put_cwd ip = record { at = λ s h. record { one = h.one } }

Keeps-get_cwd : Keeps IsUnique get_cwd
unfolding get_cwd
Keeps-get_cwd = search (path_rules, Keeps-read_cwd, Keeps-put_cwd) depth 12

Keeps-namex : (path : List ℕ) (parent : Bool) → Keeps IsUnique (namex path parent)
unfolding namex
Keeps-namex path parent = search (path_rules, Keeps-get_cwd, Keeps-walk) depth 12

pub Keeps-namei : (path : List ℕ) → Keeps IsUnique (namei path)
unfolding namei
Keeps-namei path = search (path_rules, Keeps-namex) depth 12

Keeps-add_nlink : (k ip : ℕ) → Keeps IsUnique (add_nlink k ip)
unfolding add_nlink
Keeps-add_nlink k ip = Keeps-modify ip _ λ x. (refl, refl, λ e. e)

ruleset link_rules =
    (path_rules, Keeps-dirlookup, Keeps-dirlink, Keeps-namex, Keeps-namei, Keeps-add_nlink)

Keeps-must_link : (dp : ℕ) (name : List ℕ) (inum : ℕ) → Keeps IsUnique (must_link dp name inum)
unfolding must_link
Keeps-must_link dp name inum = search link_rules depth 12

Keeps-link_dots : (dp ip : ℕ) → Keeps IsUnique (link_dots dp ip)
unfolding link_dots
Keeps-link_dots dp ip = search (link_rules, Keeps-must_link) depth 15

Keeps-set_numbers :
    (ip major minor : ℕ)
    → Keeps IsUnique (modify ip λ x. record x { major = major; minor = minor; nlink = 1 })
Keeps-set_numbers ip major minor = Keeps-modify ip _ λ x. (refl, refl, λ e. e)

Keeps-create_in :
    (dp : ℕ) (name : List ℕ) (type major minor : ℕ)
    → Keeps IsUnique (create_in dp name type major minor)
unfolding create_in
Keeps-create_in dp name type major minor =
    search (link_rules, Keeps-must_link, Keeps-link_dots, Keeps-set_numbers) depth 20

Keeps-present : (dp ip type : ℕ) → Keeps IsUnique (present dp ip type)
unfolding present
Keeps-present dp ip type = search link_rules depth 12

pub Keeps-icreate :
    (path : List ℕ) (type major minor : ℕ) → Keeps IsUnique (icreate path type major minor)
unfolding icreate
Keeps-icreate path type major minor = search (link_rules, Keeps-create_in, Keeps-present) depth 15

Keeps-undo_link : (ip : ℕ) → Keeps IsUnique (undo_link ip)
unfolding undo_link
Keeps-undo_link ip = search link_rules depth 12

Keeps-link_fails : (dp : ℕ) (name : List ℕ) (ip : ℕ) → Keeps IsUnique (link_fails dp name ip)
unfolding link_fails
Keeps-link_fails dp name ip = search link_rules depth 12

Keeps-link_into : (new : List ℕ) (ip : ℕ) → Keeps IsUnique (link_into new ip)
unfolding link_into
Keeps-link_into new ip = search (link_rules, Keeps-undo_link, Keeps-link_fails) depth 15

pub Keeps-do_link : (new target : List ℕ) → Keeps IsUnique (do_link new target)
unfolding do_link
Keeps-do_link new target = search (link_rules, Keeps-link_into) depth 12

Keeps-empty_from : (f dp off : ℕ) → Keeps IsUnique (empty_from f dp off)
unfolding empty_from
Keeps-empty_from zero dp off = search path_rules depth 12
Keeps-empty_from (suc f) dp off =
    let rest = Keeps-empty_from f dp (off + dirent_size) in
    search (path_rules, Keeps-read_dirent) depth 12

Keeps-isdirempty : (dp : ℕ) → Keeps IsUnique (isdirempty dp)
unfolding isdirempty
Keeps-isdirempty dp = search (path_rules, Keeps-empty_from) depth 12

Keeps-is_full_dir : (ip : ℕ) → Keeps IsUnique (is_full_dir ip)
unfolding is_full_dir
Keeps-is_full_dir ip = search (path_rules, Keeps-isdirempty) depth 12

Keeps-remove_entry : (dp off ip : ℕ) → Keeps IsUnique (remove_entry dp off ip)
unfolding remove_entry
Keeps-remove_entry dp off ip = search link_rules depth 20

Keeps-unlink_from : (dp : ℕ) (name : List ℕ) → Keeps IsUnique (unlink_from dp name)
unfolding unlink_from
Keeps-unlink_from dp name = search (link_rules, Keeps-is_full_dir, Keeps-remove_entry) depth 15

pub Keeps-do_unlink : (path : List ℕ) → Keeps IsUnique (do_unlink path)
unfolding do_unlink
Keeps-do_unlink path = search (link_rules, Keeps-unlink_from) depth 12
