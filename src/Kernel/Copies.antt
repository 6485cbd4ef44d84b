-- ===== src/Kernel/Copies.antt =====
-- What `mcopyin` and `mcopyout` of kernel/msg.c carry between a program and `iobuf`.
use jix.Base.{
  ℕ, zero, suc, ◌+◌, ◌-◌, ◌≤◌, ◌<◌, ◌≡◌, refl, sym, ◌∙◌, ◌≢◌, ◌⊎◌, inl, inr, true, false, some,
  arith, ◌==◌, Bool-cases, update, update_self, update-ne,
}
use jix.Clib.Mem.{Memory}
use jix.Clib.Move.{IsCopied, memmove-IsCopied}
use jix.Clib.Str.{IsString, strncpy, strlen_lem}
use jix.Kernel.MsgType
use jix.Kernel.State.{Msg}
use jix.Kernel.SendRecv.{buf_len, copy_link, mcopyin, mcopyout, count_of}

-- `n` bytes from `a` on and `k` bytes from `b` on have none in common.
abbrev pub Disjoint : ℕ → ℕ → ℕ → ℕ → Type 0
Disjoint a n b k = (a + n ≤ b) ⊎ (b + k ≤ a)

IsString-kept :
    (m m' : Memory) (s n : ℕ)
    → IsString m s n
    → ((x : ℕ) → s ≤ x → x ≤ s + n → m' x ≡ m x)
    → IsString m' s n
IsString-kept m m' s n h same = record {
  ends = same (s + n) (omega arith) (omega arith) ∙ h.ends;
  body = λ i lt e. h.body i lt (sym (same (s + i) (omega arith) (omega arith)) ∙ e);
}

-- A string that is shorter than the limit is copied with its NUL, and nothing else changes.
strncpy-IsCopied :
    (n s t k : ℕ) (m : Memory)
    → IsString m t k
    → k < n
    → Disjoint s (k + 1) t (k + 1)
    → IsCopied s t (k + 1) m (strncpy n s t m)
unfolding strncpy
strncpy-IsCopied zero s t k m h lt apart = absurd (omega arith)
strncpy-IsCopied (suc n) s t zero m h lt apart =
    let at : t + 0 ≡ t = omega arith in
    let nul : (m t == 0) ≡ true = let z : m t ≡ 0 = rw at at h.ends in ground arith in
    rw (nul, strncpy)
      (
        λ i l.
            let none_on : i ≡ 0 = omega arith in
            let here : s + 0 ≡ s = omega arith in rw (none_on, here, at) (update_self m s (m t)),
        λ x out. update-ne m s x (m t) (omega arith),
      )
strncpy-IsCopied (suc n) s t (suc k) m h lt apart =
    let at : t + 0 ≡ t = omega arith in
    let more : (m t == 0) ≡ false =
      let nz : m t ≢ 0 = rw at at (h.body 0 (omega arith)) in ground arith in
    let m' = update m s (m t) in
    let same : (x : ℕ) → t ≤ x → x ≤ t + suc k → m' x ≡ m x =
      λ x lo hi. update-ne m s x (m t) (omega arith) in
    let rest_string : IsString m' (t + 1) k = record {
      ends =
          let e : t + 1 + k ≡ t + suc k = omega arith in
          rw e (same (t + suc k) (omega arith) (omega arith) ∙ h.ends);
      body = λ i l z.
          let e : t + 1 + i ≡ t + suc i = omega arith in
          h.body (suc i) (omega arith)
            (sym (same (t + suc i) (omega arith) (omega arith)) ∙ rw e at z);
    } in
    let (inside, outside) =
      strncpy-IsCopied n (s + 1) (t + 1) k m' rest_string (omega arith) (omega arith) in
    rw (more, strncpy)
      (
        λ i l. elim (Bool-cases (i == 0)) [
          | inl e ↦
              let first : i ≡ 0 = ground arith in
              let here : s + 0 ≡ s = omega arith in
              rw (first, here, at) (outside s (omega arith) ∙ update_self m s (m t))
          | inr ne ↦
              let e : s + i ≡ s + 1 + (i - 1) = ground arith in
              let e' : t + i ≡ t + 1 + (i - 1) = ground arith in
              rw (e, e')
                (inside (i - 1) (ground arith)
                  ∙ same (t + 1 + (i - 1)) (omega arith) (ground arith))
        ],
        λ x out. outside x (omega arith) ∙ update-ne m s x (m t) (omega arith),
      )

mcopyin_is_link :
    (fuel iobuf : ℕ) (m : Msg) (b : Memory)
    → m.type ≡ MsgType.link
    → mcopyin fuel iobuf m b ≡ copy_link fuel iobuf m b
unfolding mcopyin
mcopyin_is_link fuel iobuf m b e = ground arith

-- A string that has been copied is a string.
IsCopied-IsString :
    (m m' : Memory) (s t n : ℕ) → IsCopied s t (n + 1) m m' → IsString m t n → IsString m' s n
IsCopied-IsString m m' s t n (inside, outside) h = record {
  ends = inside n (omega arith) ∙ h.ends;
  body = λ i lt e. h.body i lt (sym (inside i (omega arith)) ∙ e);
}

-- The two paths of `link`, in `iobuf` one behind the other.
pub record HasPaths (iobuf n k p q : ℕ) (b b' : Memory) : Type 0 where
  pub first : IsString b' iobuf n
  pub second : IsString b' (iobuf + n + 1) k
  pub first_same : (i : ℕ) → i ≤ n → b' (iobuf + i) ≡ b (p + i)
  pub second_same : (i : ℕ) → i ≤ k → b' (iobuf + n + 1 + i) ≡ b (q + i)
  pub others : (x : ℕ) → (x < iobuf) ⊎ (iobuf + buf_len ≤ x) → b' x ≡ b x

-- `mcopyin` of a request for a link whose two paths fit in `iobuf` together, and lie apart from it:
-- the copy of the message points at both, each with its characters and its NUL, and no byte outside
-- `iobuf` changes.
pub mcopyin-link :
    (fuel iobuf n k : ℕ) (m : Msg) (b : Memory)
    → m.type ≡ MsgType.link
    → IsString b m.p1 n
    → IsString b m.p2 k
    → n + k + 2 ≤ buf_len
    → n < fuel
    → Disjoint iobuf buf_len m.p1 (n + 1)
    → Disjoint iobuf buf_len m.p2 (k + 1)
    → (b' : Memory) × (mcopyin fuel iobuf m b
        ≡ some (record m { p1 = iobuf; p2 = iobuf + n + 1 }, b'))
      × HasPaths iobuf n k m.p1 m.p2 b b'
unfolding copy_link
mcopyin-link fuel iobuf n k m b e h1 h2 fit enough apart1 apart2 =
    let b1 = strncpy buf_len iobuf m.p1 b in
    let first = strncpy-IsCopied buf_len iobuf m.p1 n b h1 (omega arith) (omega arith) in
    let one = IsCopied-IsString b b1 iobuf m.p1 n first h1 in
    let h2' : IsString b1 m.p2 k =
      IsString-kept b b1 m.p2 k h2 (λ x lo hi. first.1 x (omega arith)) in
    let b2 = strncpy (buf_len - n - 1) (iobuf + n + 1) m.p2 b1 in
    let second =
      strncpy-IsCopied (buf_len - n - 1) (iobuf + n + 1) m.p2 k b1 h2' (omega arith)
        (omega arith) in
    (
      b2,
      mcopyin_is_link fuel iobuf m b e ∙ rw (strlen_lem fuel iobuf n b1 one enough, copy_link) refl,
      record {
        first = IsString-kept b1 b2 iobuf n one (λ x lo hi. second.1 x (omega arith));
        second = IsCopied-IsString b1 b2 (iobuf + n + 1) m.p2 k second h2';
        first_same = λ i le. second.1 (iobuf + i) (omega arith) ∙ first.0 i (omega arith);
        second_same = λ i le. second.0 i (omega arith) ∙ first.1 (m.p2 + i) (omega arith);
        others = λ x out. second.1 x (omega arith) ∙ first.1 x (omega arith);
      },
    )

-- A `read` goes out with `iobuf` for its buffer and no byte changed; of an answer with a count, that
-- many bytes of `iobuf` come to the buffer of the program, of one without, none, and no other byte
-- changes.
pub mcopyout-read :
    (fuel iobuf : ℕ) (m : Msg) (b : Memory)
    → m.type ≡ MsgType.read
    → (mcopyin fuel iobuf m b ≡ some (record m { p1 = iobuf }, b))
      × ((answer : Msg) (b1 : Memory)
          → answer.p1 ≡ iobuf
          → IsCopied m.p1 iobuf (count_of answer.i1) b1 (mcopyout answer m b1))
unfolding mcopyin mcopyout
mcopyout-read fuel iobuf m b e = (
  ground arith,
  λ answer b1 at.
      let now : (m.type == MsgType.read) ≡ true = ground arith in
      rw (now, mcopyout, ← at) (memmove-IsCopied m.p1 answer.p1 (count_of answer.i1) b1),
)
