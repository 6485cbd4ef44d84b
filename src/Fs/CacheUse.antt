-- ===== src/Fs/CacheUse.antt =====
-- The cache as a list of buffers by their last use: `bget` and `brelse` of fs/cache.c.
use jix.Base.{ℕ, ◌≡◌, refl, sym, ap₂, ◌∙◌, subst, ◌≢◌, List, [], ◌∷◌, ◌++◌, update, update-ne}
use jix.Fs.Cache.{Cache, head, push, unlink, brelse}
use jix.Fs.CacheRing.{
  NotIn, Distinct, Apart, Linked, IsRing, first_of, last_of, Linked-next, Linked-prev, Linked-split,
  Linked-unlink, Linked-push, Distinct-split, Distinct-join, NotIn-join, NotIn-split, Apart-cons,
}

NotIn-first : (b : ℕ) (l : List ℕ) (z : ℕ) → NotIn b l → b ≢ z → b ≢ first_of l z
NotIn-first b [] z out ne = ne
NotIn-first b (x ∷ l) z (nx, out) ne = nx

unlink-next :
    (b : ℕ) (c : Cache) (nb pb : ℕ)
    → c.next b ≡ nb
    → c.prev b ≡ pb
    → nb ≢ b
    → (unlink b c).next ≡ update c.next pb nb
unfolding unlink
unlink-next b c nb pb e f ne =
    ap₂ (λ i v. update c.next i v)
      (update-ne c.prev (c.next b) b (c.prev b) (λ q. ne (sym e ∙ q)) ∙ f) e

unlink-prev :
    (b : ℕ) (c : Cache) (nb pb : ℕ)
    → c.next b ≡ nb
    → c.prev b ≡ pb
    → (unlink b c).prev ≡ update c.prev nb pb
unfolding unlink
unlink-prev b c nb pb e f = ap₂ (λ i v. update c.prev i v) e f

pub push-Linked :
    (b : ℕ) (c : Cache) (l : List ℕ)
    → IsRing c l
    → NotIn b (head ∷ l)
    → Linked (push b c).next (push b c).prev head (b ∷ l) head
unfolding push
push-Linked b c l r out =
    let (nb, t) = out in
    let n = c.next in
    let p = c.prev in
    let first = first_of l head in
    let e = Linked-next n p head l head r.linked in
    let e' : update n b (n head) head ≡ first = update-ne n b head (n head) nb ∙ e in
    subst
      (λ w.
        Linked (update (update n b (n head)) head b) (update (update p b head) w b) head (b ∷ l)
          head)
      (sym e')
      (subst
        (λ v.
          Linked (update (update n b v) head b) (update (update p b head) first b) head (b ∷ l)
            head)
        (sym e) (Linked-push n p l b r.linked out r.distinct))

push-buf : (b : ℕ) (c : Cache) → (push b c).buf ≡ c.buf
unfolding push
push-buf b c = refl

-- The pieces of a ring around a buffer.
pub record Around (l1 : List ℕ) (b : ℕ) (l2 : List ℕ) : Type 0 where
  pub before : Distinct (head ∷ l1)
  pub behind : Distinct (head ∷ l2)
  pub apart : Apart (head ∷ l1) l2
  pub others : Distinct (head ∷ (l1 ++ l2))
  pub out : NotIn b (head ∷ (l1 ++ l2))
  pub out_behind : NotIn b l2

around : (l1 : List ℕ) (b : ℕ) (l2 : List ℕ) → Distinct (head ∷ (l1 ++ b ∷ l2)) → Around l1 b l2
around l1 b l2 (h, d) =
    let (h1, h2) = NotIn-split head l1 (b ∷ l2) h in
    let (hb, h3) = h2 in
    let (d1, d2, a) = Distinct-split l1 (b ∷ l2) d in
    let (ob, d3) = d2 in
    let (b1, a2) = Apart-cons l1 b l2 a in
    record {
      before = (h1, d1);
      behind = (h3, d3);
      apart = (h3, a2);
      others = (NotIn-join head l1 l2 h1 h3, Distinct-join l1 l2 d1 d3 a2);
      out = ((λ q. hb (sym q)), NotIn-join b l1 l2 b1 ob);
      out_behind = ob;
    }

unlink-IsRing :
    (b : ℕ) (c : Cache) (l1 l2 : List ℕ) → IsRing c (l1 ++ b ∷ l2) → IsRing (unlink b c) (l1 ++ l2)
unlink-IsRing b c l1 l2 r =
    let w = around l1 b l2 r.distinct in
    let n = c.next in
    let p = c.prev in
    let (h1, h2) = Linked-split n p head l1 b l2 head r.linked in
    let e = Linked-next n p b l2 head h2 in
    let f = Linked-prev n p head l1 b h1 in
    let (nb, t) = w.out in
    let ne : first_of l2 head ≢ b = λ q. NotIn-first b l2 head w.out_behind nb (sym q) in
    record {
      linked =
          subst (λ g. Linked g (unlink b c).prev head (l1 ++ l2) head)
            (sym (unlink-next b c (first_of l2 head) (last_of head l1) e f ne))
            (subst
              (λ g. Linked (update n (last_of head l1) (first_of l2 head)) g head (l1 ++ l2) head)
              (sym (unlink-prev b c (first_of l2 head) (last_of head l1) e f))
              (Linked-unlink n p l1 b l2 r.linked w.before w.behind w.apart));
      distinct = w.others;
    }

-- `brelse` of a buffer of the ring moves it to the front of the list and leaves the order of the
-- others and what the buffers hold.
pub brelse-front :
    (b : ℕ) (c : Cache) (l1 l2 : List ℕ)
    → IsRing c (l1 ++ b ∷ l2)
    → IsRing (brelse b c) (b ∷ (l1 ++ l2)) × ((brelse b c).buf ≡ c.buf)
unfolding brelse push unlink
brelse-front b c l1 l2 r =
    let w = around l1 b l2 r.distinct in
    let (nb, out) = w.out in
    let (hd, ds) = w.others in
    (
      record {
        linked = push-Linked b (unlink b c) (l1 ++ l2) (unlink-IsRing b c l1 l2 r) w.out;
        distinct = (((λ q. nb (sym q)), hd), (out, ds));
      },
      refl,
    )
