-- ===== src/Fs/CacheInit.antt =====
-- `binit` of fs/cache.c makes a ring of all the buffers.
use jix.Base.{
  ℕ, zero, suc, ◌+◌, ◌≤◌, ◌<◌, ◌≡◌, refl, sym, ap, ◌∙◌, subst, fun_ext, inl, inr, none, List, [],
  ◌∷◌, arith, ◌==◌, Bool-cases, update, update_self,
}
use jix.Fs.Cache.{Cache, Buf, head, nbuf, set_buf, set_next, push, binit_from, binit}
use jix.Fs.CacheRing.{NotIn, Linked, IsRing, last_of, Linked-prev}
use jix.Fs.CacheUse.{push-Linked}

-- The numbers below `n`, from the greatest down.
unfoldable pub countdown : ℕ → List ℕ
countdown zero = []
countdown (suc n) = n ∷ countdown n

NotIn-countdown : (x n : ℕ) → n ≤ x → NotIn x (countdown n)
unfolding countdown
NotIn-countdown x zero le = tt
NotIn-countdown x (suc n) le = (omega arith, NotIn-countdown x n (omega arith))

last_of-countdown : (n : ℕ) → last_of n (countdown n) ≡ 0
unfolding countdown
last_of-countdown zero = refl
last_of-countdown (suc n) = last_of-countdown n

countdown_add : (n : ℕ) → countdown (n + 1) ≡ n ∷ countdown n
unfolding countdown
countdown_add n = let e : n + 1 ≡ suc n = omega arith in rw e refl

-- A free buffer put in front.
push-IsRing :
    (b : ℕ) (x : Buf) (c : Cache)
    → b < head
    → IsRing c (countdown b)
    → IsRing (push b (set_buf b x c)) (countdown (b + 1))
unfolding push
push-IsRing b x c lt r =
    let c1 = set_buf b x c in
    let r1 : IsRing c1 (countdown b) = record { linked = r.linked; distinct = r.distinct } in
    let out = NotIn-countdown b b (omega arith) in
    let (h, d) = r.distinct in
    let same : countdown (b + 1) ≡ b ∷ countdown b = countdown_add b in
    subst (λ l. IsRing (push b c1) l) (sym same)
      (record {
        linked = push-Linked b c1 (countdown b) r1 (omega arith, out);
        distinct = ((omega arith, h), (out, d));
      })

binit_from-IsRing :
    (n b : ℕ) (c : Cache)
    → b + n ≡ head
    → IsRing c (countdown b)
    → IsRing (binit_from n b c) (countdown head)
unfolding binit_from
binit_from-IsRing zero b c e r =
    let e' : b ≡ head = omega arith in subst (λ k. IsRing c (countdown k)) e' r
binit_from-IsRing (suc n) b c e r =
    binit_from-IsRing n (b + 1) _ (omega arith)
      (push-IsRing b (record (c.buf b) { dev = none }) c (omega arith) r)

-- The first buffer, put in a list that is only the head.
push_first :
    (x : Buf) (c : Cache) → c.next head ≡ head → IsRing (push 0 (set_buf 0 x c)) (countdown 1)
unfolding push countdown
push_first x c e = record {
  linked = (refl, rw e refl, (e, rw e refl));
  distinct = ((omega arith, tt), (tt, tt));
}

binit_from-first :
    (n : ℕ) (c : Cache)
    → n + 1 ≡ head
    → c.next head ≡ head
    → IsRing (binit_from (suc n) 0 c) (countdown head)
unfolding binit_from
binit_from-first n c e h =
    binit_from-IsRing n 1 _ (omega arith) (push_first (record (c.buf 0) { dev = none }) c h)

update-same : (f : ℕ → ℕ) (i v : ℕ) → f i ≡ v → update f i v ≡ f
update-same f i v e = fun_ext λ j. elim (Bool-cases (i == j)) [
  | inl same ↦ let same' : i ≡ j = ground arith in rw same (sym e ∙ ap f same')
  | inr other ↦ rw other refl
]

-- Whatever the memory of the cache holds before it, `binit` makes a ring of all its buffers, each once,
-- with the last of the array in front and the first at the tail.
pub binit-IsRing : (c : Cache) → IsRing (binit c) (countdown head)
unfolding binit
binit-IsRing c =
    let c1 = binit_from nbuf 0 (set_next head head c) in
    let r : IsRing c1 (countdown head) =
      binit_from-first 63 (set_next head head c) (omega arith) (update_self c.next head head) in
    let tail : c1.prev head ≡ 0 =
      Linked-prev c1.next c1.prev head (countdown head) head r.linked ∙ last_of-countdown head in
    record {
      linked =
          subst (λ p. Linked c1.next p head (countdown head) head)
            (sym (update-same c1.prev head 0 tail)) r.linked;
      distinct = r.distinct;
    }
