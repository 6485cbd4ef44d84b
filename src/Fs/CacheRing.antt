-- ===== src/Fs/CacheRing.antt =====
-- The links of the buffers make a ring, which stands for a list with the buffer used last in front.
use jix.Base.{
  ℕ, ◌≡◌, sym, ◌∙◌, subst, ◌≢◌, List, [], ◌∷◌, ◌++◌, update, update_self, update-ne, append-nil,
}
use jix.Fs.Cache.{Cache, head}

-- Not in a list, and a list without repetitions.
abbrev pub NotIn : ℕ → List ℕ → Type 0
NotIn x [] = Unit {0}
NotIn x (y ∷ l) = (x ≢ y) × NotIn x l

abbrev pub Distinct : List ℕ → Type 0
Distinct [] = Unit {0}
Distinct (x ∷ l) = NotIn x l × Distinct l

-- From `a` the links go through the list to `z`, and back.
abbrev pub Linked : (ℕ → ℕ) → (ℕ → ℕ) → ℕ → List ℕ → ℕ → Type 0
Linked n p a [] z = (n a ≡ z) × (p z ≡ a)
Linked n p a (x ∷ l) z = (n a ≡ x) × (p x ≡ a) × Linked n p x l z

-- The list of a cache, from the front to the tail.
pub record IsRing (c : Cache) (l : List ℕ) : Type 0 where
  pub linked : Linked c.next c.prev head l head
  pub distinct : Distinct (head ∷ l)

abbrev pub first_of : List ℕ → ℕ → ℕ
first_of [] z = z
first_of (x ∷ l) z = x

abbrev pub last_of : ℕ → List ℕ → ℕ
last_of a [] = a
last_of a (x ∷ l) = last_of x l

pub Linked-next : (n p : ℕ → ℕ) (a : ℕ) (l : List ℕ) (z : ℕ) → Linked n p a l z → n a ≡ first_of l z
Linked-next n p a [] z (e, f) = e
Linked-next n p a (x ∷ l) z (e, f, h) = e

pub Linked-prev : (n p : ℕ → ℕ) (a : ℕ) (l : List ℕ) (z : ℕ) → Linked n p a l z → p z ≡ last_of a l
Linked-prev n p a [] z (e, f) = f
Linked-prev n p a (x ∷ l) z (e, f, h) = Linked-prev n p x l z h

pub Linked-split :
    (n p : ℕ → ℕ) (a : ℕ) (l1 : List ℕ) (b : ℕ) (l2 : List ℕ) (z : ℕ)
    → Linked n p a (l1 ++ b ∷ l2) z
    → Linked n p a l1 b × Linked n p b l2 z
Linked-split n p a [] b l2 z (e, f, h) = ((e, f), h)
Linked-split n p a (x ∷ l1) b l2 z (e, f, h) =
    let (h1, h2) = Linked-split n p x l1 b l2 z h in ((e, f, h1), h2)

-- Two ways joined where the second begins with its first buffer.
Linked-join :
    (n p : ℕ → ℕ) (a : ℕ) (l1 : List ℕ) (y : ℕ) (l2 : List ℕ) (z : ℕ)
    → Linked n p a l1 y
    → Linked n p y l2 z
    → Linked n p a (l1 ++ y ∷ l2) z
Linked-join n p a [] y l2 z (e, f) h = (e, f, h)
Linked-join n p a (x ∷ l1) y l2 z (e, f, h1) h = (e, f, Linked-join n p x l1 y l2 z h1 h)

-- Links that an assignment of `n i` and `p j` does not touch.
Linked-frame :
    (n p : ℕ → ℕ) (a : ℕ) (l : List ℕ) (z i v j w : ℕ)
    → Linked n p a l z
    → NotIn i (a ∷ l)
    → j ≢ z
    → NotIn j l
    → Linked (update n i v) (update p j w) a l z
Linked-frame n p a [] z i v j w (e, f) (out, t) ne u =
    (update-ne n i a v out ∙ e, update-ne p j z w ne ∙ f)
Linked-frame n p a (x ∷ l) z i v j w (e, f, h) (out, t) ne (nx, u) =
    (update-ne n i a v out ∙ e, update-ne p j x w nx ∙ f, Linked-frame n p x l z i v j w h t ne u)

NotIn-last : (a x : ℕ) (l : List ℕ) → NotIn a (x ∷ l) → a ≢ last_of x l
NotIn-last a x [] (ne, t) = ne
NotIn-last a x (y ∷ l) (ne, t) = NotIn-last a y l t

-- The last link turned to `c`.
Linked-turn :
    (n p : ℕ → ℕ) (a : ℕ) (l : List ℕ) (z c : ℕ)
    → Linked n p a l z
    → Distinct (a ∷ l)
    → NotIn c l
    → Linked (update n (last_of a l) c) (update p c (last_of a l)) a l c
Linked-turn n p a [] z c h d out = (update_self n a c, update_self p c a)
Linked-turn n p a (x ∷ l) z c (e, f, h) (na, d) (nc, out) =
    let e1 = last_of x l in
    (
      update-ne n e1 a c (λ q. NotIn-last a x l na (sym q)) ∙ e,
      update-ne p c x e1 nc ∙ f,
      Linked-turn n p x l z c h d out,
    )

-- No buffer of the first list is in the second.
abbrev pub Apart : List ℕ → List ℕ → Type 0
Apart [] m = Unit {0}
Apart (x ∷ l) m = NotIn x m × Apart l m

pub NotIn-split : (x : ℕ) (l m : List ℕ) → NotIn x (l ++ m) → NotIn x l × NotIn x m
NotIn-split x [] m h = (tt, h)
NotIn-split x (y ∷ l) m (ne, h) = let (a, b) = NotIn-split x l m h in ((ne, a), b)

pub NotIn-join : (x : ℕ) (l m : List ℕ) → NotIn x l → NotIn x m → NotIn x (l ++ m)
NotIn-join x [] m a b = b
NotIn-join x (y ∷ l) m (ne, a) b = (ne, NotIn-join x l m a b)

pub Distinct-split : (l m : List ℕ) → Distinct (l ++ m) → Distinct l × Distinct m × Apart l m
Distinct-split [] m h = (tt, h, tt)
Distinct-split (x ∷ l) m (out, h) =
    let (a, b) = NotIn-split x l m out in
    let (d, e, f) = Distinct-split l m h in ((a, d), e, (b, f))

pub Distinct-join : (l m : List ℕ) → Distinct l → Distinct m → Apart l m → Distinct (l ++ m)
Distinct-join [] m d e f = e
Distinct-join (x ∷ l) m (out, d) e (a, f) = (NotIn-join x l m out a, Distinct-join l m d e f)

pub Apart-cons : (l : List ℕ) (b : ℕ) (m : List ℕ) → Apart l (b ∷ m) → NotIn b l × Apart l m
Apart-cons [] b m h = (tt, tt)
Apart-cons (x ∷ l) b m ((ne, out), h) =
    let (a, f) = Apart-cons l b m h in ((λ q. ne (sym q), a), (out, f))

Apart-last : (a : ℕ) (l m : List ℕ) → Apart (a ∷ l) m → NotIn (last_of a l) m
Apart-last a [] m (h, t) = h
Apart-last a (x ∷ l) m (h, t) = Apart-last x l m t

-- A buffer taken out of the ring.
pub Linked-unlink :
    (n p : ℕ → ℕ) (l1 : List ℕ) (b : ℕ) (l2 : List ℕ)
    → Linked n p head (l1 ++ b ∷ l2) head
    → Distinct (head ∷ l1)
    → Distinct (head ∷ l2)
    → Apart (head ∷ l1) l2
    → Linked
        (update n (last_of head l1) (first_of l2 head))
        (update p (first_of l2 head) (last_of head l1))
        head
        (l1 ++ l2)
        head
Linked-unlink n p l1 b [] h d e f =
    let (h1, h2) = Linked-split n p head l1 b [] head h in
    let (out, d1) = d in
    subst
      (λ l. Linked (update n (last_of head l1) head) (update p head (last_of head l1)) head l head)
      (sym (append-nil l1)) (Linked-turn n p head l1 b head h1 d out)
Linked-unlink n p l1 b (y ∷ l2) h d (out, (oy, e)) f =
    let (h1, h2) = Linked-split n p head l1 b (y ∷ l2) head h in
    let (a, m) = f in
    let (ny, k) = Apart-cons l1 y l2 m in
    let (ey, en, rest) = h2 in
    Linked-join _ _ head l1 y l2 head (Linked-turn n p head l1 b y h1 d ny) (
      Linked-frame n p y l2 head (last_of head l1) y y (last_of head l1) rest
        (Apart-last head l1 (y ∷ l2) f) (λ q. out.0 (sym q)) oy)

-- A buffer put in front of the ring.
pub Linked-push :
    (n p : ℕ → ℕ) (l : List ℕ) (b : ℕ)
    → Linked n p head l head
    → NotIn b (head ∷ l)
    → Distinct (head ∷ l)
    → Linked
        (update (update n b (first_of l head)) head b)
        (update (update p b head) (first_of l head) b)
        head
        (b ∷ l)
        head
Linked-push n p [] b (e, f) (nb, t) d = (
  update_self (update n b head) head b,
  update-ne (update p b head) head b b (λ q. nb (sym q)) ∙ update_self p b head,
  (
    update-ne (update n b head) head b b (λ q. nb (sym q)) ∙ update_self n b head,
    update_self (update p b head) head b,
  ),
)
Linked-push n p (x ∷ l) b (e, f, h) (nb, (nx, out)) ((hx, ho), (ox, d)) = (
  update_self (update n b x) head b,
  update-ne (update p b head) x b b (λ q. nx (sym q)) ∙ update_self p b head,
  (
    update-ne (update n b x) head b b (λ q. nb (sym q)) ∙ update_self n b x,
    update_self (update p b head) x b,
    Linked-frame (update n b x) (update p b head) x l head head b x b
        (Linked-frame n p x l head b x b head h (nx, out) nb out) (hx, ho) (λ q. hx (sym q)) ox,
  ),
)
