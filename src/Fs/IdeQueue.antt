-- ===== src/Fs/IdeQueue.antt =====
-- The requests to the disk as a list, in the order of their arrival: fs/ide.c.
use jix.Base.{
  ℕ, zero, suc, ◌≤◌, ◌≡◌, refl, sym, ap, ◌∙◌, subst, ◌≢◌, Bool, true, false, not, ◌&&◌, Option,
  none, some, List, [], ◌∷◌, ◌++◌, arith, ◌==◌, if◌then◌else◌, length, update, update_self,
  update-ne,
}
use jix.Fs.CacheRing.{NotIn, Distinct, NotIn-join}
use jix.Fs.Cache.{is_there}
use jix.Fs.Ide.{
  Ide, idestart, set_qnext, last_from, append_at, is_first, start_if_first, iderw, finished,
  start_next, popped, after_request, ideintr,
}

-- The queue from a pointer on, as a list.
abbrev pub Chain : Option ℕ → (ℕ → Option ℕ) → List ℕ → Type 0
Chain o q [] = o ≡ none
Chain o q (x ∷ l) = (o ≡ some x) × Chain (q x) q l

Chain-frame :
    (o : Option ℕ) (q : ℕ → Option ℕ) (l : List ℕ) (i : ℕ) (v : Option ℕ)
    → NotIn i l
    → Chain o q l
    → Chain o (update q i v) l
Chain-frame o q [] i v out h = h
Chain-frame o q (x ∷ l) i v (ne, out) (e, h) =
    let same : update q i v x ≡ q x = update-ne q i x v ne in
    (e, subst (λ k. Chain k (update q i v) l) (sym same) (Chain-frame (q x) q l i v out h))

-- The walk ends at a buffer of the list.
last_from-NotIn :
    (f x y : ℕ) (s : Ide) (l : List ℕ)
    → Chain (s.qnext y) s.qnext l
    → NotIn x (y ∷ l)
    → x ≢ last_from f y s
unfolding last_from
last_from-NotIn zero x y s l h (ne, out) = ne
last_from-NotIn (suc f) x y s [] h (ne, out) = rw (h, last_from) ne
last_from-NotIn (suc f) x y s (z ∷ l) (e, h) (ne, out) =
    rw (e, last_from) (last_from-NotIn f x z s l h out)

last_from-alone : (f x : ℕ) (s : Ide) → s.qnext x ≡ none → last_from f x s ≡ x
unfolding last_from
last_from-alone zero x s h = refl
last_from-alone (suc f) x s h = rw (h, last_from) refl

last_from-next :
    (f x y : ℕ) (s : Ide) → s.qnext x ≡ some y → last_from (suc f) x s ≡ last_from f y s
unfolding last_from
last_from-next f x y s h = rw (h, last_from) refl

-- The queue behind the first buffer, with `b` hung behind its end.
abbrev Hung : ℕ → ℕ → Ide → List ℕ → ℕ → Type 0
Hung last x s l b =
    Chain (update s.qnext last (some b) x) (update s.qnext last (some b)) (l ++ (b ∷ []))

Chain-append :
    (f x : ℕ) (s : Ide) (l : List ℕ) (b : ℕ)
    → Chain (s.qnext x) s.qnext l
    → Distinct (x ∷ l)
    → NotIn b (x ∷ l)
    → s.qnext b ≡ none
    → length l ≤ f
    → Hung (last_from f x s) x s l b
Chain-append f x s [] b h d (ne, out) nb le =
    subst (λ k. Hung k x s [] b) (sym (last_from-alone f x s h))
      (update_self s.qnext x (some b), update-ne s.qnext x b (some b) (λ q. ne (sym q)) ∙ nb)
Chain-append zero x s (y ∷ l) b h d out nb le = absurd (omega arith)
Chain-append (suc f) x s (y ∷ l) b (e, h) (nx, d) (ne, out) nb le =
    let last = last_from f y s in
    let apart = last_from-NotIn f x y s l h nx in
    subst (λ k. Hung k x s (y ∷ l) b) (sym (last_from-next f x y s e))
      (
        update-ne s.qnext last x (some b) (λ q. apart (sym q)) ∙ e,
        Chain-append f y s l b h d out nb (omega arith),
      )

-- The queue with the controller at work on its first buffer.
pub record IsQueue (s : Ide) (l : List ℕ) : Type 0 where
  pub chain : Chain s.idequeue s.qnext l
  pub distinct : Distinct l

abbrev pub first_request : List ℕ → Option ℕ
first_request [] = none
first_request (x ∷ l) = some x

Distinct-last : (l : List ℕ) (b : ℕ) → Distinct l → NotIn b l → Distinct (l ++ (b ∷ []))
Distinct-last [] b d out = (tt, tt)
Distinct-last (x ∷ l) b (nx, d) (ne, out) =
    (NotIn-join x l (b ∷ []) nx ((λ q. ne (sym q)), tt), Distinct-last l b d out)

abbrev request_after : List ℕ → ℕ → Option ℕ → Option ℕ
request_after [] b o = some b
request_after (x ∷ l) b o = o

-- What `iderw` of `b` leaves of the queue.
abbrev Queued : ℕ → Ide → List ℕ → Ide → Type 0
Queued b s l s' = IsQueue s' (l ++ (b ∷ [])) × (s'.started ≡ request_after l b s.started)

not_first : (b x : ℕ) (o : Option ℕ) → o ≡ some x → b ≢ x → is_first b o ≡ false
not_first b x o e ne = let other : (x == b) ≡ false = ground arith in rw e other

append-Queued :
    (f b : ℕ) (s : Ide) (l : List ℕ)
    → IsQueue s l
    → NotIn b l
    → length l ≤ f
    → Queued b s l (start_if_first b (append_at f b (set_qnext b none s) s.idequeue))
unfolding idestart
append-Queued f b s [] r out le =
    let same : (b == b) ≡ true = ground arith in
    subst (λ o. Queued b s [] (start_if_first b (append_at f b (set_qnext b none s) o)))
      (sym r.chain)
      (rw same (record { chain = (refl, update_self s.qnext b none); distinct = (tt, tt) }, refl))
append-Queued f b s (x ∷ l) r (ne, out) le =
    let (e, h) = r.chain in
    let s1 = set_qnext b none s in
    let keep : s1.qnext x ≡ s.qnext x = update-ne s.qnext b x none ne in
    let h1 : Chain (s1.qnext x) s1.qnext l =
      subst (λ k. Chain k s1.qnext l) (sym keep) (Chain-frame (s.qnext x) s.qnext l b none out h) in
    let s2 : Ide = set_qnext (last_from f x s1) (some b) s1 in
    let q : Queued b s (x ∷ l) s2 = (
      record {
        chain = (
          e,
          Chain-append f x s1 l b h1 r.distinct (ne, out) (update_self s.qnext b none)
              (omega arith),
        );
        distinct = Distinct-last (x ∷ l) b r.distinct (ne, out);
      },
      refl,
    ) in
    subst (λ o. Queued b s (x ∷ l) (start_if_first b (append_at f b s1 o))) (sym e)
      (subst (λ (v : Bool). Queued b s (x ∷ l) (if v then idestart b s2 else s2))
        (sym (not_first b x s.idequeue e ne)) q)

abbrev pub no_others : List ℕ → Bool
no_others [] = true
no_others (x ∷ l) = false

sleeps-no_others :
    (b : ℕ) (s : Ide) (l : List ℕ) (s' : Ide)
    → NotIn b l
    → Queued b s l s'
    → is_first b s'.idequeue ≡ no_others l
sleeps-no_others b s [] s' out (r, e) = rw r.chain.0 (ground arith)
sleeps-no_others b s (x ∷ l) s' (ne, out) (r, e) = not_first b x s'.idequeue r.chain.0 ne

-- `iderw` of a buffer of a disk that is there, with a transfer to make, that does not wait in the
-- queue: it does not panic, the buffer waits behind the others then, the controller gets its request
-- at once when no other waits, and exactly then, if no interrupt comes in between, the caller goes to
-- sleep.
pub iderw-IsQueue :
    (nr_hd f b : ℕ) (s : Ide) (l : List ℕ)
    → IsQueue s l
    → NotIn b l
    → ((s.buf b).valid && not (s.buf b).dirty) ≡ false
    → is_there nr_hd (s.buf b).dev ≡ true
    → length l ≤ f
    → (s' : Ide) × (iderw nr_hd f b s ≡ some (no_others l, s'))
      × IsQueue s' (l ++ (b ∷ []))
      × (s'.started ≡ request_after l b s.started)
unfolding iderw
iderw-IsQueue nr_hd f b s l r out busy known le =
    let s' = start_if_first b (append_at f b (set_qnext b none s) s.idequeue) in
    let (r', e) = append-Queued f b s l r out le in
    let sleeps : is_first b s'.idequeue ≡ no_others l = sleeps-no_others b s l s' out (r', e) in
    (s', rw (busy, known, iderw) (ap (λ v. some (v, s')) sleeps), r', e)

-- The interrupt takes the first request off the queue; its buffer is valid and clean then, with the
-- block of the disk if it was read, and the controller gets the next request, if one waits.
pub ideintr-IsQueue :
    (b : ℕ) (s : Ide) (l : List ℕ)
    → IsQueue s (b ∷ l)
    → IsQueue (ideintr s) l
      × ((ideintr s).started ≡ first_request l)
      × ((ideintr s).buf b ≡ finished (s.buf b) s.disk)
unfolding ideintr idestart
ideintr-IsQueue b s l r =
    let (e, h) = r.chain in
    let (out, d) = r.distinct in
    subst
      (λ o.
        let s' = after_request s o in
        IsQueue s' l × (s'.started ≡ first_request l) × (s'.buf b ≡ finished (s.buf b) s.disk))
      (sym e) (next l h d)
  where
    next :
        (m : List ℕ)
        → Chain (s.qnext b) s.qnext m
        → Distinct m
        → let s' = after_request s (some b) in
          IsQueue s' m × (s'.started ≡ first_request m) × (s'.buf b ≡ finished (s.buf b) s.disk)
    next [] h d =
        subst
          (λ o.
            let s' = start_next o (popped b s) in
            IsQueue s' [] × (s'.started ≡ none) × (s'.buf b ≡ finished (s.buf b) s.disk))
          (sym h)
          (
            record { chain = h; distinct = d },
            refl,
            update_self s.buf b (finished (s.buf b) s.disk),
          )
    next (y ∷ m) (e, h) d =
        subst
          (λ o.
            let s' = start_next o (popped b s) in
            IsQueue s' (y ∷ m) × (s'.started ≡ some y) × (s'.buf b ≡ finished (s.buf b) s.disk))
          (sym e)
          (
            record { chain = (e, h); distinct = d },
            refl,
            update_self s.buf b (finished (s.buf b) s.disk),
          )
