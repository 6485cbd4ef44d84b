-- ===== src/Fs/Refs.antt =====
-- The references to the entries of `files`: how many descriptors of all processes hold each.
use jix.Base.{
  ℕ, zero, suc, ◌+◌, ◌≤◌, ◌<◌, ◌≡◌, refl, sym, ap, ap₂, ◌∙◌, ◌≢◌, inl, inr, arith, ◌==◌,
  if◌then◌else◌, Bool-cases, update, update_self, update-ne,
}
use jix.Kernel.State.{FilePtr, null, reserved, file, Proc, nproc}
use jix.Fs.File.{Files}
use jix.Fs.Fd.{nofile}

-- `g 0 + … + g (n - 1)`.
unfoldable pub sum : (ℕ → ℕ) → ℕ → ℕ
sum g zero = 0
sum g (suc n) = sum g n + g n

sum-same : (g h : ℕ → ℕ) (n : ℕ) → ((j : ℕ) → j < n → g j ≡ h j) → sum g n ≡ sum h n
unfolding sum
sum-same g h zero same = refl
sum-same g h (suc n) same =
    ap₂ (λ a b. a + b) (sum-same g h n (λ j lt. same j (omega arith))) (same n (omega arith))

-- Two sums whose terms differ in one place.
sum-update :
    (g h : ℕ → ℕ) (n i : ℕ) → i < n → ((j : ℕ) → j ≢ i → g j ≡ h j) → sum g n + h i ≡ sum h n + g i
unfolding sum
sum-update g h zero i lt same = absurd (omega arith)
sum-update g h (suc n) i lt same = elim (Bool-cases (i == n)) [
  | inl e ↦
      let e' : i ≡ n = ground arith in
      let rest = sum-same g h n (λ j l. same j (omega arith)) in rw e' (omega arith)
  | inr ne ↦
      let rest = sum-update g h n i (ground arith) same in
      let last = same n (ground arith) in omega arith
]

-- The term of a sum is at most the sum.
sum-term : (g : ℕ → ℕ) (n i : ℕ) → i < n → g i ≤ sum g n
unfolding sum
sum-term g zero i lt = absurd (omega arith)
sum-term g (suc n) i lt = elim (Bool-cases (i == n)) [
  | inl e ↦ let e' : i ≡ n = ground arith in rw e' (omega arith)
  | inr ne ↦ let rest = sum-term g n i (ground arith) in omega arith
]

-- 1 if the pointer is to entry `f`.
abbrev pub points : ℕ → FilePtr → ℕ
points f null = 0
points f reserved = 0
points f (file g) = if g == f then 1 else 0

unfoldable pub held : ℕ → (ℕ → FilePtr) → ℕ
held f o = sum (λ fd. points f (o fd)) nofile

-- The descriptors of all processes that hold entry `f`.
unfoldable pub refs : ℕ → (ℕ → Proc) → ℕ
refs f t = sum (λ i. held f (t i).ofile) nproc

-- Each entry counts its references.
abbrev pub IsCounted : {I : Type 0} → Files I → Type 0
IsCounted s = (f : ℕ) → (s.files f).ref ≡ refs f s.kernel.ptable

-- Writing descriptor `fd` of process `i`.
pub refs-set :
    (f i fd : ℕ) (p : FilePtr) (q : Proc) (t : ℕ → Proc)
    → i < nproc
    → fd < nofile
    → q.ofile ≡ update (t i).ofile fd p
    → refs f (update t i q) + points f ((t i).ofile fd) ≡ refs f t + points f p
unfolding held refs
refs-set f i fd p q t li lf e =
    let o = (t i).ofile in
    let one : held f (update o fd p) + points f (o fd) ≡ held f o + points f (update o fd p fd) =
      sum-update (λ x. points f (update o fd p x)) (λ x. points f (o x)) nofile fd lf
        (λ j ne. ap (points f) (update-ne o fd j p (λ h. ne (sym h)))) in
    let here : points f (update o fd p fd) ≡ points f p = ap (points f) (update_self o fd p) in
    let all : refs f (update t i q) + held f o ≡ refs f t + held f (update t i q i).ofile =
      sum-update (λ x. held f (update t i q x).ofile) (λ x. held f (t x).ofile) nproc i li
        (λ j ne. ap (λ (r : Proc). held f r.ofile) (update-ne t i j q (λ h. ne (sym h)))) in
    let mine : held f (update t i q i).ofile ≡ held f (update o fd p) =
      ap (λ (r : Proc). held f r.ofile) (update_self t i q) ∙ ap (held f) e in
    omega arith

-- An open descriptor is a reference.
pub refs-open :
    (f i fd : ℕ) (t : ℕ → Proc) → i < nproc → fd < nofile → (t i).ofile fd ≡ file f → 0 < refs f t
unfolding held refs
refs-open f i fd t li lf e =
    let one : points f ((t i).ofile fd) ≤ held f (t i).ofile =
      sum-term (λ x. points f ((t i).ofile x)) nofile fd lf in
    let all : held f (t i).ofile ≤ refs f t = sum-term (λ x. held f (t x).ofile) nproc i li in
    let it : points f ((t i).ofile fd) ≡ 1 = ap (points f) e ∙ self f in omega arith
  where
    self : (f : ℕ) → points f (file f) ≡ 1
    self f = ground arith

-- Tables with the same descriptors.
pub refs-same :
    (f : ℕ) (t u : ℕ → Proc) → ((i : ℕ) → (t i).ofile ≡ (u i).ofile) → refs f t ≡ refs f u
unfolding refs
refs-same f t u same =
    sum-same (λ i. held f (t i).ofile) (λ i. held f (u i).ofile) nproc
      (λ j lt. ap (held f) (same j))
