-- ===== src/Base/Table.antt =====
-- Arrays as families indexed by numbers, loops over a range of indices, and a search with `break`.
use Prim.Native.Nat.{ℕ, zero, suc, ◌+◌, ◌≤◌, ◌<◌}
use mathlib.Core.Path.{◌≡◌, refl}
use mathlib.Core.Logic.{◌≢◌, ◌⊎◌, inl, inr}
use mathlib.Core.Bool.{Bool, true, false}
use mathlib.Core.Option.{Option, none, some}
use native.Mathlib.Omega.{arith}
use jix.Base.Tests.{◌==◌, if◌then◌else◌, Bool-cases}

-- `f[i] = a`.
abbrev pub update {ℓ} : {A : Type ℓ} → (ℕ → A) → ℕ → A → ℕ → A
update f i a j = if i == j then a else f j

pub update_self {ℓ} : {A : Type ℓ} (f : ℕ → A) (i : ℕ) (a : A) → update f i a i ≡ a
update_self f i a = let same : (i == i) ≡ true = ground arith in rw same

pub update-ne {ℓ} : {A : Type ℓ} (f : ℕ → A) (i j : ℕ) (a : A) → i ≢ j → update f i a j ≡ f j
update-ne f i j a ne = let other : (i == j) ≡ false = ground arith in rw other

-- `for (; n; n--, i++) if (test(i)) break;`: the first index of the range that passes the test.
unfoldable pub find_from : (ℕ → Bool) → ℕ → ℕ → Option ℕ
find_from test zero i = none
find_from test (suc n) i = elim (test i) [ true ↦ some i | false ↦ find_from test n (i + 1) ]

-- Where the search stops: at the first hit, or nowhere because the whole range fails the test.
abbrev pub Found : (ℕ → Bool) → ℕ → ℕ → Option ℕ → Type 0
Found test n i (some k) =
    (i ≤ k) × (k < i + n) × (test k ≡ true) × ((j : ℕ) → i ≤ j → j < k → test j ≡ false)
Found test n i none = (j : ℕ) → i ≤ j → j < i + n → test j ≡ false

-- One more index that fails the test in front of a search.
Found-suc :
    (test : ℕ → Bool) (n i : ℕ) (r : Option ℕ)
    → test i ≡ false
    → Found test n (i + 1) r
    → Found test (suc n) i r
Found-suc test n i none miss h = λ j lo hi. elim (Bool-cases (i == j)) [
  | inl e ↦ let e' : i ≡ j = ground arith in rw e' at miss
  | inr ne ↦ h j (ground arith) (omega arith)
]
Found-suc test n i (some k) miss (lo, hi, hit, before) = (
  omega arith,
  omega arith,
  hit,
  λ j l u. elim (Bool-cases (i == j)) [
    | inl e ↦ let e' : i ≡ j = ground arith in rw e' at miss
    | inr ne ↦ before j (ground arith) u
  ],
)

pub find_from-Found : (test : ℕ → Bool) (n i : ℕ) → Found test n i (find_from test n i)
unfolding find_from
find_from-Found test zero i = λ j lo hi. absurd (omega arith)
find_from-Found test (suc n) i = go (test i) refl (find_from-Found test n (i + 1))
  where
    go :
        (b : Bool)
        → test i ≡ b
        → Found test n (i + 1) (find_from test n (i + 1))
        → Found test (suc n) i (elim b [ true ↦ some i | false ↦ find_from test n (i + 1) ])
    go true hit rest = (omega arith, omega arith, hit, λ j lo hi. absurd (omega arith))
    go false miss rest = Found-suc test n i _ miss rest

pub find_from-some :
    (test : ℕ → Bool) (n i k : ℕ)
    → find_from test n i ≡ some k
    → (i ≤ k) × (k < i + n) × (test k ≡ true) × ((j : ℕ) → i ≤ j → j < k → test j ≡ false)
find_from-some test n i k e =
    let h : Found test n i (find_from test n i) = find_from-Found test n i in rw e at h

pub find_from-none :
    (test : ℕ → Bool) (n i : ℕ)
    → find_from test n i ≡ none
    → (j : ℕ) → i ≤ j
    → j < i + n
    → test j ≡ false
find_from-none test n i e =
    let h : Found test n i (find_from test n i) = find_from-Found test n i in rw e at h

-- `for (; n; n--, i++) s = body(i, s);`.
unfoldable pub for_range {ℓ} : {S : Type ℓ} → (ℕ → S → S) → ℕ → ℕ → S → S
for_range body zero i s = s
for_range body (suc n) i s = for_range body n (i + 1) (body i s)

-- The search stops at an index that passes the test while all before it fail.
pub find_from-first :
    (test : ℕ → Bool) (n i k : ℕ)
    → i ≤ k
    → k < i + n
    → test k ≡ true
    → ((j : ℕ) → i ≤ j → j < k → test j ≡ false)
    → find_from test n i ≡ some k
unfolding find_from
find_from-first test zero i k lo hi hit before = absurd (omega arith)
find_from-first test (suc n) i k lo hi hit before = elim (Bool-cases (i == k)) [
  | inl e ↦
      let e' : i ≡ k = ground arith in
      let hit' : test i ≡ true = rw e' hit in rw (hit', find_from, e')
  | inr ne ↦
      let miss : test i ≡ false = before i (omega arith) (ground arith) in
      rw (miss, find_from)
        (find_from-first test n (i + 1) k (ground arith) (omega arith) hit
          (λ j l h. before j (omega arith) h))
]

-- The invariant rule for such a loop. The end is a variable with an equation.
pub for_range-keeps {ℓ κ} :
    {S : Type ℓ} (P : ℕ → S → Type κ) (body : ℕ → S → S) (n i end : ℕ) (s : S)
    → i + n ≡ end
    → ((j : ℕ) (r : S) → j < end → P j r → P (j + 1) (body j r))
    → P i s
    → P end (for_range body n i s)
unfolding for_range
for_range-keeps P body zero i end s e keep h = let here : i ≡ end = omega arith in rw (← here) h
for_range-keeps P body (suc n) i end s e keep h =
    for_range-keeps P body n (i + 1) end (body i s) (omega arith) keep (keep i s (omega arith) h)

-- A loop whose round `i` rewrites entry `i` of a table, from that entry alone.
unfoldable pub map_range : {A : Type 0} → (A → A) → ℕ → ℕ → (ℕ → A) → ℕ → A
map_range g zero i t = t
map_range g (suc n) i t = map_range g n (i + 1) (update t i (g (t i)))

pub map_range-outside :
    {A : Type 0} (g : A → A) (n i : ℕ) (t : ℕ → A) (j : ℕ)
    → (j < i) ⊎ (i + n ≤ j)
    → map_range g n i t j ≡ t j
unfolding map_range
map_range-outside g zero i t j h = refl
map_range-outside g (suc n) i t j h =
    ground (arith, map_range-outside g n (i + 1) (update t i (g (t i))) j)

pub map_range-inside :
    {A : Type 0} (g : A → A) (n i : ℕ) (t : ℕ → A) (j : ℕ)
    → i ≤ j
    → j < i + n
    → map_range g n i t j ≡ g (t j)
unfolding map_range
map_range-inside g zero i t j lo hi = absurd (omega arith)
map_range-inside g (suc n) i t j lo hi = elim (Bool-cases (i == j)) [
  | inl e ↦
      let e' : i ≡ j = ground arith in
      ground (arith, map_range-outside g n (i + 1) (update t i (g (t i))) j)
  | inr ne ↦ ground (arith, map_range-inside g n (i + 1) (update t i (g (t i))) j)
]
