-- ===== src/Fs/Keeps.antt =====
-- Invariants of the actions of fs/inode.c, one rule for each way to build an action.
use jix.Base.{ℕ, Bool, true, false, Option, none, some, if◌then◌else◌}
use jix.Fs.Inode.{Inodes, Action, ◌>>=◌, pure, panic, require, get_inode, on_option, get_disk}

-- `P` holds of the state that a call leaves, unless it panicked.
abbrev pub Holds : {A : Type 0} → (Inodes → Type 0) → Option (A × Inodes) → Type 0
Holds P none = Unit {0}
Holds P (some (a, s)) = P s

-- `m` keeps `P`.
pub record Keeps {A : Type 0} (P : Inodes → Type 0) (m : Action A) : Type 0 where
  pub at : (s : Inodes) → P s → Holds P (m s)

module _ {P : Inodes → Type 0} where
  pub Keeps-require : (b : Bool) → Keeps P (require b)
  unfolding require
  Keeps-require true = record { at = λ s h. h }
  Keeps-require false = record { at = λ s h. tt }

  pub Keeps-get_inode : (ip : ℕ) → Keeps P (get_inode ip)
  unfolding get_inode
  Keeps-get_inode ip = record { at = λ s h. h }

  pub Keeps-get_disk : Keeps P get_disk
  unfolding get_disk
  Keeps-get_disk = record { at = λ s h. h }

module _ {A : Type 0} {P : Inodes → Type 0} where
  pub Keeps-pure : (a : A) → Keeps P (pure a)
  unfolding pure
  Keeps-pure a = record { at = λ s h. h }

  pub Keeps-panic : Keeps P (panic {A = A})
  unfolding panic
  Keeps-panic = record { at = λ s h. tt }

  pub Keeps-if : (b : Bool) (m n : Action A) → Keeps P m → Keeps P n → Keeps P (if b then m else n)
  Keeps-if true m n km kn = km
  Keeps-if false m n km kn = kn

module _ {A B : Type 0} {P : Inodes → Type 0} where
  pub Keeps-option :
      (o : Option B) (m : Action A) (f : B → Action A)
      → Keeps P m
      → ((b : B) → Keeps P (f b))
      → Keeps P (on_option o m f)
  unfolding on_option
  Keeps-option none m f km kf = km
  Keeps-option (some b) m f km kf = kf b

  continue-Holds :
      (r : Option (A × Inodes)) (f : A → Action B)
      → Holds P r
      → ((a : A) → Keeps P (f a))
      → Holds P (elim r [ none ↦ none | some (a, s) ↦ f a s ])
  continue-Holds none f h kf = tt
  continue-Holds (some (a, s)) f h kf = (kf a).at s h

  pub Keeps-bind :
      (m : Action A) (f : A → Action B) → Keeps P m → ((a : A) → Keeps P (f a)) → Keeps P (m >>= f)
  unfolding ◌>>=◌
  Keeps-bind m f km kf = record { at = λ s h. continue-Holds (m s) f (km.at s h) kf }

pub ruleset keeps_rules = (
  Keeps-require, Keeps-get_inode, on_option, Keeps-get_disk, Keeps-pure, Keeps-panic, Keeps-if,
  Keeps-option, Keeps-bind,
)
