-- ===== src/Fs/PathNames.antt =====
-- The loop of `namex` of fs/inode.c goes through the names between the slashes of a path.
use jix.Base.{
  ℕ, zero, suc, ◌+◌, ◌≤◌, ◌<◌, ◌≡◌, refl, sym, ap, ◌∙◌, fun_ext, ◌⊎◌, inl, inr, Bool, true, false,
  ◌&&◌, Option, List, [], ◌∷◌, ◌++◌, arith, ◌==◌, if◌then◌else◌, Bool-cases, length, take,
  append_assoc, append-nil,
}
use jix.Fs.Inode.{Action, ◌>>=◌, on_option, iget, idup}
use jix.Fs.Dir.{namelen}
use jix.Fs.Namei.{
  slash, skip_slashes, element, skip_element, split_path, skipelem, is_empty, enter, at_end, walk,
  get_cwd, rootino, is_absolute, namex,
}

-- The names between slashes, each cut at `NAMELEN` bytes, with `w` the bytes of the name so far.
abbrev pub name_of : List ℕ → List (List ℕ)
name_of [] = []
name_of (c ∷ w) = take namelen (c ∷ w) ∷ []

unfoldable pub names_from : List ℕ → List ℕ → List (List ℕ)
names_from w [] = name_of w
names_from w (c ∷ l) =
    let split = name_of w ++ names_from [] l in
    let on = names_from (w ++ (c ∷ [])) l in if c == slash then split else on

abbrev pub names : List ℕ → List (List ℕ)
names path = names_from [] path

abbrev no_more : List (List ℕ) → Bool
no_more [] = true
no_more (n ∷ l) = false

-- The way along a list of names.
unfoldable pub descend : Bool → ℕ → List (List ℕ) → Action (Option (ℕ × List ℕ))
descend parent ip [] = at_end parent ip
descend parent ip (n ∷ l) = enter (parent && no_more l) ip n λ next. descend parent next l

names-element :
    (w l : List ℕ) → names_from w l ≡ name_of (w ++ element l) ++ names_from [] (skip_element l)
unfolding names_from element skip_element
names-element w [] = rw (append-nil w, append-nil (name_of w)) refl
names-element w (c ∷ l) = elim (Bool-cases (c == slash)) [
  | inl e ↦ rw (e, append-nil w, e) refl
  | inr ne ↦ rw ne (
      names-element (w ++ (c ∷ [])) l
      ∙ ap (λ z. name_of z ++ names_from [] (skip_element l)) (append_assoc w (c ∷ []) (element l)))
]

names-skip_slashes : (l : List ℕ) → names (skip_slashes l) ≡ names l
unfolding names_from skip_slashes
names-skip_slashes [] = refl
names-skip_slashes (c ∷ l) = elim (Bool-cases (c == slash)) [
  | inl e ↦ rw e (names-skip_slashes l)
  | inr ne ↦ rw (ne, ne) refl
]

-- A path that does not begin with a slash: its first name, and the rest.
names-cons :
    (c : ℕ) (l : List ℕ)
    → (c == slash) ≡ false
    → names (c ∷ l) ≡ take namelen (element (c ∷ l)) ∷ names (skip_slashes (skip_element (c ∷ l)))
unfolding element
names-cons c l ne =
    names-element [] (c ∷ l)
    ∙ rw ne (
        ap (λ z. take namelen (c ∷ element l) ∷ z)
          (sym (names-skip_slashes (skip_element (c ∷ l)))))

-- Behind the slashes a path is at its end, or at a name.
slashes-cases :
    (l : List ℕ)
    → (skip_slashes l ≡ [])
      ⊎ ((c : ℕ) × (m : List ℕ) × (skip_slashes l ≡ c ∷ m)
          × ((c == slash) ≡ false)
          × (length m < length l))
unfolding skip_slashes
slashes-cases [] = inl refl
slashes-cases (c ∷ l) = elim (Bool-cases (c == slash)) [
  | inl e ↦ elim (slashes-cases l) [
    | inl nil ↦ inl (rw e nil)
    | inr (b, m, is, ne, lt) ↦ inr (b, m, rw e is, ne, omega arith)
  ]
  | inr ne ↦ inr (c, l, rw ne refl, ne, omega arith)
]

skip_slashes-shorter : (l : List ℕ) → length (skip_slashes l) ≤ length l
unfolding skip_slashes
skip_slashes-shorter [] = omega arith
skip_slashes-shorter (c ∷ l) =
    let rest = skip_slashes-shorter l in
    elim (Bool-cases (c == slash)) [ inl e ↦ rw e (omega arith) | inr ne ↦ rw ne (omega arith) ]

skip_element-shorter : (l : List ℕ) → length (skip_element l) ≤ length l
unfolding skip_element
skip_element-shorter [] = omega arith
skip_element-shorter (c ∷ l) =
    let rest = skip_element-shorter l in
    elim (Bool-cases (c == slash)) [ inl e ↦ rw e (omega arith) | inr ne ↦ rw ne (omega arith) ]

rest-shorter :
    (c : ℕ) (m : List ℕ)
    → (c == slash) ≡ false
    → length (skip_slashes (skip_element (c ∷ m))) ≤ length m
unfolding skip_element
rest-shorter c m ne =
    let a = skip_slashes-shorter (skip_element m) in
    let b = skip_element-shorter m in rw ne (omega arith)

-- The test of the end of a path behind its slashes.
no_more-names : (l : List ℕ) → is_empty (skip_slashes l) ≡ no_more (names (skip_slashes l))
unfolding names_from
no_more-names l = elim (slashes-cases l) [
  | inl nil ↦ rw nil refl
  | inr (c, m, is, ne, lt) ↦ rw (is, names-cons c m ne) refl
]

-- With more fuel than the path has bytes.
walk-descend :
    (f : ℕ) (parent : Bool) (ip : ℕ) (path : List ℕ)
    → length path < f
    → walk f parent ip path ≡ descend parent ip (names path)
unfolding walk skipelem on_option split_path descend names_from
walk-descend zero parent ip path lt = absurd (omega arith)
walk-descend (suc f) parent ip path lt = elim (slashes-cases path) [
  | inl nil ↦
      let e : names path ≡ [] = sym (names-skip_slashes path) ∙ ap names nil in rw (nil, e) refl
  | inr (c, m, is, ne, shorter) ↦
      let e : names path ≡ names (c ∷ m) = sym (names-skip_slashes path) ∙ ap names is in
      let rest = skip_slashes (skip_element (c ∷ m)) in
      let short = rest-shorter c m ne in
      let on : (next : ℕ) → walk f parent next rest ≡ descend parent next (names rest) =
        λ next. walk-descend f parent next rest (omega arith) in
      rw (is, e, names-cons c m ne, ← no_more-names (skip_element (c ∷ m)))
        (ap (enter (parent && is_empty rest) ip (take namelen (element (c ∷ m)))) (fun_ext on))
]

-- `namex` of any path, of its last element or of the parent, is `descend` along the list of the names
-- between its slashes, each cut at 16 bytes: from the root when it begins with a slash, and else from
-- the current directory. The fuel of its loop is enough.
pub namex-descend :
    (path : List ℕ) (parent : Bool)
    → namex path parent ≡ (
        get_cwd >>= λ cwd. (if is_absolute path then iget 0 rootino else idup cwd) >>= λ ip.
        descend parent ip (names path))
unfolding namex
namex-descend path parent =
    ap
      (λ (on : ℕ → Action (Option (ℕ × List ℕ))).
        get_cwd >>= λ cwd. (if is_absolute path then iget 0 rootino else idup cwd) >>= on)
      (fun_ext λ ip. walk-descend (length path + 1) parent ip path (omega arith))
