-- ===== src/Planning/Local.antt =====
-- Local paths, and what `expand_related` of crates/netlane-core/src/planning.rs puts together from one.
use netlane.Prelude.{
  ℕ, Bool, true, false, not, ◌&&◌, ◌||◌, [], ◌∷◌, ◌++◌, some, ◌≡◌, ◌⊎◌, ◌∙◌, refl, sym, ap, subst,
  arith, All, All-append, inl, inr, Bool-cases, Text, any, text, ◌==◌, reverse, str_eq,
}
use mathlib.Core.List.{reverse_aux, reverse_aux-eq, reverse_aux-append}
use netlane.Model.Policies.{is_ascii_alphabetic, is_local_path, is_separator}
use netlane.Planning.{names, folders, candidate, root_of, before_separator}

-- Without a NUL.
abbrev pub Clean : Text → Type 0
Clean = All (λ c. (c == 0) ≡ false)

any-Clean : (t : Text) → any (λ c. c == 0) t ≡ false → Clean t
any-Clean [] h = tt
any-Clean (c ∷ cs) h = (ground (arith, h), any-Clean cs (ground (arith, h)))

Clean-any : (t : Text) → Clean t → any (λ c. c == 0) t ≡ false
Clean-any [] h = refl
Clean-any (c ∷ cs) h = ground (arith, h.0, Clean-any cs h.1)

any-append : (t s : Text) → Clean s → any (λ c. c == 0) (t ++ s) ≡ any (λ c. c == 0) t
any-append [] s h = Clean-any s h
any-append (c ∷ cs) s h = ap (λ b. c == 0 || b) (any-append cs s h)

reverse_aux-Clean : (s t : Text) → Clean s → Clean t → Clean (reverse_aux s t)
reverse_aux-Clean [] t h k = k
reverse_aux-Clean (c ∷ cs) t h k = reverse_aux-Clean cs (c ∷ t) h.1 (h.0, k)

before_separator-Clean : (t root : Text) → Clean t → before_separator t ≡ some root → Clean root
unfolding before_separator
before_separator-Clean [] root h e = cc
before_separator-Clean (c ∷ cs) root h e = elim (Bool-cases (is_separator c)) [
  | inl s ↦
      let q : reverse cs ≡ root = ground (arith, e, s) in
      subst Clean q (reverse_aux-Clean cs [] h.1 tt)
  | inr s ↦ before_separator-Clean cs root h.1 (ground (arith, e, s))
]

local-append : (t s : Text) → is_local_path t ≡ true → Clean s → is_local_path (t ++ s) ≡ true
unfolding is_local_path
local-append [] s h k = cc
local-append (c ∷ []) s h k = cc
local-append (c ∷ d ∷ []) s h k = cc
local-append (c ∷ d ∷ e ∷ cs) s h k =
    subst (λ x. (is_ascii_alphabetic c && d == b':' && is_separator e && not x) ≡ true)
      (sym (any-append (c ∷ d ∷ e ∷ cs) s k)) h

-- The root of a local path: the drive, or more than it.
abbrev Rooted : ℕ → ℕ → ℕ → Text → Type 0
Rooted c d e root = (root ≡ c ∷ d ∷ []) ⊎ ((rest : Text) × (root ≡ c ∷ d ∷ e ∷ rest))

before_separator-Rooted :
    (c d e : ℕ) (t root : Text)
    → is_separator e ≡ true
    → before_separator (t ++ e ∷ d ∷ c ∷ []) ≡ some root
    → Rooted c d e root
unfolding before_separator
before_separator-Rooted c d e [] root s h = inl (ground (arith, s, h))
before_separator-Rooted c d e (x ∷ t) root s h = elim (Bool-cases (is_separator x)) [
  | inl at ↦
      let q : reverse (t ++ e ∷ d ∷ c ∷ []) ≡ root = ground (arith, h, at) in
      inr (reverse t, sym q ∙ reverse_aux-append t (e ∷ d ∷ c ∷ []) [])
  | inr past ↦ before_separator-Rooted c d e t root s (ground (arith, h, past))
]

conjuncts :
    (a b c x : Bool)
    → (a && b && c && not x) ≡ true
    → (a ≡ true) × (b ≡ true) × (c ≡ true) × (x ≡ false)
conjuncts a b c x h = ground arith

local_of :
    (c d e : ℕ) (cs : Text)
    → is_ascii_alphabetic c ≡ true
    → (d == b':') ≡ true
    → is_separator e ≡ true
    → Clean (c ∷ d ∷ e ∷ cs)
    → is_local_path (c ∷ d ∷ e ∷ cs) ≡ true
unfolding is_local_path
local_of c d e cs a b s k =
    let clean = Clean-any (c ∷ d ∷ e ∷ cs) k in
    ap (λ x. is_ascii_alphabetic c && d == b':' && is_separator e && not x) clean
    ∙ ground (arith, a, b, s)

-- Behind the root of a local path, what follows is local.
pub root_of-local :
    (path root : Text)
    → is_local_path path ≡ true
    → root_of path ≡ some root
    → is_local_path (root ++ text "\\") ≡ true
unfolding is_local_path root_of text
root_of-local [] root h e = cc
root_of-local (c ∷ []) root h e = cc
root_of-local (c ∷ d ∷ []) root h e = cc
root_of-local (c ∷ d ∷ f ∷ cs) root h e =
    let (a, b, separated, unbroken) =
      conjuncts (is_ascii_alphabetic c) (d == b':') (is_separator f)
        (any (λ x. x == 0) (c ∷ d ∷ f ∷ cs)) h in
    let clean =
      before_separator-Clean (reverse path) root
        (reverse_aux-Clean path [] (any-Clean path unbroken) tt) e in
    let there =
      subst (λ t. before_separator t ≡ some root) (reverse_aux-eq cs (f ∷ d ∷ c ∷ [])) e in
    elim (before_separator-Rooted c d f (reverse cs) root separated there) [
      | inl q ↦ rw q (
          local_of c d b'\\' [] a b refl (
            All-append (λ x. (x == 0) ≡ false) (c ∷ d ∷ []) (b'\\' ∷ []) (subst Clean q clean)
              (refl, tt)))
      | inr (rest, q) ↦ rw q (
          local_of c d f (rest ++ b'\\' ∷ []) a b separated (
            All-append (λ x. (x == 0) ≡ false) (c ∷ d ∷ f ∷ rest) (b'\\' ∷ []) (subst Clean q clean)
              (refl, tt)))
    ]
  where
    path : Text
    path = c ∷ d ∷ f ∷ cs

pub candidate-local :
    (root name folder : Text)
    → is_local_path (root ++ text "\\") ≡ true
    → Clean name
    → Clean folder
    → is_local_path (candidate root name folder) ≡ true
unfolding text
candidate-local root name [] h n f = local-append (root ++ text "\\") name h n
candidate-local root name (c ∷ cs) h n f =
    local-append (root ++ text "\\" ++ (c ∷ cs) ++ text "\\") name
      (local-append (root ++ text "\\" ++ (c ∷ cs)) (text "\\")
        (local-append (root ++ text "\\") (c ∷ cs) h f) (refl, tt))
      n

pub names-Clean : All Clean names
unfolding names text
names-Clean = search

pub folders-Clean : (name : Text) → All Clean (folders name)
unfolding text
folders-Clean name = elim (Bool-cases (str_eq name (text "steamwebhelper.exe"))) [
  | inl e ↦ rw e (search)
  | inr e ↦ rw e (search)
]

-- The paths that may be asked about.
abbrev pub IsLocal : Text → Type 0
IsLocal t = is_local_path t ≡ true
