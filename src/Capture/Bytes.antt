-- ===== src/Capture/Bytes.antt =====
-- Bytes, their numbers and their decimal print, as crates/netlane-capture uses them.
use netlane.Prelude.{
  ℕ, zero, suc, ◌+◌, ◌-◌, ◌*◌, ◌/◌, ◌%◌, ◌<◌, List, [], ◌∷◌, ◌++◌, length, take, drop, get_elem?,
  Option, none, some, Text, ◌&&◌, leb, ltb, if◌then◌else◌, All,
}

abbrev pub IsBytes : List ℕ → Type 0
IsBytes = All λ b. b < 256

-- `bytes.get(a..b)`
abbrev pub get_range? : List ℕ → ℕ → ℕ → Option (List ℕ)
get_range? bytes a b =
    if leb a b && leb b (length bytes) then some (take (b - a) (drop a bytes)) else none

-- `word`: both bytes, or none.
unfoldable pub word : List ℕ → ℕ → Option ℕ
word bytes offset = elim (get_elem? bytes offset) [
  | none ↦ none
  | some a ↦ elim (get_elem? bytes (offset + 1)) [ none ↦ none | some b ↦ some (a * 256 + b) ]
]

-- `{n}`: the decimal digits; twenty of them hold every `u64`.
pub digits : ℕ → ℕ → Text
digits zero n = []
digits (suc k) n =
    let front = digits k (n / 10) in
    if ltb n 10 then (b'0' + n) ∷ [] else front ++ (b'0' + n % 10) ∷ []

unfoldable pub show : ℕ → Text
unfolding digits
show n = digits 20 n

-- `join`
unfoldable pub join : Text → List Text → Text
join separator [] = []
join separator (t ∷ []) = t
join separator (t ∷ u ∷ ts) = t ++ separator ++ join separator (u ∷ ts)

-- `to_le_bytes`, of so many bytes.
abbrev pub le_bytes : ℕ → ℕ → List ℕ
le_bytes zero n = []
le_bytes (suc k) n = n % 256 ∷ le_bytes k (n / 256)
