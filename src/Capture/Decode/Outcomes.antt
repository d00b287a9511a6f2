-- ===== src/Capture/Decode/Outcomes.antt =====
-- The outcomes of decode.rs (crates/netlane-capture/src/decode.rs): a panic, an early return of the
-- summary so far, or a value to go on with.
use netlane.Prelude.{ℕ, Bool, true, false, List, get_elem?, Option, none, some, Text}
use netlane.Capture.Bytes.{get_range?}

-- `Summary`
pub record Summary : Type 0 where
  pub protocol : Text
  pub source : Text
  pub destination : Text
  pub info : Text
  pub service : Text
  pub payload : Option (ℕ × ℕ)

pub data Flow (A : Type 0) : Type 0 where
  panic : Flow A
  done : Summary → Flow A
  next : A → Flow A

infixl 5 ◌>>=◌ ◌>>◌
unfoldable pub ◌>>=◌ : {A B : Type 0} → Flow A → (A → Flow B) → Flow B
panic >>= f = panic
done s >>= f = done s
next a >>= f = f a

unfoldable pub ◌>>◌ : {A B : Type 0} → Flow A → Flow B → Flow B
panic >> k = panic
done s >> k = done s
next a >> k = k

-- `unwrap`
unfoldable pub unwrap : {A : Type 0} → Option A → Flow A
unwrap none = panic
unwrap (some a) = next a

-- `bytes[i]` and `&bytes[a..b]`
abbrev pub at : List ℕ → ℕ → Flow ℕ
at bytes i = unwrap (get_elem? bytes i)

abbrev pub slice : List ℕ → ℕ → ℕ → Flow (List ℕ)
slice bytes a b = unwrap (get_range? bytes a b)

-- `if b { …; return s; }`
unfoldable pub return_if : Bool → Summary → Flow (Unit {0})
return_if true s = done s
return_if false s = next tt
