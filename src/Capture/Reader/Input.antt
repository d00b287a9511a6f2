-- ===== src/Capture/Reader/Input.antt =====
-- crates/netlane-capture/src/reader.rs: the input and what reads from it. The file is its bytes, and what
-- comes behind the last of them: its end, or an error such as a cancellation. A panic and a loop that runs
-- out of fuel are an outcome of their own.
use netlane.Prelude.{
  ℕ, ◌+◌, ◌-◌, ◌*◌, min, Bool, true, false, List, [], ◌∷◌, ◌++◌, length, take, drop, reverse,
  Option, none, some, Text, text, leb, if◌then◌else◌,
}
use netlane.Capture.Bytes.{get_range?}
use netlane.Capture.Types.{CaptureFile}

-- `struct Limits`
pub record Limits : Type 0 where
  pub bytes : ℕ
  pub records : ℕ
  pub retain : Bool

-- The input with the capture so far and the state of the sink.
pub record Reading (S : Type 0) : Type 0 where
  pub rest : List ℕ
  pub ending : Option Text
  pub count : ℕ
  pub capture : CaptureFile
  pub sunk : S

pub data Read (A : Type 0) : Type 0 where
  failed : Text → Read A
  panicked : Read A
  got : A → Read A

abbrev pub M : Type 0 → Type 0 → Type 0
M S A = Reading S → Read (A × Reading S)

infixl 5 ◌>>=◌ ◌>>◌
unfoldable pub ◌>>=◌ : {S A B : Type 0} → M S A → (A → M S B) → M S B
◌>>=◌ m f r = elim (m r) [ failed e ↦ failed e | panicked ↦ panicked | got p ↦ f p.0 p.1 ]

unfoldable pub ◌>>◌ : {S A B : Type 0} → M S A → M S B → M S B
m >> k = m >>= λ _. k

abbrev pub pure : {S A : Type 0} → A → M S A
pure a r = got (a, r)

-- A step that reads nothing.
unfoldable pub lift : {S A : Type 0} → Read A → M S A
lift (failed e) r = failed e
lift panicked r = panicked
lift (got a) r = got (a, r)

-- `ensure!`
unfoldable pub ask : {S : Type 0} → Bool → Text → M S (Unit {0})
ask true m r = got (tt, r)
ask false m r = failed m

-- An index, or an `unwrap`.
unfoldable pub unwrap : {S A : Type 0} → Option A → M S A
unwrap none r = panicked
unwrap (some a) r = got (a, r)

-- `context`
unfoldable pub context : {S A : Type 0} → Option A → Text → M S A
context none m r = failed m
context (some a) m r = got (a, r)

abbrev pub le_value : List ℕ → ℕ
le_value [] = 0
le_value (b ∷ bs) = b + 256 * le_value bs

-- `Endian`, at an offset: `none` where the slice would panic.
unfoldable pub number : Bool → ℕ → List ℕ → ℕ → Option ℕ
number little size bytes offset = elim (get_range? bytes offset (offset + size)) [
  | none ↦ none
  | some range ↦ some (le_value (if little then range else reverse range))
]

-- What a read beyond the last byte says.
abbrev pub at_end : Option Text → Text
at_end none = text "failed to fill whole buffer"
at_end (some m) = m

module _ {S : Type 0} (limits : Limits) where
  -- `read_exact` under a context.
  unfoldable pub fill : ℕ → Text → M S (List ℕ)
  fill size wanted r =
      if leb (r.count + min size (length r.rest)) limits.bytes
      then (if leb size (length r.rest)
          then got (take size r.rest, record r { rest = drop size r.rest; count = r.count + size })
          else failed (wanted ++ text ": " ++ at_end r.ending))
      else failed (wanted ++ text ": A captura excede o limite de leitura configurado.")

  -- `Input::exact`
  abbrev pub exact : ℕ → M S (List ℕ)
  exact size = fill size (text "Arquivo de captura truncado")

  -- `Input::next`, by what is left of the file.
  unfoldable pub next_at : ℕ → List ℕ → M S (Option (List ℕ))
  next_at size [] r = elim r.ending [ none ↦ got (none, r) | some m ↦ failed m ]
  next_at size (b ∷ bs) r =
      if leb (r.count + 1) limits.bytes
      then (fill (size - 1) (text "Cabeçalho de captura truncado") >>= λ more.
            pure (some (b ∷ more)))
          (record r { rest = bs; count = r.count + 1 })
      else failed (text "A captura excede o limite de leitura configurado.")

  unfoldable pub next : ℕ → M S (Option (List ℕ))
  next size r = next_at size r.rest r

  -- `Input::bytes`
  unfoldable pub bytes : ℕ → ℕ → M S (List ℕ)
  bytes size limit =
      ask (leb size limit) (text "Registro de captura excede o limite de leitura.")
      >> fill size (text "Dados de captura truncados")
