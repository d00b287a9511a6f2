-- ===== src/Windows/Protocol/Frames.antt =====
-- crates/netlane-windows/src/protocol.rs: `send`, `receive` and the reader of `Inbox`, over the bytes that
-- the peer has written before it closed the pipe. The JSON of a message is a parameter.
pub mod RoundTrip
mod Tests
use netlane.Prelude.{
  ℕ, zero, suc, ◌+◌, ◌*◌, ◌/◌, ◌%◌, ◌≡◌, ◌<◌, not, ◌&&◌, List, [], ◌∷◌, ◌++◌, length, take, drop,
  Text, text, ltb, leb, if◌then◌else◌, Result, ok, err, ensure, ◌>>=◌, ◌>>◌,
}
use netlane.Windows.Protocol.{Message}

-- `MAX_MESSAGE_BYTES`
abbrev pub max_message_bytes : ℕ
max_message_bytes = 8388608

-- `serde_json`, and the error of a pipe that ends early.
pub record Wire (V : Type 0) : Type 0 where
  pub to_vec : Message V → Result (List ℕ)
  pub from_slice : List ℕ → Result (Message V)
  pub eof : Text

-- What the code relies on: a message reads back, and its text is not empty.
pub record IsWire {V : Type 0} (wire : Wire V) : Type 0 where
  pub reads_back : (m : Message V) (b : List ℕ) → wire.to_vec m ≡ ok b → wire.from_slice b ≡ ok m
  pub not_empty : (m : Message V) (b : List ℕ) → wire.to_vec m ≡ ok b → 0 < length b

-- `(n as u32).to_le_bytes()`
abbrev pub to_le_bytes : ℕ → List ℕ
to_le_bytes n = n % 256 ∷ n / 256 % 256 ∷ n / 65536 % 256 ∷ n / 16777216 % 256 ∷ []

-- `read_u32_le`, once its bytes are there.
abbrev pub from_le_bytes : List ℕ → ℕ
from_le_bytes (a ∷ b ∷ c ∷ d ∷ r) = a + 256 * b + 65536 * c + 16777216 * d
from_le_bytes _ = 0

-- How far a write came before its timeout or its error.
pub data Written : Type 0 where
  whole : Written
  cut : ℕ → Text → Written

abbrev pub deliver : Written → List ℕ → List ℕ → Result (Unit {0}) × List ℕ
deliver whole frame pipe = (ok tt, pipe ++ frame)
deliver (cut n e) frame pipe = (err e, pipe ++ take n frame)

module _ {V : Type 0} (wire : Wire V) where
  -- The bytes of `send`, or the refusal before any is written.
  unfoldable pub encode : Message V → Result (List ℕ)
  encode m = wire.to_vec m >>= λ bytes.
      ensure (leb (length bytes) max_message_bytes) (text "Mensagem excede 8 MiB.")
      >> ok (to_le_bytes (length bytes) ++ bytes)

  -- `send`, on what the pipe holds.
  unfoldable pub send : Message V → Written → List ℕ → Result (Unit {0}) × List ℕ
  unfolding encode
  send m written pipe = elim (encode m) [
    | err e ↦ (err e, pipe)
    | ok frame ↦ deliver written frame pipe
  ]

  -- `receive`, behind the length.
  unfoldable pub receive_body : ℕ → List ℕ → Result (Message V) × List ℕ
  receive_body n rest =
      if not (ltb 0 n && leb n max_message_bytes)
      then (err (text "Tamanho inválido no canal de controle."), rest)
      else (if ltb (length rest) n
          then (err wire.eof, [])
          else (wire.from_slice (take n rest), drop n rest))

  -- `receive`, with what is left to read.
  unfoldable pub receive : List ℕ → Result (Message V) × List ℕ
  unfolding receive_body
  receive bytes =
      if ltb (length bytes) 4
      then (err wire.eof, [])
      else receive_body (from_le_bytes (take 4 bytes)) (drop 4 bytes)

  -- The loop of `Inbox::new`: what it hands over, to the first error.
  unfoldable pub inbox : ℕ → List ℕ → List (Result (Message V))
  inbox zero bytes = []
  inbox (suc fuel) bytes =
      let (r, rest) = receive bytes in elim r [ err e ↦ err e ∷ [] | ok m ↦ ok m ∷ inbox fuel rest ]

  -- The loop on fuel that is enough.
  abbrev pub received : List ℕ → List (Result (Message V))
  received bytes = inbox (suc (length bytes)) bytes

  -- Messages one after another, each written whole, to the first refusal.
  unfoldable pub send_all : List (Message V) → List ℕ → Result (Unit {0}) × List ℕ
  send_all [] pipe = (ok tt, pipe)
  send_all (m ∷ ms) pipe =
      let (r, p) = send m whole pipe in elim r [ err e ↦ (err e, p) | ok _ ↦ send_all ms p ]
