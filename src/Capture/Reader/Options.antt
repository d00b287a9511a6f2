-- ===== src/Capture/Reader/Options.antt =====
-- crates/netlane-capture/src/reader.rs: `options`, and the closure that reads those of an interface.
use netlane.Prelude.{
  ℕ, zero, suc, ◌+◌, ◌*◌, ◌/◌, Bool, true, not, ◌&&◌, ◌||◌, List, [], ◌∷◌, length, take, drop, all,
  is_empty, select, none, some, Text, text, ltb, leb, ◌==◌, is_control, if◌then◌else◌, Result, ok,
  err,
}
use netlane.Capture.Types.{Interface}
use netlane.Capture.Reader.Input.{Read, failed, panicked, got, number}
use netlane.Capture.Reader.Retain.{Library}

-- `(n + 3) & !3`
abbrev pub padded : ℕ → ℕ
padded n = (n + 3) / 4 * 4

-- `options`, on fuel above the bytes: what `visit` makes of the options.
unfoldable pub options : {T : Type 0} → ℕ → List ℕ → Bool → (ℕ → List ℕ → T → Result T) → T → Read T
options zero content little visit t = panicked
options (suc fuel) content little visit t =
    if is_empty content
    then got t
    else if ltb (length content) 4
    then failed (text "Cabeçalho de opção PCAPNG truncado.")
    else elim (number little 2 content 0) [
      | none ↦ panicked
      | some code ↦ elim (number little 2 content 2) [
        | none ↦ panicked
        | some size ↦
            if code == 0
            then (if size == 0 && all (λ b. b == 0) (drop 4 content)
                then got t
                else failed (text "Fim de opções PCAPNG inválido."))
            else if ltb (length content) (4 + padded size)
            then failed (text "Valor de opção PCAPNG truncado.")
            else elim (visit code (take size (drop 4 content)) t) [
              | err m ↦ failed m
              | ok u ↦ options fuel (drop (4 + padded size) content) little visit u
            ]
      ]
    ]

-- `|_, _| Ok(())`
abbrev pub ignore : ℕ → List ℕ → Unit {0} → Result (Unit {0})
ignore code value t = ok t

-- The interface that the options of its block change, with the options seen.
pub record Description : Type 0 where
  pub interface : Interface
  pub seen_name : Bool
  pub seen_resolution : Bool
  pub seen_offset : Bool

abbrev pub is_bidi : ℕ → Bool
is_bidi c = (leb 0x202a c && leb c 0x202e) || (leb 0x2066 c && leb c 0x2069)

abbrev pub take_line : Text → Text
take_line [] = []
take_line (c ∷ cs) = if c == 0 then [] else c ∷ take_line cs

abbrev pub clean_name : Text → Text
clean_name t = take 128 (select (λ c. not (is_control c) && not (is_bidi c)) (take_line t))

abbrev pub repeated : Description → Result Description
repeated d = err (text "Opção de interface PCAPNG repetida.")

module _ (lib : Library) (little : Bool) where
  -- The closure over the options of an interface.
  unfoldable pub describe : ℕ → List ℕ → Description → Result Description
  describe code value d =
      if code == 2
      then (if d.seen_name
          then repeated d
          else ok (record d {
            seen_name = true;
            interface = record d.interface { name = clean_name (lib.lossy value) };
          }))
      else if code == 9
      then (if d.seen_resolution then repeated d else elim value [
        | [] ↦ err (text "Resolução PCAPNG inválida.")
        | b ∷ more ↦
            if is_empty more
            then ok (record d {
              seen_resolution = true;
              interface = record d.interface { resolution = b };
            })
            else err (text "Resolução PCAPNG inválida.")
      ])
      else if code == 14
      then (if d.seen_offset
          then repeated d
          else if not (length value == 8)
          then err (text "Offset PCAPNG inválido.")
          else elim (number little 8 value 0) [
            | none ↦ err (text "Offset PCAPNG inválido.")
            | some n ↦ ok (record d {
              seen_offset = true;
              interface = record d.interface { offset_seconds = n };
            })
          ])
      else ok d
