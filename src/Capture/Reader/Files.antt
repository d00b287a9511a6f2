-- ===== src/Capture/Reader/Files.antt =====
-- crates/netlane-capture/src/reader.rs: `read` and `load`. What the calls of the file system answer is a
-- parameter: the metadata before and after, and the bytes with what comes behind them.
use netlane.Prelude.{
  ℕ, Bool, true, false, ◌&&◌, List, length, Option, none, some, Text, text, leb, ◌==◌,
  if◌then◌else◌, ◌≤◌, ◌≡◌, refl, arith,
}
use netlane.Capture.Types.{CaptureFile, max_file_bytes}
use netlane.Capture.Reader.Input.{Limits, Read, failed, panicked, got}
use netlane.Capture.Reader.Retain.{Library}
use netlane.Capture.Reader.{read_with}
use netlane.Capture.Reader.Safe.{Ends, Ends-if, stopped, fine}
use netlane.Capture.Reader.Kept.Whole.{IsRead, read_with-IsRead}

pub record Metadata : Type 0 where
  pub is_file : Bool
  pub size : ℕ
  pub modified : Option ℕ

abbrev pub same_time : Option ℕ → Option ℕ → Bool
same_time none none = true
same_time none (some b) = false
same_time (some a) none = false
same_time (some a) (some b) = a == b

same_time_refl : (t : Option ℕ) → same_time t t ≡ true
same_time_refl none = refl
same_time_refl (some a) = ground arith

abbrev pub read_limits : Limits
read_limits = record { bytes = max_file_bytes; records = 1000000; retain = true }

-- `read`
unfoldable pub read : Library → List ℕ → Option Text → Read CaptureFile
read lib file ending = elim (read_with lib none read_limits file ending (tt {0})) [
  | failed e ↦ failed e
  | panicked ↦ panicked
  | got p ↦ got p.0
]

-- `metadata()?`
abbrev with_metadata : Option Metadata → Text → (Metadata → Read CaptureFile) → Read CaptureFile
with_metadata none m k = failed m
with_metadata (some d) m k = k d

-- The end of `load`.
abbrev pub unchanged : Metadata → Metadata → CaptureFile → Read CaptureFile
unchanged before after c =
    if before.size == after.size
      && after.size == c.file_bytes
      && same_time before.modified after.modified
    then got c
    else failed (text "O arquivo mudou durante a importação. Importe novamente.")

-- `load`
unfoldable pub load :
    Library
    → Option Metadata
    → Text
    → List ℕ
    → Option Text
    → Option Metadata
    → Text
    → Read CaptureFile
load lib opened open_error file ending closed close_error =
    with_metadata opened open_error λ before.
      if before.is_file
      then (if leb before.size max_file_bytes
          then elim (read lib file ending) [
            | failed e ↦ failed e
            | panicked ↦ panicked
            | got c ↦ with_metadata closed close_error λ after. unchanged before after c
          ]
          else failed (text "A captura excede o limite de 128 MiB."))
      else failed (text "Selecione um arquivo de captura comum.")

read-Ends :
    (lib : Library) (file : List ℕ) (ending : Option Text)
    → Ends (λ c. IsRead lib read_limits file (c, tt {0})) (read lib file ending)
unfolding read
read-Ends lib file ending =
    go (read_with lib none read_limits file ending (tt {0}))
      (read_with-IsRead lib none read_limits file ending tt)
  where
    go :
        (o : Read (CaptureFile × Unit {0}))
        → Ends (IsRead lib read_limits file) o
        → Ends
            (λ c. IsRead lib read_limits file (c, tt {0}))
            (elim o [ failed e ↦ failed e | panicked ↦ panicked | got p ↦ got p.0 ])
    go _ (stopped e) = stopped e
    go _ (fine p h) = fine p.0 h

-- The answers of the file system are of one file, which the capture is of.
pub record IsLoaded (lib : Library) (opened closed : Option Metadata) (file : List ℕ)
    (c : CaptureFile) : Type 0 where
  pub before : Metadata
  pub after : Metadata
  pub at_first : opened ≡ some before
  pub at_last : closed ≡ some after
  pub common : before.is_file ≡ true
  pub same_size : before.size ≡ length file
  pub still : after.size ≡ length file
  pub untouched : same_time before.modified after.modified ≡ true
  pub content : IsRead lib read_limits file (c, tt {0})

module _ (lib : Library) (open_error : Text) (file : List ℕ) (ending : Option Text)
    (close_error : Text) where
  abbrev Loads : Option Metadata → Option Metadata → Read CaptureFile → Type 0
  Loads opened closed o = Ends (IsLoaded lib opened closed file) o

  close-Ends :
      (before : Metadata) (closed : Option Metadata) (o : Read CaptureFile)
      → before.is_file ≡ true
      → Ends (λ c. IsRead lib read_limits file (c, tt {0})) o
      → Loads (some before) closed (elim o [
        | failed e ↦ failed e
        | panicked ↦ panicked
        | got c ↦ with_metadata closed close_error λ after. unchanged before after c
      ])
  close-Ends before closed _ common (stopped e) = stopped e
  close-Ends before none _ common (fine c h) = stopped close_error
  close-Ends before (some after) _ common (fine c h) =
      Ends-if
        (before.size == after.size
          && after.size == c.file_bytes
          && same_time before.modified after.modified)
        _ _
        (λ e. fine c (record {
          before = before;
          after = after;
          at_first = refl;
          at_last = refl;
          common = common;
          same_size = ground (arith, e, h.2);
          still = ground (arith, e, h.2);
          untouched = ground (arith, e);
          content = h;
        }))
        (λ _. stopped _)

  -- A load ends without a panic, with an error or with a capture of the whole file, which is a regular file whose
  -- length before and after is the number of bytes read and whose time of change is the same.
  pub load-IsLoaded :
      (opened closed : Option Metadata)
      → Ends
          (IsLoaded lib opened closed file)
          (load lib opened open_error file ending closed close_error)
  unfolding load
  load-IsLoaded none closed = stopped open_error
  load-IsLoaded (some before) closed =
      Ends-if before.is_file _ _
        (λ common.
          Ends-if (leb before.size max_file_bytes) _ _
            (λ _.
              close-Ends before closed (read lib file ending) common (read-Ends lib file ending))
            (λ _. stopped _))
        (λ _. stopped _)

  close_same :
      (d : Metadata) (o : Read CaptureFile)
      → d.size ≡ length file
      → same_time d.modified d.modified ≡ true
      → Ends (λ c. IsRead lib read_limits file (c, tt {0})) o
      → Path
          (Read CaptureFile)
          (elim o [ failed e ↦ failed e | panicked ↦ panicked | got c ↦ unchanged d d c ])
          o
  close_same d _ e t (stopped m) = refl
  close_same d _ e t (fine c h) = ground (arith, e, t, h.2)

  -- The load of a regular file of at most 128 MiB, with the metadata the same before and after and of the length of
  -- its bytes, is the read of its bytes.
  pub load-read :
      (d : Metadata)
      → d.is_file ≡ true
      → d.size ≡ length file
      → length file ≤ max_file_bytes
      → load lib (some d) open_error file ending (some d) close_error ≡ read lib file ending
  unfolding load
  load-read d common e small =
      let fits : leb d.size max_file_bytes ≡ true = ground (arith, e, small) in
      rw (common, fits, load)
        (close_same d (read lib file ending) e (same_time_refl d.modified)
          (read-Ends lib file ending))
