-- ===== src/Capture/Reader/Blocks.antt =====
-- crates/netlane-capture/src/reader.rs: `read_ng`, the blocks of PCAPNG.
use netlane.Prelude.{
  ℕ, zero, suc, ◌+◌, ◌-◌, ◌*◌, ◌%◌, ◌^◌, min, Bool, true, false, ◌&&◌, ◌||◌, List, [], ◌∷◌, ◌++◌,
  length, get_elem?, take, drop, is_empty, Option, none, some, text, ltb, leb, ◌==◌, str_eq,
  if◌then◌else◌,
}
use netlane.Capture.Bytes.{show, get_range?}
use netlane.Capture.Types.{max_packet_bytes, max_block_bytes, max_interfaces}
use netlane.Capture.Reader.Input.{
  Limits, panicked, got, M, ◌>>=◌, ◌>>◌, pure, lift, ask, unwrap, context, number, exact, next,
  bytes,
}
use netlane.Capture.Reader.Retain.{Library, Sink, change_capture, get_capture, retain}
use netlane.Capture.Reader.Options.{describe, ignore, options, padded}

-- The local variables of `read_ng`.
pub record Section : Type 0 where
  pub little : Bool
  pub number : ℕ
  pub interfaces : List ℕ
  pub end : Option ℕ
  pub blocks : ℕ

-- `[0x0a, 0x0d, 0x0d, 0x0a]`
abbrev pub shb : List ℕ
shb = 0x0a ∷ 0x0d ∷ 0x0d ∷ 0x0a ∷ []

abbrev pub byte_order : List ℕ → Option Bool
byte_order magic =
    if str_eq magic (0x4d ∷ 0x3c ∷ 0x2b ∷ 0x1a ∷ [])
    then some true
    else if str_eq magic (0x1a ∷ 0x2b ∷ 0x3c ∷ 0x4d ∷ [])
    then some false
    else none

abbrev pub ends_at : ℕ → Option ℕ → Bool
ends_at offset none = true
ends_at offset (some end) = offset == end

abbrev pub ends_within : ℕ → Option ℕ → Bool
ends_within offset none = true
ends_within offset (some end) = leb offset end

-- What a section header declares of its length, as `section_end`; `none` is an overflow.
abbrev pub section_end : ℕ → ℕ → Option (Option ℕ)
section_end count declared =
    if declared == 2 ^ 64 - 1
    then some none
    else (if ltb (count + declared) (2 ^ 64) then some (some (count + declared)) else none)

-- The bytes of a block between its lengths, and its trailer.
abbrev pub body_of : List ℕ → List ℕ → List ℕ × List ℕ
body_of prefix rest =
    if is_empty rest
    then ([], drop 4 prefix)
    else (drop 4 prefix ++ take (length rest - 4) rest, drop (length rest - 4) rest)

module _ {S : Type 0} (lib : Library) (sink : Option (Sink S)) (limits : Limits) where
  abbrev pub get_count : M S ℕ
  get_count r = got (r.count, r)

  -- The arm of a section header.
  unfoldable pub section_header : List ℕ → Section → M S Section
  section_header body s = do
    ask (leb 16 (length body)) (text "Versão/cabeçalho PCAPNG não suportado.")
    major ← unwrap (number s.little 2 body 4)
    minor ← unwrap (number s.little 2 body 6)
    ask (major == 1 && (minor == 0 || minor == 2)) (text "Versão/cabeçalho PCAPNG não suportado.")
    declared ← unwrap (number s.little 8 body 8)
    ask (declared == 2 ^ 64 - 1 || (ltb declared (2 ^ 63) && declared % 4 == 0))
        (text "Comprimento de seção PCAPNG inválido.")
    count ← get_count
    end ← context (section_end count declared) (text "Seção PCAPNG grande demais")
    lift (options (suc (length body)) (drop 16 body) s.little ignore tt)
    next_number ←
        context (if ltb (s.number + 1) (2 ^ 32) then some (s.number + 1) else none)
          (text "Seções PCAPNG demais")
    pure (record s { end = end; interfaces = []; number = next_number })

  -- The arm of an interface.
  unfoldable pub interface_block : List ℕ → Section → M S Section
  interface_block body s = do
    capture ← get_capture sink limits
    ask (leb 8 (length body) && ltb (length capture.interfaces) max_interfaces)
        (text "Descrição de interface inválida ou mais de 1024 interfaces.")
    section ← unwrap (if s.number == 0 then none else some (s.number - 1))
    link_type ← unwrap (number s.little 2 body 0)
    snaplen ← unwrap (number s.little 4 body 4)
    d ← lift (
        options (suc (length body)) (drop 8 body) s.little (describe lib s.little) (record {
          interface = record {
            section = section;
            section_id = length s.interfaces % 2 ^ 32;
            link_type = link_type;
            snaplen = snaplen;
            name = text "Interface " ++ show (length s.interfaces + 1);
            resolution = 6;
            offset_seconds = 0;
          };
          seen_name = false;
          seen_resolution = false;
          seen_offset = false;
        }))
    change_capture sink limits (λ c. record c { interfaces = c.interfaces ++ d.interface ∷ [] })
    pure (record s { interfaces = s.interfaces ++ length capture.interfaces ∷ [] })

  -- The arm of a packet: enhanced, or obsolete.
  unfoldable pub packet_block : Bool → ℕ → List ℕ → Section → M S Section
  packet_block enhanced offset body s = do
    ask (leb 20 (length body)) (text "Cabeçalho de pacote PCAPNG truncado.")
    local ← unwrap (number s.little (if enhanced then 4 else 2) body 0)
    global ←
        context (get_elem? s.interfaces local)
          (text "Pacote referencia interface PCAPNG inexistente")
    capture ← get_capture sink limits
    iface ← unwrap (get_elem? capture.interfaces global)
    high ← unwrap (number s.little 4 body 4)
    low ← unwrap (number s.little 4 body 8)
    caplen ← unwrap (number s.little 4 body 12)
    original ← unwrap (number s.little 4 body 16)
    ask
        (leb caplen max_packet_bytes
          && leb caplen original
          && (iface.snaplen == 0 || leb caplen iface.snaplen))
        (text "Comprimento de pacote PCAPNG inválido.")
    ask (leb (20 + padded caplen) (length body)) (text "Dados de pacote PCAPNG truncados.")
    lift (options (suc (length body)) (drop (20 + padded caplen) body) s.little ignore tt)
    content ← unwrap (get_range? body 20 (20 + caplen))
    retain sink limits global offset
        (some (record {
          ticks = high * 2 ^ 32 + low;
          resolution = iface.resolution;
          offset_seconds = iface.offset_seconds;
        }))
        original content
    pure s

  -- The arm of a simple packet.
  unfoldable pub simple_block : ℕ → List ℕ → Section → M S Section
  simple_block offset body s = do
    ask (leb 4 (length body)) (text "Pacote simples PCAPNG truncado.")
    global ← context (get_elem? s.interfaces 0) (text "Pacote simples sem interface PCAPNG")
    original ← unwrap (number s.little 4 body 0)
    capture ← get_capture sink limits
    iface ← unwrap (get_elem? capture.interfaces global)
    let size = if iface.snaplen == 0 then original else min original iface.snaplen
    ask (leb size max_packet_bytes && length body == 4 + padded size)
        (text "Comprimento do pacote simples PCAPNG inválido.")
    content ← unwrap (get_range? body 4 (4 + size))
    retain sink limits global offset none original content
    pure s

  -- The match on the type of a block.
  unfoldable pub dispatch : ℕ → ℕ → List ℕ → Section → M S Section
  dispatch block_type offset body s =
      if block_type == 0x0a0d0d0a
      then section_header body s
      else if block_type == 1
      then interface_block body s
      else if block_type == 6 || block_type == 2
      then packet_block (block_type == 6) offset body s
      else if block_type == 3
      then simple_block offset body s
      else change_capture sink limits (λ c. record c { auxiliary_blocks = c.auxiliary_blocks + 1 })
        >> pure s

  -- The byte order of the block, which a section header declares.
  unfoldable pub order_of : Bool → ℕ → List ℕ → Section → M S Bool
  order_of is_shb offset magic s =
      if is_shb
      then ask (ends_at offset s.end) (text "Comprimento declarado da seção PCAPNG não confere.")
        >> context (byte_order magic) (text "Byte order PCAPNG inválido.")
      else pure s.little

  -- One block, whose type has been read.
  unfoldable pub read_block : List ℕ → Section → M S Section
  read_block kind s = do
    ask (leb (s.blocks + 1) limits.records) (text "O arquivo excede o limite de blocos.")
    count ← get_count
    let offset = count - 4
    prefix ← exact limits 8
    little ← order_of (str_eq kind shb) offset (drop 4 prefix) s
    size ← unwrap (number little 4 prefix 0)
    ask (leb 12 size && leb size max_block_bytes && size % 4 == 0)
        (text "Comprimento de bloco PCAPNG inválido ou acima de 4 MiB.")
    ask (str_eq kind shb || ends_within (offset + size) s.end)
        (text "Bloco ultrapassa a seção PCAPNG.")
    rest ← bytes limits (size - 12) max_block_bytes
    trailer ← unwrap (number little 4 (body_of prefix rest).1 0)
    ask (trailer == size) (text "Comprimentos inicial e final do bloco PCAPNG não conferem.")
    block_type ← unwrap (number little 4 kind 0)
    dispatch block_type offset (body_of prefix rest).0
        (record s { little = little; blocks = s.blocks + 1 })

  -- The loop of `read_ng`, from the type of a block on.
  unfoldable pub ng_loop : ℕ → List ℕ → Section → M S Section
  ng_loop zero kind s r = panicked
  ng_loop (suc fuel) kind s r =
      (read_block kind s >>= λ t.
      next limits 4 >>= λ following. elim following [ none ↦ pure t | some k ↦ ng_loop fuel k t ])
        r

  -- `read_ng`, on fuel above the bytes that are left.
  unfoldable pub read_ng : List ℕ → M S (Unit {0})
  read_ng first = do
    s ← λ r.
        ng_loop (suc (length r.rest)) first
          (record { little = true; number = 0; interfaces = []; end = none; blocks = 0 }) r
    count ← get_count
    ask (ends_at count s.end) (text "Seção PCAPNG truncada.")
