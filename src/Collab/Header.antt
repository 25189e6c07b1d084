-- ===== src/Collab/Header.antt =====
-- session_data_header.cpp: the 57 bytes of type-length-value items before each packet's payload.
-- Types and lengths are big-endian; values are copied from memory, little-endian as on the targets.
pub mod Roundtrip
use dmsfwk.Prelude.{
  ℕ, zero, suc, ◌+◌, ◌-◌, ◌*◌, ◌/◌, ◌%◌, ◌^◌, Bool, true, false, ◌||◌, Option, none, some, List, [],
  ◌∷◌, length, take, drop, get_or, ltb, leb, ◌==◌, if◌then◌else◌,
}
use mathlib.Core.Option
use dmsfwk.Buffer.{new_buffer, overwrite, le_bytes, store}

pub record SessionDataHeader : Type 0 where
  pub version : ℕ  -- uint16_t
  pub frag_flag : ℕ  -- FRAG_TYPE, uint8_t
  pub data_type : ℕ  -- uint32_t
  pub seq_num : ℕ  -- uint32_t
  pub total_len : ℕ  -- uint32_t
  pub packet_len : ℕ  -- uint32_t
  pub payload_len : ℕ  -- uint32_t
  pub sub_seq : ℕ  -- uint16_t

abbrev pub frag_start : ℕ
frag_start = 1

abbrev pub frag_mid : ℕ
frag_mid = 2

abbrev pub frag_end : ℕ
frag_end = 3

abbrev pub frag_start_end : ℕ
frag_start_end = 4

abbrev pub protocol_version : ℕ
protocol_version = 1

abbrev pub header_len : ℕ
header_len = 2 * 2 * 8 + 2 * 2 + 4 * 5 + 1 * 1

-- 100 * 1024 * 1024
abbrev pub binary_data_max_total_len : ℕ
binary_data_max_total_len = 104_857_600

-- 4 * 1024 * 1024
abbrev pub binary_payload_max_len : ℕ
binary_payload_max_len = 4_194_304

-- An item of type `type` at position `i` of the array, where `buf_len` bytes are left. A copy that
-- does not fit leaves the item without its value.
write_tlv_item_to_buffer : ℕ → ℕ → ℕ → List ℕ → ℕ → ℕ → List ℕ
write_tlv_item_to_buffer type len value buffer i buf_len =
    let prefix = type / 256 % 256 ∷ type % 256 ∷ len / 256 % 256 ∷ len % 256 ∷ [] in
    let headed = overwrite buffer i prefix in
    if leb buf_len 4 || ltb (buf_len - 4) len
    then headed
    else overwrite headed (i + 4) (le_bytes len value)

-- The eight items in turn, each at the position and with the room that the one before left.
unfoldable pub serialize : SessionDataHeader → List ℕ
unfolding write_tlv_item_to_buffer new_buffer
serialize h =
    let b1 = write_tlv_item_to_buffer 1001 2 h.version (new_buffer header_len) 0 header_len in
    let b2 = write_tlv_item_to_buffer 1002 1 h.frag_flag b1 6 (header_len - 6) in
    let b3 = write_tlv_item_to_buffer 1003 4 h.data_type b2 11 (header_len - 6 - 5) in
    let b4 = write_tlv_item_to_buffer 1004 4 h.seq_num b3 19 (header_len - 6 - 5 - 8) in
    let b5 = write_tlv_item_to_buffer 1005 4 h.total_len b4 27 (header_len - 6 - 5 - 8 - 8) in
    let b6 = write_tlv_item_to_buffer 1008 4 h.packet_len b5 35 (header_len - 6 - 5 - 8 - 8 - 8) in
    let b7 =
      write_tlv_item_to_buffer 1007 4 h.payload_len b6 43 (header_len - 6 - 5 - 8 - 8 - 8 - 8) in
    write_tlv_item_to_buffer 1006 2 h.sub_seq b7 51 (header_len - 6 - 5 - 8 - 8 - 8 - 8 - 8)

-- `(header[0] << 8) | header[1]`, whose two halves share no bit.
read_uint16 : List ℕ → ℕ
read_uint16 ptr = get_or ptr 0 0 * 256 + get_or ptr 1 0

-- The `switch` of `ReadTlvItemFromBuffer` with the eight readers that it calls.
read_field : ℕ → List ℕ → SessionDataHeader → Option SessionDataHeader
read_field type src h =
    if type == 1001
    then Option.map (λ v. record h { version = v }) (store 2 h.version src)
    else if type == 1002
    then Option.map (λ v. record h { frag_flag = v }) (store 1 h.frag_flag src)
    else if type == 1003
    then Option.map (λ v. record h { data_type = v }) (store 4 h.data_type src)
    else if type == 1004
    then Option.map (λ v. record h { seq_num = v }) (store 4 h.seq_num src)
    else if type == 1005
    then Option.map (λ v. record h { total_len = v }) (store 4 h.total_len src)
    else if type == 1006
    then Option.map (λ v. record h { sub_seq = v }) (store 2 h.sub_seq src)
    else if type == 1007
    then Option.map (λ v. record h { payload_len = v }) (store 4 h.payload_len src)
    else if type == 1008
    then Option.map (λ v. record h { packet_len = v }) (store 4 h.packet_len src)
    else none

-- `left` is `end - header`. The result is the header and the item's length.
read_tlv_item_from_buffer : List ℕ → SessionDataHeader → ℕ → Option (SessionDataHeader × ℕ)
unfolding read_uint16 read_field
read_tlv_item_from_buffer ptr h left =
    let type = read_uint16 ptr in
    let len = read_uint16 (drop 2 ptr) in
    if ltb left (2 + 2 + len)
    then none
    else Option.map (λ h'. (h', len)) (read_field type (take len (drop 4 ptr)) h)

-- The loop of `Deserialize`, from position `i`.
pub read_items : ℕ → List ℕ → ℕ → SessionDataHeader → Option SessionDataHeader
unfolding read_tlv_item_from_buffer
read_items zero buffer i h = none
read_items (suc fuel) buffer i h = elim (ltb (i + 2 + 2) header_len) [
  | false ↦ some h
  | true ↦ elim (read_tlv_item_from_buffer (drop i buffer) h (header_len - i)) [
    | none ↦ none
    | some (h', len) ↦ read_items fuel buffer (i + (2 + 2) + len) h'
  ]
]

-- The version table has one row, and a version that it lacks takes the last row.
abbrev pub version_header_len : ℕ → ℕ
version_header_len version = if version == protocol_version then header_len else header_len

unfoldable pub check_lengths : SessionDataHeader → Bool
check_lengths h =
    if ltb binary_payload_max_len h.payload_len || ltb binary_data_max_total_len h.packet_len
    then false
    else if ltb h.total_len h.packet_len
    then false
    else if ltb h.packet_len ((h.payload_len + version_header_len h.version) % 2 ^ 32)
    then false
    else true

-- `g` is what the stack holds where the header is declared; its version is set there. Each item
-- takes four bytes at least, so 57 rounds are enough.
unfoldable pub deserialize : SessionDataHeader → List ℕ → Option SessionDataHeader
unfolding read_items check_lengths
deserialize g buffer =
    if ltb (length buffer) header_len
    then none
    else elim (read_items 57 buffer 0 (record g { version = protocol_version })) [
      | none ↦ none
      | some h ↦ if check_lengths h then some h else none
    ]
