-- ===== src/Transport/Header.antt =====
-- dsched_softbus_session.cpp: the 49 bytes of type-length-value items before each packet's data.
-- Types and lengths are big-endian; values are copied from memory, little-endian as on the targets.
pub mod Roundtrip
pub mod Termination
use dmsfwk.Prelude.{
  ℕ, zero, suc, ◌+◌, ◌-◌, ◌*◌, ◌/◌, ◌%◌, true, false, Option, none, some, List, [], ◌∷◌, take, drop,
  get_or, ltb, ◌==◌, if◌then◌else◌,
}
use mathlib.Core.Option
use dmsfwk.Buffer.{overwrite, le_bytes, store}

pub record SessionDataHeader : Type 0 where
  pub version : ℕ  -- uint16_t
  pub frag_flag : ℕ  -- uint8_t
  pub data_type : ℕ  -- uint32_t
  pub seq_num : ℕ  -- uint32_t
  pub total_len : ℕ  -- uint32_t
  pub sub_seq : ℕ  -- uint16_t
  pub data_len : ℕ  -- uint32_t

pub record TlvItem : Type 0 where
  pub type : ℕ
  pub len : ℕ
  pub value : ℕ

abbrev pub frag_start : ℕ
frag_start = 1

abbrev pub frag_mid : ℕ
frag_mid = 2

abbrev pub frag_end : ℕ
frag_end = 3

abbrev pub frag_start_end : ℕ
frag_start_end = 4

abbrev tlv_type_version : ℕ
tlv_type_version = 1001

abbrev tlv_type_frag_flag : ℕ
tlv_type_frag_flag = 1002

abbrev tlv_type_data_type : ℕ
tlv_type_data_type = 1003

abbrev tlv_type_seq_num : ℕ
tlv_type_seq_num = 1004

abbrev tlv_type_total_len : ℕ
tlv_type_total_len = 1005

abbrev tlv_type_sub_seq : ℕ
tlv_type_sub_seq = 1006

abbrev tlv_type_data_len : ℕ
tlv_type_data_len = 1007

abbrev pub protocol_version : ℕ
protocol_version = 1

abbrev pub binary_header_frag_len : ℕ
binary_header_frag_len = 49

-- `buffer` is the whole array and `i` the position that the source's pointer has in it. The bound
-- `buf_len - 2 + 2` of the copy is the source's `bufLen - HEADER_TYPE_BYTES + HEADER_LEN_BYTES`.
write_tlv_to_buffer : TlvItem → List ℕ → ℕ → ℕ → List ℕ
write_tlv_to_buffer item buffer i buf_len =
    let tlv_len = 2 + 2 + item.len in
    let prefix =
      item.type / 256 % 256 ∷ item.type % 256 ∷ item.len / 256 % 256 ∷ item.len % 256 ∷ [] in
    let headed = overwrite buffer i prefix in
    if ltb buf_len tlv_len
    then buffer
    else (if ltb (buf_len - 2 + 2) item.len
        then headed
        else overwrite headed (i + 4) (le_bytes item.len item.value))

-- The seven items in turn, each at the position and with the capacity that the one before left.
write_items : SessionDataHeader → List ℕ → ℕ → List ℕ
unfolding write_tlv_to_buffer
write_items h header len =
    let b1 = write_tlv_to_buffer (item tlv_type_version 2 h.version) header 0 len in
    let b2 = write_tlv_to_buffer (item tlv_type_frag_flag 1 h.frag_flag) b1 6 (len - 6) in
    let b3 = write_tlv_to_buffer (item tlv_type_data_type 4 h.data_type) b2 11 (len - 6 - 5) in
    let b4 = write_tlv_to_buffer (item tlv_type_seq_num 4 h.seq_num) b3 19 (len - 6 - 5 - 8) in
    let b5 =
      write_tlv_to_buffer (item tlv_type_total_len 4 h.total_len) b4 27 (len - 6 - 5 - 8 - 8) in
    let b6 =
      write_tlv_to_buffer (item tlv_type_sub_seq 2 h.sub_seq) b5 35 (len - 6 - 5 - 8 - 8 - 8) in
    write_tlv_to_buffer (item tlv_type_data_len 4 h.data_len) b6 41 (len - 6 - 5 - 8 - 8 - 8 - 6)
  where
    item : ℕ → ℕ → ℕ → TlvItem
    item t n v = record { type = t; len = n; value = v }

unfoldable pub make_frag_data_header : SessionDataHeader → List ℕ → ℕ → List ℕ
unfolding write_items
make_frag_data_header h [] len = []
make_frag_data_header h (b ∷ bs) len =
    let header_len = (2 + 2) * 7 + 1 * 1 + 2 * 2 + 4 * 4 in
    if ltb len header_len then b ∷ bs else write_items h (b ∷ bs) len

-- `(ptr[0] << 8) | ptr[1]`, whose two halves share no bit.
u16_get : List ℕ → ℕ
u16_get ptr = get_or ptr 0 0 * 256 + get_or ptr 1 0

-- The `switch` of `ReadTlvToHeader`.
store_field : ℕ → List ℕ → SessionDataHeader → Option SessionDataHeader
store_field type src h =
    if type == tlv_type_version
    then Option.map (λ v. record h { version = v }) (store 2 h.version src)
    else if type == tlv_type_frag_flag
    then Option.map (λ v. record h { frag_flag = v }) (store 1 h.frag_flag src)
    else if type == tlv_type_data_type
    then Option.map (λ v. record h { data_type = v }) (store 4 h.data_type src)
    else if type == tlv_type_seq_num
    then Option.map (λ v. record h { seq_num = v }) (store 4 h.seq_num src)
    else if type == tlv_type_total_len
    then Option.map (λ v. record h { total_len = v }) (store 4 h.total_len src)
    else if type == tlv_type_sub_seq
    then Option.map (λ v. record h { sub_seq = v }) (store 2 h.sub_seq src)
    else if type == tlv_type_data_len
    then Option.map (λ v. record h { data_len = v }) (store 4 h.data_len src)
    else none

-- `none` is any of the error codes, which the callers only log; else the header and `index`.
read_tlv_to_header : List ℕ → SessionDataHeader → ℕ → Option (SessionDataHeader × ℕ)
unfolding u16_get store_field
read_tlv_to_header ptr h byte_left =
    let type = u16_get ptr in
    let len = u16_get (drop 2 ptr) in
    let left = byte_left - 2 in
    let index = (2 + 2 + len) % 65536 in
    if ltb byte_left 2
    then none
    else if ltb left 2
    then none
    else if ltb (left - 2) len
    then none
    else Option.map (λ h'. (h', index)) (store_field type (take len (drop 4 ptr)) h)

-- The loop of `GetFragDataHeader`, from position `i`.
pub read_items : ℕ → List ℕ → ℕ → SessionDataHeader → Option SessionDataHeader
unfolding read_tlv_to_header
read_items zero packet i h = none
read_items (suc fuel) packet i h = elim (ltb i binary_header_frag_len) [
  | false ↦ some h
  | true ↦ elim (read_tlv_to_header (drop i packet) h (binary_header_frag_len - i)) [
    | none ↦ none
    | some (h', index) ↦ read_items fuel packet (i + index) h'
  ]
]

-- `h` is what the stack holds where the source declares the header, which it leaves unset. Each
-- item takes four bytes at least, so fifty rounds are enough.
unfoldable pub get_frag_data_header : List ℕ → SessionDataHeader → Option SessionDataHeader
unfolding read_items
get_frag_data_header packet h = read_items 50 packet 0 h
