-- ===== src/Buffer.antt =====
-- services/dtbschedmgr/src/softbus_adapter/transport/dsched_data_buffer.cpp and
-- services/dtbcollabmgr/src/channel_manager/av_trans_data_buffer.cpp: the two buffer classes have
-- the same text. A buffer is the list of its bytes; the empty list is a buffer with a null pointer.
-- `memcpy_s` is the bounds-checked copy of the C standard (Annex K); `none` is its error result.
pub mod Laws
use dmsfwk.Prelude.{
  ℕ, zero, suc, ◌+◌, ◌-◌, ◌*◌, ◌/◌, ◌%◌, ◌^◌, Bool, true, false, ◌||◌, Option, none, some, List, [],
  ◌∷◌, ◌++◌, length, take, drop, replicate, ltb, leb, ◌==◌, if◌then◌else◌,
}

-- 80 * 1024 * 1024
abbrev pub dsched_max_buffer_size : ℕ
dsched_max_buffer_size = 83_886_080

abbrev pub is_bad_capacity : ℕ → Bool
is_bad_capacity capacity = capacity == 0 || leb dsched_max_buffer_size capacity

-- The constructor: zeroed bytes, or no buffer at all for a capacity out of range.
unfoldable pub new_buffer : ℕ → List ℕ
new_buffer capacity = elim (is_bad_capacity capacity) [ true ↦ [] | false ↦ replicate capacity 0 ]

abbrev pub overwrite : List ℕ → ℕ → List ℕ → List ℕ
overwrite dest pos src = take pos dest ++ (src ++ drop (pos + length src) dest)

-- `memcpy_s(dest + pos, size - pos, src, count)`. A position at the end leaves a `destMax` of 0,
-- and one past it wraps to more than `memcpy_s` accepts: both are refused.
unfoldable pub memcpy_s : List ℕ → ℕ → List ℕ → Option (List ℕ)
memcpy_s dest pos src =
    if leb (length dest) pos || ltb (length dest - pos) (length src)
    then none
    else some (overwrite dest pos src)

-- The bytes of an unsigned number in memory, least significant first.
abbrev pub le_bytes : ℕ → ℕ → List ℕ
le_bytes zero v = []
le_bytes (suc n) v = v % 256 ∷ le_bytes n (v / 256)

abbrev pub le_value : List ℕ → ℕ
le_value [] = 0
le_value (b ∷ bs) = b + 256 * le_value bs

-- `memcpy_s(&field, sizeof(field), src, count)`: a shorter source leaves the upper bytes alone.
unfoldable pub store : ℕ → ℕ → List ℕ → Option ℕ
store size old src =
    if ltb size (length src)
    then none
    else some ((le_value src + old / 256 ^ length src * 256 ^ length src) % 256 ^ size)
