-- ===== src/Transport/Header/Termination.antt =====
-- The loop of `GetFragDataHeader` ends: fifty rounds are as many as it can use.
use dmsfwk.Prelude.{
  ℕ, zero, suc, ◌+◌, ◌-◌, ◌≤◌, ◌<◌, ◌≡◌, some, List, drop, ltb, inl, inr, Bool-cases, Option-cases,
  arith,
}
use dmsfwk.Transport.Header.{
  SessionDataHeader, read_tlv_to_header, read_items, get_frag_data_header,
}

index_bounds :
    (ptr : List ℕ) (h : SessionDataHeader) (left : ℕ) {h' : SessionDataHeader} {index : ℕ}
    → left ≤ 49
    → read_tlv_to_header ptr h left ≡ some (h', index)
    → 4 ≤ index
unfolding read_tlv_to_header
index_bounds ptr h left a e = ground arith

-- Two supplies of fuel that are both enough give one result.
read_items_fuel :
    (f f' : ℕ) (packet : List ℕ) (i : ℕ) (h : SessionDataHeader)
    → 49 < f + i
    → 49 < f' + i
    → 0 < f
    → 0 < f'
    → read_items f packet i h ≡ read_items f' packet i h
unfolding read_items
read_items_fuel zero f' packet i h a b c d = absurd (omega arith)
read_items_fuel (suc f) zero packet i h a b c d = absurd (omega arith)
read_items_fuel (suc f) (suc f') packet i h a b c d = elim (Bool-cases (ltb i 49)) [
  | inr stop ↦ rw (stop, read_items)
  | inl go ↦ elim (Option-cases (read_tlv_to_header (drop i packet) h (49 - i))) [
    | inl bad ↦ rw (go, bad, read_items)
    | inr ((h', index), e) ↦
        let pos : 4 ≤ index = index_bounds (drop i packet) h (49 - i) (omega arith) e in
        rw (go, e, read_items)
          (read_items_fuel f f' packet (i + index) h' (ground arith) (ground arith) (ground arith)
            (ground arith))
  ]
]

-- 50 rounds are enough for the loop of `GetFragDataHeader`: with any larger number it has the same
-- result, for every packet.
pub get_frag_data_header_fuel :
    (fuel : ℕ) (packet : List ℕ) (h : SessionDataHeader)
    → 50 ≤ fuel
    → read_items fuel packet 0 h ≡ get_frag_data_header packet h
unfolding get_frag_data_header
get_frag_data_header_fuel fuel packet h a =
    read_items_fuel fuel 50 packet 0 h (omega arith) (omega arith) (omega arith) (omega arith)
