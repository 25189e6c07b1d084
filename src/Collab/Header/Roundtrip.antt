-- ===== src/Collab/Header/Roundtrip.antt =====
-- The header that `Serialize` writes is the one that `Deserialize` reads.
use dmsfwk.Prelude.{
  ℕ, ◌+◌, ◌^◌, ◌≤◌, ◌<◌, ◌≡◌, refl, true, some, List, ◌++◌, length, length-append, le→ltb_false,
  arith,
}
use dmsfwk.Buffer.Laws.{store_one, store_two, store_four}
use dmsfwk.Collab.Header.{
  SessionDataHeader, header_len, binary_data_max_total_len, binary_payload_max_len, serialize,
  deserialize, read_items, check_lengths,
}

-- The fields hold what their widths allow.
pub record IsSized (h : SessionDataHeader) : Type 0 where
  pub version_fits : h.version < 2 ^ 16
  pub frag_flag_fits : h.frag_flag < 256
  pub data_type_fits : h.data_type < 2 ^ 32
  pub seq_num_fits : h.seq_num < 2 ^ 32
  pub total_len_fits : h.total_len < 2 ^ 32
  pub packet_len_fits : h.packet_len < 2 ^ 32
  pub payload_len_fits : h.payload_len < 2 ^ 32
  pub sub_seq_fits : h.sub_seq < 2 ^ 16

pub length-serialize : (h : SessionDataHeader) → length (serialize h) ≡ 57
unfolding serialize
length-serialize h = refl

read_items-serialize :
    (h g : SessionDataHeader) (rest : List ℕ)
    → IsSized h
    → read_items 57 (serialize h ++ rest) 0 g ≡ some h
unfolding read_items serialize
read_items-serialize h g rest s = ground (
  arith,
  store_two g.version h.version s.version_fits,
  store_one g.frag_flag h.frag_flag s.frag_flag_fits,
  store_four g.data_type h.data_type s.data_type_fits,
  store_four g.seq_num h.seq_num s.seq_num_fits,
  store_four g.total_len h.total_len s.total_len_fits,
  store_four g.packet_len h.packet_len s.packet_len_fits,
  store_four g.payload_len h.payload_len s.payload_len_fits,
  store_two g.sub_seq h.sub_seq s.sub_seq_fits,
)

check_lengths_lem :
    (h : SessionDataHeader)
    → h.payload_len ≤ binary_payload_max_len
    → h.packet_len ≤ binary_data_max_total_len
    → h.packet_len ≤ h.total_len
    → h.payload_len + header_len ≤ h.packet_len
    → check_lengths h ≡ true
unfolding check_lengths
check_lengths_lem h a b c d = ground arith

-- What `Deserialize` reads from the bytes that `Serialize` writes for a header, whatever follows
-- them and whatever its stack holds, is that header, if its fields fit their widths, the payload
-- has at most 4 MB and the packet at most 100 MB, the packet is no longer than the whole, and the
-- payload and the 57 bytes of the header no longer than the packet.
pub deserialize-serialize :
    (h g : SessionDataHeader) (rest : List ℕ)
    → IsSized h
    → h.payload_len ≤ binary_payload_max_len
    → h.packet_len ≤ binary_data_max_total_len
    → h.packet_len ≤ h.total_len
    → h.payload_len + header_len ≤ h.packet_len
    → deserialize g (serialize h ++ rest) ≡ some h
unfolding deserialize
deserialize-serialize h g rest s a b c d =
    rw
      (
        le→ltb_false (length (serialize h ++ rest)) 57
            (omega (arith, length-append (serialize h) rest, length-serialize h)),
        read_items-serialize h (record g { version = 1 }) rest s,
        deserialize,
      )
      (rw (check_lengths_lem h a b c d) refl)
