-- ===== src/Transport/Packets.antt =====
-- One packet of dsched_softbus_session.cpp: what `make_packet` builds, `pack_recv_data` takes apart.

use dmsfwk.Prelude.{
  ℕ, ◌+◌, ◌≤◌, ◌<◌, ◌≡◌, ◌≢◌, refl, ◌∙◌, inl, inr, false, some, List, [], ◌++◌, length, drop,
  replicate, replicate_split, drop-append, if◌then◌else◌, length-append, length-replicate,
  Bool-cases, le→ltb_false, ◌==◌, arith,
}
use dmsfwk.Buffer.{dsched_max_buffer_size, is_bad_capacity, new_buffer, overwrite, memcpy_s}
use dmsfwk.Buffer.Laws.{memcpy_s-some, memcpy_s_lem, overwrite-append}
use dmsfwk.Transport.Header.{SessionDataHeader, make_frag_data_header, frag_start_end}
use dmsfwk.Transport.Header.Roundtrip.{
  IsSized, header_bytes, length-header_bytes, make_frag_data_header_lem, get_frag_data_header_lem,
}
use dmsfwk.Transport.Receiver.{
  Session, binary_data_max_len, binary_data_max_total_len, is_bad_packet, pack_recv_data,
  assemble_no_frag, assemble_frag,
}
use dmsfwk.Transport.Sender.{make_packet}

abbrev pub packet : SessionDataHeader → List ℕ → List ℕ
packet h src = header_bytes h ++ src

pub length-packet :
    (h : SessionDataHeader) (src : List ℕ)
    → length src ≡ h.data_len
    → length (packet h src) ≡ h.data_len + 49
length-packet h src e = omega (arith, length-append (header_bytes h) src, length-header_bytes h)

pub drop-packet : (h : SessionDataHeader) (src : List ℕ) → drop 49 (packet h src) ≡ src
drop-packet h src = drop-append 49 0 (header_bytes h) src (omega (arith, length-header_bytes h))

overwrite-packet :
    (h : SessionDataHeader) (src : List ℕ)
    → length src ≡ h.data_len
    → overwrite (packet h (replicate h.data_len 0)) 49 src ≡ packet h src
overwrite-packet h src e =
    overwrite-append 49 h.data_len (header_bytes h) src (length-header_bytes h) e

framed :
    (h : SessionDataHeader)
    → is_bad_capacity (h.data_len + 49) ≡ false
    → make_frag_data_header h (new_buffer (h.data_len + 49)) 49 ≡ packet h (replicate h.data_len 0)
unfolding new_buffer
framed h fine =
    rw (fine, new_buffer)
      (rw (replicate_split {A = ℕ} 49 h.data_len (h.data_len + 49) 0 (omega arith))
        (make_frag_data_header_lem h (replicate h.data_len 0)))

not-memcpy_s-nil : (pos : ℕ) (src : List ℕ) {p : List ℕ} → memcpy_s [] pos src ≢ some p
not-memcpy_s-nil pos src e = omega (arith, (memcpy_s-some [] pos src e).0)

make_packet_copied :
    (h : SessionDataHeader) (src : List ℕ) {p : List ℕ}
    → make_packet h src ≡ some p
    → memcpy_s (packet h (replicate h.data_len 0)) 49 src ≡ some p
unfolding make_packet new_buffer make_frag_data_header
make_packet_copied h src made = elim (Bool-cases (is_bad_capacity (h.data_len + 49))) [
  | inl bad ↦ absurd (not-memcpy_s-nil 49 src (rw (bad, new_buffer) at made))
  | inr fine ↦ rw (framed h fine) at made
]

-- A packet that could be built is the header's bytes and then the data.
pub make_packet-some :
    (h : SessionDataHeader) (src : List ℕ) {p : List ℕ}
    → length src ≡ h.data_len
    → make_packet h src ≡ some p
    → p ≡ packet h src
make_packet-some h src e made =
    (memcpy_s-some _ 49 src (make_packet_copied h src made)).2 ∙ overwrite-packet h src e

-- There is no packet without data.
pub make_packet_pos :
    (h : SessionDataHeader) (src : List ℕ) {p : List ℕ}
    → make_packet h src ≡ some p
    → 0 < h.data_len
make_packet_pos h src made = omega (
  arith,
  (memcpy_s-some _ 49 src (make_packet_copied h src made)).0,
  length-packet h (replicate h.data_len 0) (length-replicate {A = ℕ} h.data_len 0),
)

-- Data that fits a buffer with its header makes a packet.
pub make_packet_lem :
    (h : SessionDataHeader) (src : List ℕ)
    → length src ≡ h.data_len
    → 0 < h.data_len
    → h.data_len + 49 < dsched_max_buffer_size
    → make_packet h src ≡ some (packet h src)
unfolding make_packet
make_packet_lem h src e pos small = rw (
  framed h (ground arith),
  memcpy_s_lem (packet h (replicate h.data_len 0)) 49 src
      (omega
        (arith, length-packet h (replicate h.data_len 0) (length-replicate {A = ℕ} h.data_len 0)))
      (omega
        (arith, length-packet h (replicate h.data_len 0) (length-replicate {A = ℕ} h.data_len 0))),
  overwrite-packet h src e,
)

is_bad_packet_lem :
    (h : SessionDataHeader) (src : List ℕ)
    → length src ≡ h.data_len
    → h.data_len ≤ h.total_len
    → h.data_len ≤ binary_data_max_len
    → h.total_len ≤ binary_data_max_total_len
    → is_bad_packet (packet h src) h ≡ false
is_bad_packet_lem h src e a b c = ground (arith, length-packet h src e)

-- A packet with a sound header is handed to reassembly under that header.
pub pack_recv_data-packet :
    (g h : SessionDataHeader) (s : Session) (src : List ℕ)
    → IsSized h
    → length src ≡ h.data_len
    → h.data_len ≤ h.total_len
    → h.data_len ≤ binary_data_max_len
    → h.total_len ≤ binary_data_max_total_len
    → pack_recv_data g s (packet h src) ≡ (
        if h.frag_flag == frag_start_end
        then some (assemble_no_frag s (packet h src) h)
        else assemble_frag s (packet h src) h)
unfolding pack_recv_data
pack_recv_data-packet g h s src sized e a b c =
    rw
      (
        le→ltb_false (length (packet h src)) 49 (omega (arith, length-packet h src e)),
        get_frag_data_header_lem h g src sized,
        pack_recv_data,
      )
      (rw (is_bad_packet_lem h src e a b c) refl)
