-- ===== src/Collab/Receiver/Faults.antt =====
-- A packet whose header announces more bytes than came in is read past its end.
use dmsfwk.Prelude.{
  ℕ, ◌+◌, ◌≤◌, ◌<◌, ◌≡◌, ap, ◌∙◌, none, List, ◌++◌, length, length-append, length-replicate, arith,
}
use dmsfwk.Buffer.{new_buffer, dsched_max_buffer_size}
use dmsfwk.Buffer.Laws.{new_buffer_lem}
use dmsfwk.Collab.Header.{
  SessionDataHeader, frag_start_end, header_len, binary_payload_max_len, serialize,
}
use dmsfwk.Collab.Header.Roundtrip.{IsSized, deserialize-serialize, length-serialize}
use dmsfwk.Collab.Receiver.{
  reset_flag, check_recv_session_header, write_recv_bytes_data_to_buffer, process_all_packet_recv,
  process_packet, pack_recv_packet_data,
}

copy_payload_overread :
    (h : SessionDataHeader) (packet : List ℕ)
    → h.total_len < dsched_max_buffer_size
    → 0 < h.payload_len
    → h.payload_len ≤ h.total_len
    → h.payload_len ≤ h.packet_len
    → length packet < h.packet_len
    → write_recv_bytes_data_to_buffer reset_flag packet h ≡ none
unfolding write_recv_bytes_data_to_buffer
copy_payload_overread h packet small pos a b c =
    let full : length (new_buffer h.total_len) ≡ h.total_len =
      ap length (new_buffer_lem h.total_len (omega arith) small)
      ∙ length-replicate {A = ℕ} h.total_len 0 in
    ground (arith, full)

-- A receiver at rest that gets a packet of one fragment with sequence numbers 0, whose header
-- passes every check of `Deserialize`, announces some payload and a total under the buffer limit,
-- reads past the end of the packet whenever it is shorter than its header says.
pub pack_recv_packet_data_overread :
    (g h : SessionDataHeader) (rest : List ℕ)
    → IsSized h
    → h.frag_flag ≡ frag_start_end
    → h.seq_num ≡ 0
    → h.sub_seq ≡ 0
    → 0 < h.payload_len
    → h.payload_len ≤ binary_payload_max_len
    → h.payload_len + header_len ≤ h.packet_len
    → h.packet_len ≤ h.total_len
    → h.total_len < dsched_max_buffer_size
    → length rest + header_len < h.packet_len
    → pack_recv_packet_data g reset_flag (serialize h ++ rest) ≡ none
unfolding pack_recv_packet_data check_recv_session_header process_packet process_all_packet_recv
pack_recv_packet_data_overread g h rest s flag seq sub pos a b c d short = ground (
  arith,
  deserialize-serialize h g rest s a (omega arith) c b,
  copy_payload_overread h (serialize h ++ rest) d pos (omega arith) (omega arith)
      (omega (arith, length-append (serialize h) rest, length-serialize h)),
)
