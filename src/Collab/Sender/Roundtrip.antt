-- ===== src/Collab/Sender/Roundtrip.antt =====
-- A message that fits one packet, from `SendBytesData` to `ProcessRecvData`.
use dmsfwk.Prelude.{
  ℕ, ◌+◌, ◌-◌, ◌≤◌, ◌<◌, ◌≡◌, refl, ap, ◌∙◌, true, some, List, [], ◌∷◌, ◌++◌, length, take, drop,
  replicate, length-append, length-replicate, take-append, drop-append, take_all, le→leb, arith,
}
use dmsfwk.Buffer.{new_buffer, overwrite}
use dmsfwk.Buffer.Laws.{new_buffer_lem}
use dmsfwk.Collab.Header.{SessionDataHeader, serialize, deserialize, binary_payload_max_len}
use dmsfwk.Collab.Header.Roundtrip.{IsSized, length-serialize, deserialize-serialize}
use dmsfwk.Collab.Sender.{
  SoftBus, err_ok, sent, do_send_packet, whole_header, send_all_packets, send_unpack_data,
  send_bytes_data,
}
use dmsfwk.Collab.Sender.Packets.{build_packet_lem}
use dmsfwk.Collab.Receiver.{
  Receiver, ok, reset_flag, check_recv_session_header, copy_payload,
  write_recv_bytes_data_to_buffer, process_all_packet_recv, process_packet, pack_recv_packet_data,
  get_packeted_data, process_recv_data,
}

copy_payload_lem :
    (r : Receiver) (pack packet : List ℕ) (h : SessionDataHeader)
    → r.current_pos < length pack
    → r.current_pos + h.payload_len ≤ length pack
    → h.packet_len - h.payload_len + h.payload_len ≤ length packet
    → copy_payload r pack packet h
      ≡ some (
        ok,
        record r {
          pack_buffer = some (
              overwrite pack r.current_pos
                (take h.payload_len (drop (h.packet_len - h.payload_len) packet)));
          current_pos = r.current_pos + h.payload_len;
        },
      )
unfolding copy_payload
copy_payload_lem r pack packet h a b c = ground arith

module _ (message : List ℕ) (pos : 0 < length message)
    (fits : length message ≤ binary_payload_max_len) where
  whole : SessionDataHeader
  whole = whole_header message 1

  whole-IsSized : IsSized whole
  unfolding whole
  whole-IsSized = record {
    version_fits = omega arith;
    frag_flag_fits = omega arith;
    data_type_fits = omega arith;
    seq_num_fits = omega arith;
    total_len_fits = omega arith;
    packet_len_fits = omega arith;
    payload_len_fits = omega arith;
    sub_seq_fits = omega arith;
  }

  headed : List ℕ
  headed = serialize whole ++ message

  deserialize-headed : (g : SessionDataHeader) → deserialize g headed ≡ some whole
  unfolding headed whole
  deserialize-headed g =
      deserialize-serialize whole g message whole-IsSized fits (omega arith) (omega arith)
        (omega arith)

  length-headed : length headed ≡ length message + 57
  unfolding headed
  length-headed = omega (arith, length-append (serialize whole) message, length-serialize whole)

  payload_lem : take (length message) (drop 57 headed) ≡ message
  unfolding headed
  payload_lem =
      let behind : drop 57 (serialize whole ++ message) ≡ message =
        drop-append 57 0 (serialize whole) message (omega (arith, length-serialize whole)) in
      ap (take (length message)) behind ∙ take_all (length message) message (omega arith)

  message_lem : (rest : List ℕ) → take (length message) (message ++ rest) ≡ message
  message_lem rest = take-append (length message) message rest refl

  zeros : List ℕ
  zeros = replicate (length message + 57) 0

  fresh_lem : new_buffer whole.total_len ≡ zeros
  unfolding whole zeros
  fresh_lem = new_buffer_lem (length message + 57) (omega arith) (omega arith)

  received : Receiver
  received = record reset_flag {
    pack_buffer = some (message ++ drop (length message) zeros);
    current_pos = length message;
  }

  copy_payload-headed :
      copy_payload (record reset_flag { pack_buffer = some zeros }) zeros headed whole
      ≡ some (ok, received)
  unfolding received whole zeros
  copy_payload-headed =
      let zero_add : 0 + length message ≡ length message = omega arith in
      let start : length message + 57 - length message ≡ 57 = omega arith in
      rw (
        copy_payload_lem (record reset_flag { pack_buffer = some zeros }) zeros headed whole
            (omega (arith, length-replicate {A = ℕ} (length message + 57) 0))
            (omega (arith, length-replicate {A = ℕ} (length message + 57) 0))
            (omega (arith, length-headed)),
        start,
        payload_lem,
        zero_add,
      )

  write-headed : write_recv_bytes_data_to_buffer reset_flag headed whole ≡ some (ok, received)
  unfolding write_recv_bytes_data_to_buffer
  write-headed =
      let fresh : new_buffer whole.total_len ≡ zeros = fresh_lem in
      rw (fresh, copy_payload-headed, write_recv_bytes_data_to_buffer)

  process_packet-headed : process_packet reset_flag headed whole ≡ some (ok, received)
  unfolding process_packet process_all_packet_recv whole
  process_packet-headed = rw (write-headed, process_all_packet_recv, process_packet)

  pack_recv_packet_data-headed :
      (g : SessionDataHeader) → pack_recv_packet_data g reset_flag headed ≡ some (ok, received)
  unfolding pack_recv_packet_data check_recv_session_header whole
  pack_recv_packet_data-headed g =
      rw (deserialize-headed g, process_packet-headed, pack_recv_packet_data)

  process_recv_data-headed :
      (g : SessionDataHeader)
      → process_recv_data g reset_flag headed ≡ some (some message, reset_flag)
  unfolding process_recv_data get_packeted_data received
  process_recv_data-headed g =
      rw (
        pack_recv_packet_data-headed g,
        message_lem (drop (length message) zeros),
        process_recv_data,
      )

-- A message of 1 to 4194304 bytes that fits one packet with its header is sent by `SendBytesData` as
-- one packet, if the send succeeds, and `ProcessRecvData` of that packet, from the state after
-- `ResetFlag`, gives the message and leaves that state.
pub process_recv_data-send_bytes_data :
    (bus : SoftBus) (message : List ℕ) (size : ℕ) (g : SessionDataHeader)
    → bus.get_session_option 0 ≡ some size
    → ((p : List ℕ) → bus.send_bytes 0 p ≡ true)
    → 0 < length message
    → length message ≤ binary_payload_max_len
    → length message + 57 ≤ size
    → (p : List ℕ) × (send_bytes_data bus message ≡ sent err_ok (p ∷ []))
      × (process_recv_data g reset_flag p ≡ some (some message, reset_flag))
unfolding send_bytes_data send_unpack_data send_all_packets headed whole
process_recv_data-send_bytes_data bus message size g option sends pos fits room = (
  headed message pos fits,
  rw (
    option,
    le→leb (length message + 57) size room,
    build_packet_lem (whole_header message 1) message 0 (length message) (omega arith) pos
        (omega arith),
    take_all (length message) message (omega arith),
    do_send_packet,
    sends (headed message pos fits),
    send_all_packets,
    send_unpack_data,
    send_bytes_data,
  ),
  process_recv_data-headed message pos fits g,
)
