-- ===== src/Collab/Sender.antt =====
-- data_sender_receiver.cpp: how a message is cut into packets. SoftBus is a parameter: the results of
-- `GetSessionOption`, by the number of the call (`none` is an error), and of `SendBytes`.
pub mod Packets
pub mod Roundtrip
pub mod Overread
use dmsfwk.Prelude.{
  ℕ, zero, suc, ◌+◌, ◌-◌, ◌%◌, ◌^◌, Bool, ◌||◌, true, false, Option, none, some, List, [], ◌∷◌,
  length, take, drop, ltb, leb, if◌then◌else◌,
}
use dmsfwk.Buffer.{new_buffer, memcpy_s}
use dmsfwk.Collab.Header.{
  SessionDataHeader, frag_start, frag_mid, frag_end, frag_start_end, protocol_version, header_len,
  serialize,
}

pub data Code : Type 0 where
  err_ok get_session_option_failed write_session_header_failed : Code
  write_send_data_buffer_failed send_data_by_softbus_failed data_size_exceed_limit : Code
  softbus : ℕ → Code

pub record SoftBus : Type 0 where
  pub get_session_option : ℕ → Option ℕ
  pub send_bytes : ℕ → List ℕ → Bool
  pub send_message : List ℕ → Code

-- How a call ends, with the packets given to `SendBytes` in order. `overread` is a read past the end
-- of the message.
pub data Sending : Type 0 where
  sent : Code → List (List ℕ) → Sending
  overread : List (List ℕ) → Sending
  out_of_fuel : Sending

abbrev pub add_packet : List ℕ → Sending → Sending
add_packet p (sent code ps) = sent code (p ∷ ps)
add_packet p (overread ps) = overread (p ∷ ps)
add_packet p out_of_fuel = out_of_fuel

-- What `DoSendPacket` builds before it calls `SendBytes`.
pub data Built : Type 0 where
  failed : Code → Built
  faulted : Built
  packet : List ℕ → Built

-- `current` is the distance of the data from the start of the message.
unfoldable pub build_packet : SessionDataHeader → List ℕ → ℕ → ℕ → Built
build_packet h message current data_len =
    elim (memcpy_s (new_buffer ((header_len + data_len) % 2 ^ 32)) 0 (serialize h)) [
      | none ↦ failed write_session_header_failed
      | some headed ↦
          if leb (length headed) header_len || ltb (length headed - header_len) data_len
          then failed write_send_data_buffer_failed
          else if ltb (length message) (current + data_len)
          then faulted
          else elim (memcpy_s headed header_len (take data_len (drop current message))) [
            | none ↦ failed write_send_data_buffer_failed
            | some p ↦ packet p
          ]
    ]

-- The packet goes to the `k`th call of `SendBytes`, and `next` is what follows a success.
abbrev pub do_send_packet : SoftBus → ℕ → SessionDataHeader → List ℕ → ℕ → ℕ → Sending → Sending
do_send_packet bus k h message current data_len next =
    elim (build_packet h message current data_len) [
      | failed code ↦ sent code []
      | faulted ↦ overread []
      | packet p ↦
          if bus.send_bytes k p
          then add_packet p next
          else sent send_data_by_softbus_failed (p ∷ [])
    ]

-- `maxSendSize - HEADER_LEN` of two `uint32_t`.
abbrev pub payload_of : ℕ → ℕ
payload_of max_send_size = (max_send_size + 2 ^ 32 - header_len) % 2 ^ 32

abbrev pub next_header : SessionDataHeader → ℕ → ℕ → ℕ → SessionDataHeader
next_header h max_send_size left payload_len = record h {
  packet_len = max_send_size;
  payload_len = payload_of max_send_size;
  frag_flag = if ltb payload_len left then frag_mid else frag_end;
  sub_seq = (h.sub_seq + 1) % 2 ^ 16;
}

-- The `while` of `SendUnpackData` before its `k`th packet.
unfoldable pub send_fragments : SoftBus → List ℕ → ℕ → ℕ → SessionDataHeader → ℕ → ℕ → Sending
send_fragments bus message zero k h current payload_len = out_of_fuel
send_fragments bus message (suc fuel) k h current payload_len =
    if leb (length message) current then sent err_ok [] else elim (bus.get_session_option k) [
      | none ↦ sent get_session_option_failed []
      | some max_send_size ↦
          let h' = next_header h max_send_size (length message - current) payload_len in
          let next =
            send_fragments bus message fuel (k + 1) h' (current + payload_len) payload_len in
          do_send_packet bus k h' message current payload_len next
    ]

abbrev pub whole_header : List ℕ → ℕ → SessionDataHeader
whole_header message data_type = record {
  version = protocol_version;
  frag_flag = frag_start_end;
  data_type = data_type;
  seq_num = 0;
  total_len = length message + header_len;
  packet_len = length message + header_len;
  payload_len = length message;
  sub_seq = 0;
}

unfoldable pub send_all_packets : SoftBus → List ℕ → ℕ → Sending
send_all_packets bus message data_type =
    do_send_packet bus 0 (whole_header message data_type) message 0 (length message)
      (sent err_ok [])

abbrev pub start_header : List ℕ → ℕ → ℕ → SessionDataHeader
start_header message data_type max_send_size = record {
  version = protocol_version;
  frag_flag = frag_start;
  data_type = data_type;
  seq_num = 0;
  total_len = length message;
  packet_len = max_send_size;
  payload_len = payload_of max_send_size;
  sub_seq = 0;
}

-- A round for each byte of the message and one more are enough: a packet without payload fails.
unfoldable pub send_unpack_data : SoftBus → List ℕ → ℕ → Sending
unfolding send_all_packets
send_unpack_data bus message data_type = elim (bus.get_session_option 0) [
  | none ↦ sent get_session_option_failed []
  | some max_send_size ↦
      let h = start_header message data_type max_send_size in
      let next = send_fragments bus message (length message + 1) 1 h h.payload_len h.payload_len in
      if leb (length message + header_len) max_send_size
      then send_all_packets bus message data_type
      else do_send_packet bus 0 h message 0 h.payload_len next
]

-- `ChannelDataType::BYTES`
unfoldable pub send_bytes_data : SoftBus → List ℕ → Sending
unfolding send_unpack_data
send_bytes_data bus message = send_unpack_data bus message 1

-- 4 * 1024
abbrev max_send_message_size : ℕ
max_send_message_size = 4096

unfoldable pub send_message_data : SoftBus → List ℕ → Code
send_message_data bus message =
    if ltb max_send_message_size (length message)
    then data_size_exceed_limit
    else bus.send_message message
