-- ===== src/Collab/Receiver.antt =====
-- data_sender_receiver.cpp: how the packets of a channel become messages again, with the two calls
-- that channel_manager.cpp makes for each packet.
pub mod Faults
use dmsfwk.Prelude.{
  ℕ, ◌+◌, ◌-◌, ◌%◌, ◌^◌, Bool, true, false, not, ◌&&◌, ◌||◌, Option, none, some, List, length, take,
  drop, ltb, leb, ◌==◌, if◌then◌else◌,
}
use dmsfwk.Buffer.{new_buffer, overwrite}
use dmsfwk.Collab.Header.{
  SessionDataHeader, frag_start, frag_mid, frag_end, frag_start_end, deserialize,
}

pub data Code : Type 0 where
  ok write_session_header_failed invalid_session_header_flag_type : Code
  invalid_session_header_seq_num invalid_session_header_sub_seq : Code
  flag_type_not_match_buffer_state write_payload_to_buffer_failed : Code
  invalid_session_header_total_len : Code

-- `none` is the null `packBuffer_`; `current_pos` is the distance of `currentPos` from its start.
pub record Receiver : Type 0 where
  pub is_waiting : Bool
  pub now_seq_num : ℕ
  pub now_sub_seq : ℕ
  pub pack_buffer : Option (List ℕ)
  pub current_pos : ℕ

-- The code and the new state. `none` is a read past the end of the packet.
abbrev pub Outcome : Type 0
Outcome = Option (Code × Receiver)

abbrev pub reset_flag : Receiver
reset_flag = record {
  is_waiting = false;
  now_seq_num = 0;
  now_sub_seq = 0;
  pack_buffer = none;
  current_pos = 0;
}

unfoldable pub check_recv_session_header : Receiver → SessionDataHeader → Code
check_recv_session_header r h =
    if not (r.now_seq_num == h.seq_num)
    then invalid_session_header_seq_num
    else if r.now_sub_seq == 0 && h.sub_seq == 0
    then ok
    else if not ((r.now_sub_seq + 1) % 2 ^ 32 == h.sub_seq)
    then invalid_session_header_sub_seq
    else ok

-- The `memcpy_s` of `WriteRecvBytesDataToBuffer`: its source is the packet behind the header, of
-- which only the header says how long it is.
unfoldable pub copy_payload : Receiver → List ℕ → List ℕ → SessionDataHeader → Outcome
copy_payload r pack packet h =
    let start = h.packet_len - h.payload_len in
    if leb (length pack) r.current_pos || ltb (length pack - r.current_pos) h.payload_len
    then some (write_payload_to_buffer_failed, r)
    else if ltb 0 h.payload_len && ltb (length packet) (start + h.payload_len)
    then none
    else some (
      ok,
      record r {
        pack_buffer = some (overwrite pack r.current_pos (take h.payload_len (drop start packet)));
        current_pos = r.current_pos + h.payload_len;
      },
    )

unfoldable pub write_recv_bytes_data_to_buffer : Receiver → List ℕ → SessionDataHeader → Outcome
unfolding copy_payload
write_recv_bytes_data_to_buffer r packet h = elim r.pack_buffer [
  | none ↦
      copy_payload (record r { pack_buffer = some (new_buffer h.total_len); current_pos = 0 })
        (new_buffer h.total_len) packet h
  | some pack ↦
      if not (length pack == h.total_len)
      then some (invalid_session_header_total_len, r)
      else copy_payload r pack packet h
]

abbrev pub is_some : Option (List ℕ) → Bool
is_some none = false
is_some (some xs) = true

abbrev pub mismatch : Outcome
mismatch = some (flag_type_not_match_buffer_state, reset_flag)

-- What the four `Process...` functions do with the outcome of the copy.
abbrev pub finish : (Code → Code) → (Receiver → Receiver) → Outcome → Outcome
finish on_error on_ok none = none
finish on_error on_ok (some (ok, r)) = some (ok, on_ok r)
finish on_error on_ok (some (code, r)) = some (on_error code, reset_flag)

abbrev pub advance : SessionDataHeader → Receiver → Receiver
advance h r = record r { now_seq_num = h.seq_num; now_sub_seq = h.sub_seq }

unfoldable pub process_all_packet_recv : Receiver → List ℕ → SessionDataHeader → Outcome
process_all_packet_recv r packet h =
    if is_some r.pack_buffer || r.is_waiting
    then mismatch
    else finish (λ code. write_payload_to_buffer_failed) (λ r'. r')
        (write_recv_bytes_data_to_buffer r packet h)

unfoldable pub process_start_packet_recv : Receiver → List ℕ → SessionDataHeader → Outcome
process_start_packet_recv r packet h =
    if is_some r.pack_buffer || r.is_waiting
    then mismatch
    else finish (λ code. code) (λ r'. advance h (record r' { is_waiting = true }))
        (write_recv_bytes_data_to_buffer r packet h)

unfoldable pub process_mid_packet_recv : Receiver → List ℕ → SessionDataHeader → Outcome
process_mid_packet_recv r packet h =
    if not (is_some r.pack_buffer) || not r.is_waiting
    then mismatch
    else finish (λ code. code) (advance h) (write_recv_bytes_data_to_buffer r packet h)

unfoldable pub process_end_packet_recv : Receiver → List ℕ → SessionDataHeader → Outcome
process_end_packet_recv r packet h =
    if not (is_some r.pack_buffer) || not r.is_waiting
    then mismatch
    else finish (λ code. code) (λ r'. record r' { is_waiting = false })
        (write_recv_bytes_data_to_buffer r packet h)

-- The `switch` of `PackRecvPacketData`.
unfoldable pub process_packet : Receiver → List ℕ → SessionDataHeader → Outcome
process_packet r packet h =
    if h.frag_flag == frag_start_end
    then process_all_packet_recv r packet h
    else if h.frag_flag == frag_start
    then process_start_packet_recv r packet h
    else if h.frag_flag == frag_mid
    then process_mid_packet_recv r packet h
    else if h.frag_flag == frag_end
    then process_end_packet_recv r packet h
    else some (invalid_session_header_flag_type, r)

-- `g` is what the stack holds where the header is declared.
unfoldable pub pack_recv_packet_data : SessionDataHeader → Receiver → List ℕ → Outcome
pack_recv_packet_data g r packet = elim (deserialize g packet) [
  | none ↦ some (write_session_header_failed, r)
  | some h ↦ elim (check_recv_session_header r h) [
    | ok ↦ process_packet r packet h
    | code ↦ some (code, r)
  ]
]

-- The message, where it is complete, and the new state.
unfoldable pub get_packeted_data : Receiver → Option (List ℕ) × Receiver
get_packeted_data r = elim r.pack_buffer [
  | none ↦ (none, r)
  | some pack ↦ if r.is_waiting then (none, r) else (some (take r.current_pos pack), reset_flag)
]

-- `ChannelManager::ProcessRecvData`: the message that the packet completes, and the new state.
unfoldable pub process_recv_data :
    SessionDataHeader → Receiver → List ℕ → Option (Option (List ℕ) × Receiver)
process_recv_data g r packet = elim (pack_recv_packet_data g r packet) [
  | none ↦ none
  | some (code, r') ↦ elim code [ ok ↦ some (get_packeted_data r') | failed ↦ some (none, r') ]
]
