-- ===== src/Tests/Collaboration.antt =====
-- data_sender_receiver.cpp: messages in one packet, and in packets of 60 bytes.
use dmsfwk.Prelude.{ℕ, ◌≡◌, refl, true, none, some, List, [], ◌∷◌, ◌++◌, replicate, arith}
use dmsfwk.Collab.Header.{SessionDataHeader, serialize, deserialize}
use dmsfwk.Collab.Header.Roundtrip.{IsSized, deserialize-serialize}
use dmsfwk.Collab.Receiver.{reset_flag, pack_recv_packet_data, process_recv_data}
use dmsfwk.Collab.Receiver.Faults.{pack_recv_packet_data_overread}
use dmsfwk.Collab.Sender.{SoftBus, err_ok, sent, send_bytes_data}
use dmsfwk.Collab.Sender.Roundtrip.{process_recv_data-send_bytes_data}
use dmsfwk.Collab.Sender.Overread.{IsOverread, send_bytes_data-IsOverread}

abbrev bus : SoftBus
bus = record {
  get_session_option = λ k. some 60;
  send_bytes = λ k p. true;
  send_message = λ m. err_ok;
}

abbrev header : SessionDataHeader
header = record {
  version = 1;
  frag_flag = 4;
  data_type = 1;
  seq_num = 0;
  total_len = 100;
  packet_len = 100;
  payload_len = 43;
  sub_seq = 0;
}

header-IsSized : IsSized header
header-IsSized = record {
  version_fits = omega arith;
  frag_flag_fits = omega arith;
  data_type_fits = omega arith;
  seq_num_fits = omega arith;
  total_len_fits = omega arith;
  packet_len_fits = omega arith;
  payload_len_fits = omega arith;
  sub_seq_fits = omega arith;
}

process_recv_data-send_bytes_data_example :
    (p : List ℕ) × (send_bytes_data bus (8 ∷ 9 ∷ []) ≡ sent err_ok (p ∷ []))
    × (process_recv_data header reset_flag p ≡ some (some (8 ∷ 9 ∷ []), reset_flag))
process_recv_data-send_bytes_data_example =
    process_recv_data-send_bytes_data bus (8 ∷ 9 ∷ []) 60 header refl (λ p. refl) (omega arith)
      (omega arith) (omega arith)

deserialize-serialize_example : deserialize header (serialize header ++ 5 ∷ []) ≡ some header
deserialize-serialize_example =
    deserialize-serialize header header (5 ∷ []) header-IsSized (omega arith) (omega arith)
      (omega arith) (omega arith)

pack_recv_packet_data_overread_example :
    pack_recv_packet_data header reset_flag (serialize header ++ 1 ∷ 2 ∷ []) ≡ none
pack_recv_packet_data_overread_example =
    pack_recv_packet_data_overread header header (1 ∷ 2 ∷ []) header-IsSized refl refl refl
      (omega arith) (omega arith) (omega arith) (omega arith) (omega arith) (omega arith)

send_bytes_data-IsOverread_example : IsOverread (send_bytes_data bus (replicate 8 5))
send_bytes_data-IsOverread_example =
    send_bytes_data-IsOverread bus (replicate 8 5) 60 (λ k. refl) (λ k p. refl) (omega arith)
      (omega arith) (omega arith) (omega arith)
