-- ===== src/Tests/Transfer.antt =====
-- dsched_softbus_session.cpp: two packets of 600 bytes at most carry a message of 650 bytes.

use dmsfwk.Prelude.{
  ℕ, ◌<◌, ◌≡◌, refl, true, none, some, List, [], ◌∷◌, ◌++◌, inr, replicate, length, arith,
}
use dmsfwk.Buffer.{new_buffer, memcpy_s}
use dmsfwk.Transport.Header.{SessionDataHeader, make_frag_data_header, get_frag_data_header}
use dmsfwk.Transport.Receiver.{Session, reset_assemble_frag, receive_all, pack_recv_data}
use dmsfwk.Transport.Sender.{
  SoftBus, err_ok, softbus, un_pack_send_data, send_rounds, make_packet, set_head_para_data_len,
}
use dmsfwk.Transport.Header.Roundtrip.{IsSized, get_frag_data_header-make_frag_data_header}
use dmsfwk.Transport.Progress.{Works, SentWithin, un_pack_send_data_works}
use dmsfwk.Transport.Oversize.{un_pack_send_data_oversized}
use dmsfwk.Transport.Safety.{IsSound, Ends, pack_recv_data-IsSound}
use dmsfwk.Transport.Delivery.{delivered, receive_all-un_pack_send_data}

abbrev bus : SoftBus
bus = record { get_session_option = λ k. (err_ok, 600); send_bytes = λ k p. err_ok }

abbrev message : List ℕ
message = replicate 650 7

packets : List (List ℕ)
unfolding un_pack_send_data
packets = elim (un_pack_send_data bus message 5) [ none ↦ [] | some (code, ps) ↦ ps ]

abbrev garbage : SessionDataHeader
garbage = record {
  version = 9;
  frag_flag = 9;
  data_type = 9;
  seq_num = 9;
  total_len = 9;
  sub_seq = 9;
  data_len = 9;
}

sent : un_pack_send_data bus message 5 ≡ some (err_ok, packets)
unfolding un_pack_send_data packets send_rounds make_packet set_head_para_data_len memcpy_s
    new_buffer make_frag_data_header
sent = refl

few : length packets ≡ 2
unfolding un_pack_send_data packets send_rounds make_packet set_head_para_data_len memcpy_s
    new_buffer make_frag_data_header
few = refl

receive_all-un_pack_send_data_example :
    delivered (receive_all garbage reset_assemble_frag packets) ≡ some ((5, message) ∷ [])
receive_all-un_pack_send_data_example =
    receive_all-un_pack_send_data garbage bus message 5 reset_assemble_frag packets (omega arith)
      (omega arith) (λ k. omega arith) (omega (arith, few)) sent

bus-Works : Works bus
bus-Works = record {
  option_ok = λ k. refl;
  size_enough = λ k. omega arith;
  size_limited = λ k. omega arith;
  send_ok = λ k p. refl;
}

un_pack_send_data_works_example : SentWithin 650 message (un_pack_send_data bus message 5)
un_pack_send_data_works_example = un_pack_send_data_works bus message bus-Works 5 (omega arith)

abbrev silent : SoftBus
silent = record { get_session_option = λ k. (err_ok, 513); send_bytes = λ k p. softbus 7 }

un_pack_send_data_oversized_example :
    (p : List ℕ) × (un_pack_send_data bus (replicate 580 7) 5 ≡ some (err_ok, p ∷ []))
    × (600 < length p)
un_pack_send_data_oversized_example =
    un_pack_send_data_oversized bus (replicate 580 7) 5 600 refl (omega arith) (omega arith)
      (omega arith) (omega arith)

-- A session in the middle of a message.
abbrev waiting : Session
waiting = record {
  pack_buffer = some (replicate 100 0);
  is_waiting = true;
  now_seq = 0;
  now_sub_seq = 3;
  offset = 60;
  total_len = 100;
}

waiting-IsSound : IsSound waiting
waiting-IsSound = inr (replicate 100 0, refl, refl, omega arith, omega arith)

pack_recv_data-IsSound_example : Ends (pack_recv_data garbage waiting (replicate 80 3))
pack_recv_data-IsSound_example =
    pack_recv_data-IsSound garbage waiting (replicate 80 3) waiting-IsSound

abbrev header : SessionDataHeader
header = record {
  version = 1;
  frag_flag = 2;
  data_type = 300;
  seq_num = 0;
  total_len = 70_000;
  sub_seq = 5;
  data_len = 1_000;
}

header-IsSized : IsSized header
header-IsSized = record {
  version_fits = omega arith;
  frag_flag_fits = omega arith;
  data_type_fits = omega arith;
  seq_num_fits = omega arith;
  total_len_fits = omega arith;
  sub_seq_fits = omega arith;
  data_len_fits = omega arith;
}

get_frag_data_header-make_frag_data_header_example :
    get_frag_data_header (make_frag_data_header header (replicate 49 0 ++ 4 ∷ 5 ∷ []) 49) garbage
    ≡ some header
get_frag_data_header-make_frag_data_header_example =
    get_frag_data_header-make_frag_data_header header garbage (4 ∷ 5 ∷ []) header-IsSized
