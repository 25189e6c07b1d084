-- ===== src/Transport/Sender.antt =====
-- dsched_softbus_session.cpp: how a session cuts a message into packets. SoftBus is a parameter: the
-- results of `GetSessionOption`, by the number of the call, and of `SendBytes`, by that and the packet.
use dmsfwk.Prelude.{
  ℕ, zero, suc, ◌+◌, ◌-◌, ◌%◌, ◌^◌, Option, none, some, List, [], ◌∷◌, length, take, drop, ltb, leb,
  if◌then◌else◌,
}
use mathlib.Core.Option
use dmsfwk.Buffer.{new_buffer, memcpy_s}
use dmsfwk.Transport.Header.{
  SessionDataHeader, frag_start, frag_mid, frag_end, frag_start_end, protocol_version,
  binary_header_frag_len, make_frag_data_header,
}

-- The codes that a call returns. `softbus n` is any code of SoftBus but `ERR_OK`.
pub data Code : Type 0 where
  err_ok invalid_parameters_err invalid_session_id softbus_service_err memcpy_err : Code
  softbus : ℕ → Code

pub record SoftBus : Type 0 where
  pub get_session_option : ℕ → Code × ℕ
  pub send_bytes : ℕ → List ℕ → Code

-- What a call returns, and the packets that it gave to `SendBytes`, in order.
abbrev pub Sent : Type 0
Sent = Code × List (List ℕ)

abbrev pub binary_data_packet_reserved_buffer : ℕ
binary_data_packet_reserved_buffer = 512

unfoldable pub set_head_para_data_len : SessionDataHeader → ℕ → ℕ → ℕ → SessionDataHeader
set_head_para_data_len h total_len offset max_send_size =
    if ltb max_send_size (total_len - offset)
    then record h { data_len = max_send_size - binary_data_packet_reserved_buffer }
    else record h { frag_flag = frag_end; data_len = total_len - offset }

-- The packet of one header and its data: an array of both lengths, the header written and the data
-- copied behind it.
unfoldable pub make_packet : SessionDataHeader → List ℕ → Option (List ℕ)
make_packet h src =
    memcpy_s
      (make_frag_data_header h (new_buffer (h.data_len + binary_header_frag_len))
        binary_header_frag_len)
      binary_header_frag_len src

unfoldable pub un_pack_start_end_data : SoftBus → List ℕ → ℕ → Sent
un_pack_start_end_data bus buffer data_type =
    let unpack_data = new_buffer (length buffer + binary_header_frag_len) in
    if ltb (length unpack_data) binary_header_frag_len
    then (invalid_session_id, [])
    else elim (make_packet head_para buffer) [
      | none ↦ (memcpy_err, [])
      | some packet ↦ (bus.send_bytes 0 packet, packet ∷ [])
    ]
  where
    head_para : SessionDataHeader
    head_para = record {
      version = protocol_version;
      frag_flag = frag_start_end;
      data_type = data_type;
      seq_num = 0;
      total_len = length buffer;
      sub_seq = 0;
      data_len = length buffer;
    }

abbrev pub next_head_para : SessionDataHeader → SessionDataHeader
next_head_para h = record h { sub_seq = (h.sub_seq + 1) % 2 ^ 16; frag_flag = frag_mid }

abbrev pub add_packet : List ℕ → Sent → Sent
add_packet p (code, ps) = (code, p ∷ ps)

-- The `while` of `UnPackSendData`, in its `k`th round; `none` is out of fuel.
unfoldable pub send_rounds : SoftBus → List ℕ → ℕ → ℕ → SessionDataHeader → ℕ → ℕ → Option Sent
send_rounds bus buffer zero k h offset max_send_size = none
send_rounds bus buffer (suc fuel) k h offset max_send_size =
    let total_len = length buffer in
    let h' = set_head_para_data_len h total_len offset max_send_size in
    if leb total_len offset
    then some (err_ok, [])
    else if leb max_send_size binary_data_packet_reserved_buffer
    then some (softbus_service_err, [])
    else elim (make_packet h' (take h'.data_len (drop offset buffer))) [
      | none ↦ some (memcpy_err, [])
      | some packet ↦ elim (bus.send_bytes k packet) [
        | err_ok ↦
            let (code, size) = bus.get_session_option (k + 1) in
            elim code [
              | err_ok ↦ Option.map (add_packet packet) (
                  send_rounds bus buffer fuel (k + 1) (next_head_para h') (offset + h'.data_len)
                    size)
              | failed ↦ some (failed, packet ∷ [])
            ]
        | failed ↦ some (failed, packet ∷ [])
      ]
    ]

abbrev pub first_head_para : List ℕ → ℕ → SessionDataHeader
first_head_para buffer data_type = record {
  version = protocol_version;
  frag_flag = frag_start;
  data_type = data_type;
  seq_num = 0;
  total_len = length buffer;
  sub_seq = 0;
  data_len = 0;
}

-- Each round sends a byte at least, so a round for each byte and one more are enough.
unfoldable pub un_pack_send_data : SoftBus → List ℕ → ℕ → Option Sent
un_pack_send_data bus buffer data_type =
    let (code, max_send_size) = bus.get_session_option 0 in
    elim code [
      | err_ok ↦
          if leb (length buffer) max_send_size
          then some (un_pack_start_end_data bus buffer data_type)
          else send_rounds bus buffer (length buffer + 1) 0 (first_head_para buffer data_type) 0
              max_send_size
      | failed ↦ some (failed, [])
    ]

-- `SendData` calls `UnPackSendData` and drops what it returns; `none` is the null buffer.
pub send_data : SoftBus → Option (List ℕ) → ℕ → Option Sent
send_data bus none data_type = some (invalid_parameters_err, [])
send_data bus (some buffer) data_type =
    Option.map (λ sent. (err_ok, sent.1)) (un_pack_send_data bus buffer data_type)
