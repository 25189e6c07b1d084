-- ===== src/Transport/Oversize.antt =====
-- How long the packets are that go to `SendBytes`.
use dmsfwk.Prelude.{
  ℕ, ◌+◌, ◌≤◌, ◌<◌, ◌≡◌, refl, ap, some, List, [], ◌∷◌, length, length-replicate, le→leb,
  le→ltb_false, arith,
}
use dmsfwk.Buffer.{new_buffer, dsched_max_buffer_size}
use dmsfwk.Buffer.Laws.{new_buffer_lem}
use dmsfwk.Transport.Header.{frag_start_end}
use dmsfwk.Transport.Sender.{Code, SoftBus, err_ok, un_pack_start_end_data, un_pack_send_data}
use dmsfwk.Transport.Packets.{packet, length-packet, make_packet_lem}
use dmsfwk.Transport.Filling.{fragment_header}

-- A message with any data, under the buffer limit with its header, that fits the size that SoftBus
-- allows by fewer than the 49 bytes of its header is sent in one packet, which is longer than that
-- size.
pub un_pack_send_data_oversized :
    (bus : SoftBus) (message : List ℕ) (data_type size : ℕ)
    → bus.get_session_option 0 ≡ (err_ok, size)
    → 0 < length message
    → length message + 49 < dsched_max_buffer_size
    → length message ≤ size
    → size < length message + 49
    → (p : List ℕ) × (un_pack_send_data bus message data_type ≡ some (bus.send_bytes 0 p, p ∷ []))
      × (size < length p)
unfolding un_pack_send_data un_pack_start_end_data
un_pack_send_data_oversized bus message data_type size option pos small fits tight =
    let whole = fragment_header message data_type frag_start_end 0 (length message) in
    (
      packet whole message,
      rw (
        ap (λ (r : Code × ℕ). r.0) option,
        ap (λ (r : Code × ℕ). r.1) option,
        le→leb (length message) size fits,
        le→ltb_false (length (new_buffer (length message + 49))) 49 (
            omega (
              arith,
              ap length (new_buffer_lem (length message + 49) (omega arith) small),
              length-replicate {A = ℕ} (length message + 49) 0,
            )),
        make_packet_lem whole message refl pos small,
        un_pack_send_data,
        un_pack_start_end_data,
      ),
      omega (arith, length-packet whole message refl),
    )
