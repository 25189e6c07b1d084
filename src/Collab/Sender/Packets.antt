-- ===== src/Collab/Sender/Packets.antt =====
-- What `DoSendPacket` builds: the header's bytes and then the data, or a read past the message.
use dmsfwk.Prelude.{
  ℕ, ◌+◌, ◌-◌, ◌%◌, ◌^◌, ◌≤◌, ◌<◌, ◌≡◌, some, List, ◌++◌, length, take, drop, replicate,
  length-append, length-take, length-drop, length-replicate, drop-replicate, le→ltb_false,
  lt→leb_false, lt→ltb, arith,
}
use dmsfwk.Buffer.{new_buffer, memcpy_s, dsched_max_buffer_size}
use dmsfwk.Buffer.Laws.{new_buffer_lem, memcpy_s_lem, overwrite-append}
use dmsfwk.Collab.Header.{SessionDataHeader, serialize}
use dmsfwk.Collab.Header.Roundtrip.{length-serialize}
use dmsfwk.Collab.Sender.{faulted, packet, build_packet}

module _ (h : SessionDataHeader) (message : List ℕ) (current n : ℕ)
    (small : n + 57 < dsched_max_buffer_size) where
  headed : List ℕ
  headed = serialize h ++ replicate n 0

  length-headed : length headed ≡ n + 57
  unfolding headed
  length-headed = omega (
    arith,
    length-append (serialize h) (replicate n 0),
    length-serialize h,
    length-replicate {A = ℕ} n 0,
  )

  header_copied : memcpy_s (new_buffer ((57 + n) % 2 ^ 32)) 0 (serialize h) ≡ some headed
  unfolding headed
  header_copied =
      let size : (57 + n) % 2 ^ 32 ≡ n + 57 = omega arith in
      let zeros = replicate {A = ℕ} (n + 57) 0 in
      rw (
        size,
        new_buffer_lem (n + 57) (omega arith) small,
        memcpy_s_lem zeros 0 (serialize h) (omega (arith, length-replicate {A = ℕ} (n + 57) 0))
            (omega (arith, length-replicate {A = ℕ} (n + 57) 0, length-serialize h)),
        drop-replicate {A = ℕ} (0 + length (serialize h)) (n + 57) n 0
            (omega (arith, length-serialize h)),
      )

  -- A packet that is built whole.
  pub build_packet_lem :
      0 < n
      → current + n ≤ length message
      → build_packet h message current n ≡ packet (serialize h ++ take n (drop current message))
  unfolding build_packet headed
  build_packet_lem pos within =
      let src = take n (drop current message) in
      let full : length src ≡ n =
        omega (arith, length-take n (drop current message), length-drop current message) in
      rw (
        header_copied,
        lt→leb_false (length headed) 57 (omega (arith, length-headed)),
        le→ltb_false (length headed - 57) n (omega (arith, length-headed)),
        le→ltb_false (length message) (current + n) within,
        memcpy_s_lem headed 57 src (omega (arith, length-headed))
            (omega (arith, length-headed, full)),
        overwrite-append 57 n (serialize h) src (length-serialize h) full,
        build_packet,
      )

  -- A packet whose data would reach past the message.
  pub build_packet_faulted :
      0 < n → length message < current + n → build_packet h message current n ≡ faulted
  unfolding build_packet
  build_packet_faulted pos beyond = rw (
    header_copied,
    lt→leb_false (length headed) 57 (omega (arith, length-headed)),
    le→ltb_false (length headed - 57) n (omega (arith, length-headed)),
    lt→ltb (length message) (current + n) beyond,
    build_packet,
  )
