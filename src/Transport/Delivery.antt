-- ===== src/Transport/Delivery.antt =====
-- A message that `UnPackSendData` sends is the message that `PackRecvData` hands on.
use mathlib.Core.List.{append-nil}
use dmsfwk.Prelude.{
  ℕ, zero, suc, ◌+◌, ◌-◌, ◌%◌, ◌^◌, ◌≤◌, ◌<◌, ◌≡◌, refl, ap, ◌∙◌, ◌⊎◌, inl, inr, true, false,
  Option, some, List, [], ◌∷◌, length, ltb, leb, leb→le, Bool-cases, ◌==◌, if◌then◌else◌, arith,
}
use mathlib.Core.Option
use dmsfwk.Buffer.{dsched_max_buffer_size}
use dmsfwk.Transport.Header.{SessionDataHeader, frag_start, frag_mid, frag_end, frag_start_end}
use dmsfwk.Transport.Receiver.{
  Session, Outcome, Ready, reset_assemble_frag, binary_data_max_len, pack_recv_data, receive_all,
  assemble_frag,
}
use dmsfwk.Transport.Sender.{
  err_ok, SoftBus, set_head_para_data_len, make_packet, next_head_para, send_rounds,
  un_pack_send_data, un_pack_start_end_data,
}
use dmsfwk.Transport.Header.Roundtrip.{IsSized}
use dmsfwk.Transport.Packets.{packet, make_packet-some, make_packet_pos, pack_recv_data-packet}
use dmsfwk.Transport.Filling.{
  filled, filled_all, assembling, fragment_header, chunk, length-chunk, assemble_next-fragment,
  assemble_start-fragment, assemble_no_frag-message,
}

-- A round that ended well: the packet that it made and what the rounds after it sent.
record Round (bus : SoftBus) (message : List ℕ) (fuel k : ℕ) (h : SessionDataHeader) (o : ℕ)
    (ps : List (List ℕ)) : Type 0 where
  sent : List ℕ
  more : List (List ℕ)
  made : make_packet h (chunk message o h.data_len) ≡ some sent
  went_on :
      send_rounds bus message fuel
        (k + 1)
        (next_head_para h)
        (o + h.data_len)
        (bus.get_session_option (k + 1)).1
      ≡ some (err_ok, more)
  split : ps ≡ sent ∷ more

send_rounds-Round :
    (bus : SoftBus) (message : List ℕ) (fuel k : ℕ) (h : SessionDataHeader) (o size : ℕ)
    {ps : List (List ℕ)}
    → o < length message
    → send_rounds bus message (suc fuel) k h o size ≡ some (err_ok, ps)
    → (512 < size)
      × Round bus message fuel k (set_head_para_data_len h (length message) o size) o ps
unfolding send_rounds
send_rounds-Round bus message fuel k h o size more e = ground arith

send_rounds_done :
    (bus : SoftBus) (message : List ℕ) (fuel k : ℕ) (h : SessionDataHeader) (o size : ℕ)
    {ps : List (List ℕ)}
    → length message ≤ o
    → send_rounds bus message fuel k h o size ≡ some (err_ok, ps)
    → ps ≡ []
unfolding send_rounds
send_rounds_done bus message zero k h o size done e = cc
send_rounds_done bus message (suc fuel) k h o size done e = ground arith

send_rounds_sends :
    (bus : SoftBus) (message : List ℕ) (fuel k : ℕ) (h : SessionDataHeader) (o size : ℕ)
    {ps : List (List ℕ)}
    → o < length message
    → send_rounds bus message fuel k h o size ≡ some (err_ok, ps)
    → 0 < length ps
unfolding send_rounds
send_rounds_sends bus message zero k h o size a e = cc
send_rounds_sends bus message (suc fuel) k h o size a e =
    omega (arith, ap length (send_rounds-Round bus message fuel k h o size a e).1.split)

receive_all_quiet :
    (g : SessionDataHeader) (s s' : Session) (p : List ℕ) (ps : List (List ℕ))
    → pack_recv_data g s p ≡ some (s', [])
    → receive_all g s (p ∷ ps) ≡ receive_all g s' ps
unfolding receive_all
receive_all_quiet g s s' p ps e = ground arith

receive_all_one :
    (g : SessionDataHeader) (s s' : Session) (p : List ℕ) (ready : Ready)
    → pack_recv_data g s p ≡ some (s', ready)
    → receive_all g s (p ∷ []) ≡ some (s', ready)
unfolding receive_all
receive_all_one g s s' p ready e = rw (e, receive_all) (ap (λ xs. some (s', xs)) (append-nil ready))

module _ (g : SessionDataHeader) (bus : SoftBus) (message : List ℕ) (data_type : ℕ)
    (small : length message < dsched_max_buffer_size) (type_fits : data_type < 2 ^ 32)
    (limit : (k : ℕ) → (bus.get_session_option k).1 ≤ binary_data_max_len) where
  abbrev header : ℕ → ℕ → ℕ → SessionDataHeader
  header = fragment_header message data_type

  header-IsSized :
      (flag sub n : ℕ)
      → flag < 256
      → sub < 2 ^ 16
      → n ≤ binary_data_max_len
      → IsSized (header flag sub n)
  header-IsSized flag sub n a b c = omega arith

  recv_next :
      (flag sub o n m : ℕ)
      → (flag ≡ frag_mid) ⊎ (flag ≡ frag_end)
      → sub + 1 < 2 ^ 16
      → n ≤ binary_data_max_len
      → o + n ≡ m
      → o < length message
      → m ≤ length message
      → pack_recv_data g
          (assembling message sub o)
          (packet (header flag (sub + 1) n) (chunk message o n))
        ≡ (if flag == frag_end
            then some (reset_assemble_frag, (data_type, filled message m) ∷ [])
            else some (assembling message (sub + 1) m, []))
  unfolding assemble_frag
  recv_next flag sub o n m which a b c d e =
      pack_recv_data-packet g (header flag (sub + 1) n) (assembling message sub o)
        (chunk message o n) (header-IsSized flag (sub + 1) n (ground arith) a b)
        (length-chunk message o n (omega arith)) (omega arith) b (omega arith)
      ∙ ground
          (arith, assemble_next-fragment message data_type flag sub n o m c d e (omega arith) a)

  part_header :
      (flag sub n o size : ℕ)
      → ltb size (length message - o) ≡ true
      → set_head_para_data_len (header flag sub n) (length message) o size
        ≡ header flag sub (size - 512)
  unfolding set_head_para_data_len
  part_header flag sub n o size e = rw (e, set_head_para_data_len)

  last_header :
      (flag sub n o size : ℕ)
      → ltb size (length message - o) ≡ false
      → set_head_para_data_len (header flag sub n) (length message) o size
        ≡ header frag_end sub (length message - o)
  unfolding set_head_para_data_len
  last_header flag sub n o size e = rw (e, set_head_para_data_len)

  -- The last fragment ends the message.
  deliver_last :
      (fuel k sub o : ℕ) (ps : List (List ℕ))
      → o < length message
      → length message - o ≤ binary_data_max_len
      → sub + 1 < 2 ^ 16
      → Round bus message fuel k (header frag_end (sub + 1) (length message - o)) o ps
      → receive_all g (assembling message sub o) ps
        ≡ some (reset_assemble_frag, (data_type, message) ∷ [])
  deliver_last fuel k sub o ps a b c r =
      rw
        (
          r.split,
          send_rounds_done bus message fuel (k + 1) _ (o + (length message - o)) _ (omega arith)
              r.went_on,
          make_packet-some _ (chunk message o (length message - o))
              (length-chunk message o (length message - o) (omega arith)) r.made,
        )
        (receive_all_one g (assembling message sub o) reset_assemble_frag _
          ((data_type, message) ∷ [])
          (recv_next frag_end sub o (length message - o) (length message) (inr refl) c b
              (omega arith) a (omega arith)
            ∙ ap (λ (xs : List ℕ). some (reset_assemble_frag, (data_type, xs) ∷ []))
                (filled_all message (length message) refl)))

  -- A fragment that is not the last is followed by the rest of the message.
  deliver_part :
      (fuel k sub o size : ℕ) (ps : List (List ℕ))
      → ((more : List (List ℕ))
          → sub + 1 + length more < 2 ^ 16
          → send_rounds bus message fuel
              (k + 1)
              (header frag_mid (sub + 1 + 1) (size - 512))
              (o + (size - 512))
              (bus.get_session_option (k + 1)).1
            ≡ some (err_ok, more)
          → receive_all g (assembling message (sub + 1) (o + (size - 512))) more
            ≡ some (reset_assemble_frag, (data_type, message) ∷ []))
      → o + size < length message
      → size ≤ binary_data_max_len
      → sub + length ps < 2 ^ 16
      → Round bus message fuel k (header frag_mid (sub + 1) (size - 512)) o ps
      → receive_all g (assembling message sub o) ps
        ≡ some (reset_assemble_frag, (data_type, message) ∷ [])
  deliver_part fuel k sub o size ps rest a b c r =
      let room : sub + 1 + length r.more < 2 ^ 16 = omega (arith, ap length r.split) in
      let no_wrap : (sub + 1 + 1) % 2 ^ 16 ≡ sub + 1 + 1 = omega (
        arith,
        ap length r.split,
        send_rounds_sends bus message fuel (k + 1) _ (o + (size - 512)) _ (omega arith) r.went_on,
      ) in
      rw
        (
          r.split,
          make_packet-some _ (chunk message o (size - 512))
              (length-chunk message o (size - 512) (omega arith)) r.made,
        )
        (receive_all_quiet g (assembling message sub o)
            (assembling message (sub + 1) (o + (size - 512))) _ r.more
            (recv_next frag_mid sub o (size - 512) (o + (size - 512)) (inl refl) (omega arith)
              (omega arith) refl (omega arith) (omega arith))
          ∙ rest r.more room (rw no_wrap at r.went_on))

  -- The rest of a message, from fragment `sub + 1` on.
  deliver_rounds :
      (fuel k sub n o size : ℕ) (ps : List (List ℕ))
      → o < length message
      → size ≤ binary_data_max_len
      → sub + length ps < 2 ^ 16
      → send_rounds bus message fuel k (header frag_mid (sub + 1) n) o size ≡ some (err_ok, ps)
      → receive_all g (assembling message sub o) ps
        ≡ some (reset_assemble_frag, (data_type, message) ∷ [])
  unfolding send_rounds
  deliver_rounds zero k sub n o size ps a b c e = cc
  deliver_rounds (suc fuel) k sub n o size ps a b c e =
      let (big, round) =
        send_rounds-Round bus message fuel k (header frag_mid (sub + 1) n) o size a e in
      elim (Bool-cases (ltb size (length message - o))) [
        | inl part ↦
            deliver_part fuel k sub o size ps
              (λ more room went.
                deliver_rounds fuel (k + 1) (sub + 1) (size - 512) (o + (size - 512)) _ more
                  (ground arith) (limit (k + 1)) room went)
              (ground arith) b c (rw (part_header frag_mid (sub + 1) n o size part) at round)
        | inr last ↦
            deliver_last fuel k sub o ps a (ground arith) (omega (arith, ap length round.split))
              (rw (last_header frag_mid (sub + 1) n o size last) at round)
      ]

  recv_first :
      (s : Session) (n : ℕ)
      → 0 < length message
      → n ≤ length message
      → n ≤ binary_data_max_len
      → pack_recv_data g s (packet (header frag_start 0 n) (chunk message 0 n))
        ≡ some (assembling message 0 n, [])
  unfolding assemble_frag
  recv_first s n a b c =
      pack_recv_data-packet g (header frag_start 0 n) s (chunk message 0 n)
        (header-IsSized frag_start 0 n (omega arith) (omega arith) c)
        (length-chunk message 0 n (omega arith)) b c (omega arith)
      ∙ ap some (assemble_start-fragment message data_type frag_start n s a b small)

  -- A message in several packets.
  deliver_first :
      (size : ℕ) (s : Session) (ps : List (List ℕ))
      → size < length message
      → size ≤ binary_data_max_len
      → length ps ≤ 2 ^ 16
      → send_rounds bus message (suc (length message)) 0 (header frag_start 0 0) 0 size
        ≡ some (err_ok, ps)
      → receive_all g s ps ≡ some (reset_assemble_frag, (data_type, message) ∷ [])
  deliver_first size s ps a b c e =
      let (big, round) =
        send_rounds-Round bus message (length message) 0 (header frag_start 0 0) 0 size
          (omega arith) e in
      let r : Round bus message (length message) 0 (header frag_start 0 (size - 512)) 0 ps =
        rw (part_header frag_start 0 0 0 size (ground arith)) at round in
      let start : 0 + (size - 512) ≡ size - 512 = omega arith in
      rw
        (
          r.split,
          make_packet-some _ (chunk message 0 (size - 512))
              (length-chunk message 0 (size - 512) (omega arith)) r.made,
        )
        (receive_all_quiet g s (assembling message 0 (size - 512)) _ r.more
            (recv_first s (size - 512) (omega arith) (omega arith) (omega arith))
          ∙ deliver_rounds (length message) 1 0 (size - 512) (size - 512) _ r.more (omega arith)
              (limit 1) (omega (arith, ap length r.split)) (rw start at r.went_on))

  sent_whole :
      {ps : List (List ℕ)}
      → un_pack_start_end_data bus message data_type ≡ (err_ok, ps)
      → (p : List ℕ) × (make_packet (header frag_start_end 0 (length message)) message ≡ some p)
        × (ps ≡ p ∷ [])
  unfolding un_pack_start_end_data
  sent_whole e = ground arith

  -- A message in one packet.
  deliver_whole :
      (s : Session) (ps : List (List ℕ))
      → length message ≤ binary_data_max_len
      → un_pack_start_end_data bus message data_type ≡ (err_ok, ps)
      → receive_all g s ps ≡ some (s, (data_type, message) ∷ [])
  deliver_whole s ps a e =
      let (p, made, one) = sent_whole e in
      let whole = header frag_start_end 0 (length message) in
      rw (one, make_packet-some whole message refl made)
        (receive_all_one g s s _ ((data_type, message) ∷ []) (
          pack_recv_data-packet g whole s message
            (header-IsSized frag_start_end 0 (length message) (omega arith) (omega arith) a) refl
            (omega arith) a (omega arith)
          ∙ ap some (
              assemble_no_frag-message message data_type frag_start_end s
                (make_packet_pos whole message made) small)))

-- What a session hands on while it receives.
abbrev pub delivered : Outcome → Option Ready
delivered = Option.map (λ r. r.1)

-- If every size that SoftBus gives is at most 4 MB, and a message under the buffer limit, with a
-- data type of 32 bits, was sent by `UnPackSendData` with the result `ERR_OK` in at most 65536
-- packets, then a session that receives the packets in order, in whatever state it is and whatever
-- its stack holds, hands on that message and no other.
pub receive_all-un_pack_send_data :
    (g : SessionDataHeader) (bus : SoftBus) (message : List ℕ) (data_type : ℕ) (s : Session)
    (ps : List (List ℕ))
    → length message < dsched_max_buffer_size
    → data_type < 2 ^ 32
    → ((k : ℕ) → (bus.get_session_option k).1 ≤ binary_data_max_len)
    → length ps ≤ 2 ^ 16
    → un_pack_send_data bus message data_type ≡ some (err_ok, ps)
    → delivered (receive_all g s ps) ≡ some ((data_type, message) ∷ [])
unfolding un_pack_send_data
receive_all-un_pack_send_data g bus message data_type s ps small fits limit few e =
    elim (Bool-cases (leb (length message) (bus.get_session_option 0).1)) [
      | inl whole ↦ ap delivered (
          deliver_whole g bus message data_type small fits limit s ps
            (omega (arith, leb→le _ _ whole, limit 0)) (ground arith))
      | inr parts ↦ ap delivered (
          deliver_first g bus message data_type small fits limit (bus.get_session_option 0).1 s ps
            (ground arith) (limit 0) few (ground arith))
    ]
