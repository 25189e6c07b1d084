-- ===== src/Collab/Sender/Overread.antt =====
-- A message that is cut into packets is read past its end, unless the payloads divide it.
use native.Mathlib.Nat.{mod-eq-sub-mod, mod_self}
use mathlib.Core.Path.{subst}
use dmsfwk.Prelude.{
  ℕ, zero, suc, ◌+◌, ◌-◌, ◌%◌, ◌^◌, ◌≤◌, ◌<◌, ◌≡◌, ◌≢◌, sym, ap, ◌∙◌, true, some, inl, inr, List,
  length, ◌++◌, take, drop, ltb, ltb→lt, lt→leb_false, Bool-cases, arith,
}
use dmsfwk.Buffer.{dsched_max_buffer_size}
use dmsfwk.Collab.Header.{SessionDataHeader, header_len, serialize}
use dmsfwk.Collab.Sender.{
  SoftBus, Sending, sent, overread, out_of_fuel, add_packet, next_header, start_header,
  do_send_packet, send_fragments, send_unpack_data, send_bytes_data,
}
use dmsfwk.Collab.Sender.Packets.{build_packet_lem, build_packet_faulted}

abbrev pub IsOverread : Sending → Type 0
IsOverread (overread ps) = Unit {0}
IsOverread _ = ⊥

IsOverread-add : (p : List ℕ) (s : Sending) → IsOverread s → IsOverread (add_packet p s)
IsOverread-add p (overread ps) h = tt
IsOverread-add p (sent code ps) h = h
IsOverread-add p out_of_fuel h = h

remainder : (x p : ℕ) → 0 < p → p ≤ x → x % p ≢ 0 → (p < x) × ((x - p) % p ≢ 0)
remainder x p pos le ne =
    let e : x % p ≡ (x - p) % p = mod-eq-sub-mod le in
    (
      elim (Bool-cases (ltb p x)) [
        | inl less ↦ ltb→lt p x less
        | inr not_less ↦
            let same : x ≡ p = ground arith in absurd (ne (ap (λ n. n % p) same ∙ mod_self p))
      ],
      λ z. ne (e ∙ z),
    )

module _ (bus : SoftBus) (message : List ℕ) (size : ℕ)
    (option : (k : ℕ) → bus.get_session_option k ≡ some size)
    (sends : (k : ℕ) (p : List ℕ) → bus.send_bytes k p ≡ true) (room : header_len < size)
    (small : size < dsched_max_buffer_size) where
  send_fragments-IsOverread :
      (fuel k : ℕ) (h : SessionDataHeader) (current : ℕ)
      → length message < fuel + current
      → current < length message
      → (length message - current) % (size - 57) ≢ 0
      → IsOverread (send_fragments bus message fuel k h current (size - 57))
  unfolding send_fragments
  send_fragments-IsOverread zero k h current a b c = absurd (omega arith)
  send_fragments-IsOverread (suc fuel) k h current a b c =
      let h' = next_header h size (length message - current) (size - 57) in
      elim (Bool-cases (ltb (length message) (current + (size - 57)))) [
        | inl beyond ↦
            rw
              (
                lt→leb_false (length message) current b,
                option k,
                build_packet_faulted h' message current (size - 57) (omega arith) (omega arith)
                    (ltb→lt _ _ beyond),
                do_send_packet,
                send_fragments,
              )
              tt
        | inr beyond_not ↦
            let within : current + (size - 57) ≤ length message = ground arith in
            let (left, c') =
              remainder (length message - current) (size - 57) (omega arith) (omega arith) c in
            let e : length message - current - (size - 57)
                ≡ length message - (current + (size - 57)) =
              omega arith in
            rw
              (
                lt→leb_false (length message) current b,
                option k,
                build_packet_lem h' message current (size - 57) (omega arith) (omega arith)
                    (omega arith),
                do_send_packet,
                sends k (serialize h' ++ take (size - 57) (drop current message)),
                send_fragments,
              )
              (IsOverread-add _ _ (
                send_fragments-IsOverread fuel (k + 1) h' (current + (size - 57)) (omega arith)
                  (omega arith) (subst (λ n. n % (size - 57) ≢ 0) e c')))
      ]

  -- `SendBytesData` of a message that does not fit one packet of `size` bytes with its header,
  -- where `size` is between the 57 bytes of a header and the buffer limit, SoftBus always answers
  -- `size` and every send succeeds, reads past the end of the message, unless the `size - 57` bytes
  -- of a packet's data divide the message's length.
  pub send_bytes_data-IsOverread :
      size < length message + 57
      → length message % (size - 57) ≢ 0
      → IsOverread (send_bytes_data bus message)
  unfolding send_bytes_data send_unpack_data
  send_bytes_data-IsOverread long rest =
      let start = start_header message 1 size in
      let h = record start { payload_len = size - 57 } in
      let payload : (size + 2 ^ 32 - 57) % 2 ^ 32 ≡ size - 57 = omega arith in
      let (left, rest') = remainder (length message) (size - 57) (omega arith) (omega arith) rest in
      rw
        (
          option 0,
          lt→leb_false (length message + 57) size long,
          payload,
          build_packet_lem h message 0 (size - 57) (omega arith) (omega arith) (omega arith),
          do_send_packet,
          sends 0 (serialize h ++ take (size - 57) (drop 0 message)),
          send_unpack_data,
          send_bytes_data,
        )
        (IsOverread-add _ _ (
          subst (λ n. IsOverread (send_fragments bus message (length message + 1) 1 start n n))
            (sym payload)
            (send_fragments-IsOverread (length message + 1) 1 start (size - 57) (omega arith) left
              rest')))
