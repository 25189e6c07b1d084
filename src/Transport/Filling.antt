-- ===== src/Transport/Filling.antt =====
-- The buffer of a message of which a prefix has come in, and the packets that carry on from there.
use mathlib.Core.List.{append_assoc, append-nil}
use dmsfwk.Prelude.{
  ℕ, ◌+◌, ◌-◌, ◌%◌, ◌^◌, ◌≤◌, ◌<◌, ◌≡◌, refl, ap, ◌∙◌, true, some, List, [], ◌∷◌, ◌++◌, length,
  take, drop, replicate, take_all, take-append, drop-append, drop-replicate, take-append-take-drop,
  length-append, length-take, length-drop, length-replicate, le→ltb_false, ==_self, ◌==◌,
  if◌then◌else◌, arith,
}
use dmsfwk.Buffer.{overwrite, memcpy_s, new_buffer, dsched_max_buffer_size}
use dmsfwk.Buffer.Laws.{memcpy_s_lem, new_buffer_lem}
use dmsfwk.Transport.Header.{SessionDataHeader, frag_end, protocol_version}
use dmsfwk.Transport.Receiver.{
  Session, reset_assemble_frag, check_un_pack_buffer, assemble_start, assemble_next,
  assemble_no_frag,
}
use dmsfwk.Transport.Packets.{packet, drop-packet, length-packet}

abbrev pub filled : List ℕ → ℕ → List ℕ
filled message o = take o message ++ replicate (length message - o) 0

-- The session after the fragments up to number `sub`, which carried the first `o` bytes.
abbrev pub assembling : List ℕ → ℕ → ℕ → Session
assembling message sub o = record {
  pack_buffer = some (filled message o);
  is_waiting = true;
  now_seq = 0;
  now_sub_seq = sub;
  offset = o;
  total_len = length message;
}

abbrev pub fragment_header : List ℕ → ℕ → ℕ → ℕ → ℕ → SessionDataHeader
fragment_header message data_type flag sub n = record {
  version = protocol_version;
  frag_flag = flag;
  data_type = data_type;
  seq_num = 0;
  total_len = length message;
  sub_seq = sub;
  data_len = n;
}

abbrev pub chunk : List ℕ → ℕ → ℕ → List ℕ
chunk message o n = take n (drop o message)

pub length-chunk :
    (message : List ℕ) (o n : ℕ) → o + n ≤ length message → length (chunk message o n) ≡ n
length-chunk message o n h = omega (arith, length-take n (drop o message), length-drop o message)

pub length-filled :
    (message : List ℕ) (o : ℕ) → o ≤ length message → length (filled message o) ≡ length message
length-filled message o h = omega (
  arith,
  length-append (take o message) (replicate (length message - o) 0),
  length-take o message,
  length-replicate {A = ℕ} (length message - o) 0,
)

pub overwrite-filled :
    (message : List ℕ) (o n m : ℕ)
    → o + n ≡ m
    → m ≤ length message
    → overwrite (filled message o) o (chunk message o n) ≡ filled message m
overwrite-filled message o n m e h =
    rw
      (
        take-append o (take o message) zeros (omega (arith, length-take o message)),
        drop-append (o + length (chunk message o n)) n (take o message) zeros
            (omega (arith, length-take o message, length-chunk message o n)),
        drop-replicate {A = ℕ} n (length message - o) (length message - m) 0 (omega arith),
      )
      (rw (← append_assoc (take o message) (chunk message o n) (replicate (length message - m) 0))
        (ap (λ xs. xs ++ replicate (length message - m) 0) (take-append-take-drop o n m message e)))
  where
    zeros : List ℕ
    zeros = replicate (length message - o) 0

pub filled_all : (message : List ℕ) (m : ℕ) → m ≡ length message → filled message m ≡ message
filled_all message m e =
    rw (take_all m message (omega arith))
      (let z : length message - m ≡ 0 = omega arith in rw z (append-nil message))

memcpy_s-filled :
    (message : List ℕ) (o n m : ℕ)
    → o + n ≡ m
    → m ≤ length message
    → o < length message
    → memcpy_s (filled message o) o (chunk message o n) ≡ some (filled message m)
memcpy_s-filled message o n m e h k =
    memcpy_s_lem (filled message o) o (chunk message o n) (omega (arith, length-filled message o))
      (omega (arith, length-filled message o, length-chunk message o n))
    ∙ ap some (overwrite-filled message o n m e h)

module _ (message : List ℕ) (data_type flag sub n : ℕ) where
  abbrev h : SessionDataHeader
  h = fragment_header message data_type flag (sub + 1) n

  check_next :
      (o : ℕ)
      → o + n ≤ length message
      → length message < 2 ^ 32
      → sub + 1 < 2 ^ 16
      → check_un_pack_buffer (assembling message sub o) h ≡ true
  unfolding check_un_pack_buffer
  check_next o a b c = ground arith

  -- The next fragment extends what has come in, and the last one hands the buffer on.
  pub assemble_next-fragment :
      (o m : ℕ)
      → o + n ≡ m
      → o < length message
      → m ≤ length message
      → length message < 2 ^ 32
      → sub + 1 < 2 ^ 16
      → assemble_next (assembling message sub o) (packet h (chunk message o n)) h ≡ (
          if flag == frag_end
          then some (reset_assemble_frag, (data_type, filled message m) ∷ [])
          else some (assembling message (sub + 1) m, []))
  unfolding assemble_next
  assemble_next-fragment o m e k l a c =
      rw
        (
          check_next o (omega arith) a c,
          drop-packet h (chunk message o n),
          memcpy_s-filled message o n m e l k,
          assemble_next,
        )
        (let sum : (o + n) % 2 ^ 32 ≡ m = omega arith in rw sum refl)

module _ (message : List ℕ) (data_type flag n : ℕ) (s : Session) where
  abbrev first : SessionDataHeader
  first = fragment_header message data_type flag 0 n

  memcpy_s-new_buffer :
      0 < length message
      → n ≤ length message
      → length message < dsched_max_buffer_size
      → memcpy_s (new_buffer (length message)) 0 (drop 49 (packet first (chunk message 0 n)))
        ≡ some (filled message n)
  memcpy_s-new_buffer pos l small =
      rw (new_buffer_lem (length message) pos small, drop-packet first (chunk message 0 n))
        (let none_yet : length message - 0 ≡ length message = omega arith in
          rw none_yet at (memcpy_s-filled message 0 n n (omega arith) l pos))

  -- The first fragment starts the message afresh, whatever the session was waiting for.
  pub assemble_start-fragment :
      0 < length message
      → n ≤ length message
      → length message < dsched_max_buffer_size
      → assemble_start s (packet first (chunk message 0 n)) first ≡ (assembling message 0 n, [])
  unfolding assemble_start
  assemble_start-fragment pos l small = rw (
    le→ltb_false (length (packet first (chunk message 0 n))) 49 (
        omega (
          arith,
          length-packet first (chunk message 0 n) (length-chunk message 0 n (omega arith)),
        )),
    memcpy_s-new_buffer pos l small,
    assemble_start,
  )

module _ (message : List ℕ) (data_type flag : ℕ) (s : Session) where
  abbrev whole : SessionDataHeader
  whole = fragment_header message data_type flag 0 (length message)

  -- A message that came in one packet is handed on whole, and the session stays as it was.
  pub assemble_no_frag-message :
      0 < length message
      → length message < dsched_max_buffer_size
      → assemble_no_frag s (packet whole message) whole ≡ (s, (data_type, message) ∷ [])
  unfolding assemble_no_frag
  assemble_no_frag-message pos small = rw (
    ==_self (length message),
    le→ltb_false (length (packet whole message)) 49
        (omega (arith, length-packet whole message refl)),
    rw (filled_all message (length message) refl, take_all (length message) message (omega arith))
        at (memcpy_s-new_buffer message data_type flag (length message) s pos (omega arith) small),
    assemble_no_frag,
  )
