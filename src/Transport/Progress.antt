-- ===== src/Transport/Progress.antt =====
-- `UnPackSendData` ends, and over a channel that works it sends the whole message.
use mathlib.Core.Option
use mathlib.Core.List.{append-nil}
use dmsfwk.Prelude.{
  ℕ, zero, suc, ◌+◌, ◌-◌, ◌≤◌, ◌<◌, ◌≡◌, ◌≢◌, refl, ap, inl, inr, Option, none, some, List, [], ◌∷◌,
  ◌++◌, drop, drop-drop, drop_all, take-append-drop, sym, ◌∙◌, length, leb, leb→le, lt→leb_false,
  le→leb, le→ltb_false, length-replicate, Bool-cases, arith,
}
use dmsfwk.Buffer.{new_buffer}
use dmsfwk.Buffer.Laws.{new_buffer_lem}
use dmsfwk.Transport.Header.{SessionDataHeader, frag_start_end}
use dmsfwk.Transport.Sender.{
  err_ok, SoftBus, Sent, add_packet, set_head_para_data_len, next_head_para, send_rounds,
  un_pack_send_data, un_pack_start_end_data, first_head_para,
}
use dmsfwk.Transport.Receiver.{binary_data_max_len}
use dmsfwk.Transport.Packets.{packet, make_packet_lem, drop-packet}
use dmsfwk.Transport.Filling.{fragment_header, chunk, length-chunk}

send_rounds-ne-none :
    (bus : SoftBus) (message : List ℕ) (fuel k : ℕ) (h : SessionDataHeader) (o size : ℕ)
    → length message < fuel + o
    → 0 < fuel
    → send_rounds bus message fuel k h o size ≢ none
unfolding send_rounds set_head_para_data_len
send_rounds-ne-none bus message zero k h o size a b = absurd (omega arith)
send_rounds-ne-none bus message (suc fuel) k h o size a b =
    let h' = set_head_para_data_len h (length message) o size in
    ground (
      arith,
      send_rounds-ne-none bus message fuel (k + 1) (next_head_para h') (o + h'.data_len)
          (bus.get_session_option (k + 1)).1,
    )

-- Whatever SoftBus answers, the loop of `UnPackSendData` ends within a round for each byte of the
-- message and one more.
pub un_pack_send_data-ne-none :
    (bus : SoftBus) (message : List ℕ) (data_type : ℕ)
    → un_pack_send_data bus message data_type ≢ none
unfolding un_pack_send_data
un_pack_send_data-ne-none bus message data_type = ground (
  arith,
  send_rounds-ne-none bus message (length message + 1) 0 (first_head_para message data_type) 0
      (bus.get_session_option 0).1,
)

-- Every call of SoftBus succeeds, and every size is enough for the reserve and at most 4 MB.
pub record Works (bus : SoftBus) : Type 0 where
  pub option_ok : (k : ℕ) → (bus.get_session_option k).0 ≡ err_ok
  pub size_enough : (k : ℕ) → 512 < (bus.get_session_option k).1
  pub size_limited : (k : ℕ) → (bus.get_session_option k).1 ≤ binary_data_max_len
  pub send_ok : (k : ℕ) (p : List ℕ) → bus.send_bytes k p ≡ err_ok

-- What packets carry: the bytes behind their headers, one after another.
unfoldable pub carried : List (List ℕ) → List ℕ
carried [] = []
carried (p ∷ ps) = drop 49 p ++ carried ps

chunk-drop :
    (message : List ℕ) (o n : ℕ) → chunk message o n ++ drop (o + n) message ≡ drop o message
chunk-drop message o n =
    ap (λ xs. chunk message o n ++ xs) (sym (drop-drop o n (o + n) message refl))
    ∙ take-append-drop n (drop o message)

-- The call ended well, with at most `n` packets, which carry these bytes.
abbrev pub SentWithin : ℕ → List ℕ → Option Sent → Type 0
SentWithin n bytes none = ⊥
SentWithin n bytes (some (code, ps)) = (code ≡ err_ok) × (length ps ≤ n) × (carried ps ≡ bytes)

SentWithin-add :
    (p : List ℕ) (n m : ℕ) (front bytes : List ℕ) (r : Option Sent)
    → n < m
    → drop 49 p ≡ front
    → SentWithin n bytes r
    → SentWithin m (front ++ bytes) (Option.map (add_packet p) r)
unfolding carried
SentWithin-add p n m front bytes none h e w = w
SentWithin-add p n m front bytes (some (code, ps)) h e w =
    (w.0, omega (arith, w.1), ap (λ xs. xs ++ carried ps) e ∙ ap (λ xs. front ++ xs) w.2)

-- A whole message in one packet.
SentWithin-one :
    (h : SessionDataHeader) (m : ℕ) (message : List ℕ)
    → 0 < m
    → SentWithin m message (some (err_ok, packet h message ∷ []))
unfolding carried
SentWithin-one h m message pos =
    (refl, omega arith, append-nil (drop 49 (packet h message)) ∙ drop-packet h message)

module _ (bus : SoftBus) (message : List ℕ) (w : Works bus) where
  -- Over such a channel every round makes its packet and goes on.
  send_rounds_step :
      (fuel k : ℕ) (h : SessionDataHeader) (o size n : ℕ)
      → o + n ≤ length message
      → 0 < n
      → 512 < size
      → n ≤ binary_data_max_len
      → (set_head_para_data_len h (length message) o size).data_len ≡ n
      → let h' = set_head_para_data_len h (length message) o size in
        send_rounds bus message (suc fuel) k h o size
        ≡ Option.map (add_packet (packet h' (chunk message o h'.data_len))) (
            send_rounds bus message fuel
              (k + 1)
              (next_head_para h')
              (o + h'.data_len)
              (bus.get_session_option (k + 1)).1)
  unfolding send_rounds
  send_rounds_step fuel k h o size n a b c d e =
      let h' = set_head_para_data_len h (length message) o size in
      rw (
        lt→leb_false (length message) o (omega arith),
        lt→leb_false size 512 c,
        make_packet_lem h' (chunk message o h'.data_len)
            (length-chunk message o h'.data_len (omega arith)) (omega arith) (omega arith),
        w.send_ok k (packet h' (chunk message o h'.data_len)),
        w.option_ok (k + 1),
        send_rounds,
      )

  data_len_bounds :
      (h : SessionDataHeader) (o size : ℕ)
      → o < length message
      → 512 < size
      → size ≤ binary_data_max_len
      → let n = (set_head_para_data_len h (length message) o size).data_len in
        (0 < n) × (o + n ≤ length message) × (n ≤ binary_data_max_len)
  unfolding set_head_para_data_len
  data_len_bounds h o size a b c = (ground arith, ground arith, ground arith)

  send_rounds_stops :
      (fuel k : ℕ) (h : SessionDataHeader) (o size : ℕ)
      → length message ≤ o
      → send_rounds bus message (suc fuel) k h o size ≡ some (err_ok, [])
  unfolding send_rounds
  send_rounds_stops fuel k h o size done = rw (le→leb (length message) o done, send_rounds)

  un_pack_start_end_data_works :
      (data_type : ℕ)
      → 0 < length message
      → length message ≤ binary_data_max_len
      → un_pack_start_end_data bus message data_type ≡ (
        err_ok,
        packet (fragment_header message data_type frag_start_end 0 (length message)) message ∷ [],
      )
  unfolding un_pack_start_end_data
  un_pack_start_end_data_works data_type pos small =
      let whole = fragment_header message data_type frag_start_end 0 (length message) in
      rw (
        le→ltb_false (length (new_buffer (length message + 49))) 49 (
            omega (
              arith,
              ap length (new_buffer_lem (length message + 49) (omega arith) (omega arith)),
              length-replicate {A = ℕ} (length message + 49) 0,
            )),
        make_packet_lem whole message refl pos (omega arith),
        un_pack_start_end_data,
        w.send_ok 0 (packet whole message),
      )

  send_rounds_works :
      (fuel k : ℕ) (h : SessionDataHeader) (o size m : ℕ)
      → length message < fuel + o
      → o + m ≡ length message
      → 512 < size
      → size ≤ binary_data_max_len
      → SentWithin m (drop o message) (send_rounds bus message fuel k h o size)
  unfolding carried
  send_rounds_works zero k h o size m a b c d = absurd (omega arith)
  send_rounds_works (suc fuel) k h o size zero a b c d =
      rw (send_rounds_stops fuel k h o size (omega arith))
        (refl, omega arith, sym (drop_all o message (omega arith)))
  send_rounds_works (suc fuel) k h o size (suc m) a b c d =
      let h' = set_head_para_data_len h (length message) o size in
      let (pos, within, small) = data_len_bounds h o size (omega arith) c d in
      rw
        (
          ← chunk-drop message o h'.data_len,
          send_rounds_step fuel k h o size h'.data_len within pos c small refl,
        )
        (SentWithin-add _ (suc m - h'.data_len) (suc m) (chunk message o h'.data_len) _ _
          (omega arith) (drop-packet h' (chunk message o h'.data_len))
          (send_rounds_works fuel (k + 1) (next_head_para h') (o + h'.data_len) _
            (suc m - h'.data_len) (omega arith) (omega arith) (w.size_enough (k + 1))
            (w.size_limited (k + 1))))

  -- If every call of SoftBus succeeds, and every size that it gives is more than 512 and at most 4
  -- MB, then a message that has any data is sent with the result `ERR_OK`, in no more packets than
  -- it has bytes, and what the packets carry behind their headers of 49 bytes is, in order, the message.
  pub un_pack_send_data_works :
      (data_type : ℕ)
      → 0 < length message
      → SentWithin (length message) message (un_pack_send_data bus message data_type)
  unfolding un_pack_send_data
  un_pack_send_data_works data_type pos =
      let size = (bus.get_session_option 0).1 in
      elim (Bool-cases (leb (length message) size)) [
        | inl whole ↦
            rw
              (
                w.option_ok 0,
                whole,
                un_pack_send_data,
                un_pack_start_end_data_works data_type pos
                    (omega (arith, leb→le (length message) size whole, w.size_limited 0)),
              )
              (SentWithin-one _ (length message) message pos)
        | inr parts ↦
            rw (w.option_ok 0, parts, un_pack_send_data)
              (send_rounds_works (length message + 1) 0 (first_head_para message data_type) 0 size
                (length message) (omega arith) (omega arith) (w.size_enough 0) (w.size_limited 0))
      ]
