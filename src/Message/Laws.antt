-- ===== src/Message/Laws.antt =====
-- The payload and the meta data of a message.
use boki.Base.{
  ℕ, zero, suc, ◌+◌, ◌-◌, ◌*◌, ◌^◌, ◌≤◌, ◌<◌, List, [], ◌∷◌, ◌++◌, ◌≡◌, refl, sym, ap, ◌∙◌, length,
  take, drop, take-append-drop, length-take, length-drop, drop-drop, ok, arith, le→ltb,
}
use boki.Bits.{u16, join_two32, high_half64, low_half64}
use boki.Storage.{LogMetaData}
use boki.Message.{SharedLogMessage, num_tags, aux_data_size, set_num_tags}
use boki.Message.Payload.{
  log_data_size, get_meta_data_from_message, span, split_payload_for_message,
  populate_meta_data_to_message,
}

-- What is written to a message is read from it: the meta data of a log entry come back when its
-- numbers fit their fields and the payload is as long as the tags, the data and the auxiliary data.
pub populated_is_read :
    (d : LogMetaData) (m : SharedLogMessage)
    → d.seqnum < 2 ^ 64
    → d.num_tags < 2 ^ 16
    → m.payload_size < 2 ^ 32
    → m.payload_size ≡ d.num_tags * 8 + d.data_size + aux_data_size m
    → get_meta_data_from_message (populate_meta_data_to_message d m) ≡ d
unfolding get_meta_data_from_message populate_meta_data_to_message log_data_size join_two32
    high_half64 low_half64
populated_is_read d m seqnum tags size whole =
    let word = set_num_tags d.num_tags m.query_tag in
    let first : join_two32 (high_half64 d.seqnum) (low_half64 d.seqnum) ≡ d.seqnum =
      omega (arith, seqnum) in
    let second : u16 word ≡ d.num_tags = omega (arith, tags) in
    let third : log_data_size (populate_meta_data_to_message d m) ≡ d.data_size =
      omega (arith, tags, size, whole) in
    ap
      (λ x. record d {
        seqnum = x;
        num_tags = u16 word;
        data_size = log_data_size (populate_meta_data_to_message d m);
      })
      first
    ∙ ap
        (λ x. record d {
          num_tags = x;
          data_size = log_data_size (populate_meta_data_to_message d m);
        })
        second
    ∙ ap (λ x. record d { data_size = x }) third

span-ok :
    (start n : ℕ) (payload : List ℕ)
    → start + n ≤ length payload
    → span start n payload ≡ ok (take n (drop start payload))
unfolding span
span-ok start n payload h = rw (le→ltb (length payload) (start + n) h) refl

log_data_size-eq :
    (m : SharedLogMessage)
    → m.payload_size < 2 ^ 32
    → num_tags m * 8 + aux_data_size m ≤ m.payload_size
    → log_data_size m ≡ m.payload_size - (num_tags m * 8 + aux_data_size m)
unfolding log_data_size
log_data_size-eq m small room = omega (arith, small, room)

take-all : {A : Type 0} (n : ℕ) (xs : List A) → length xs ≡ n → take n xs ≡ xs
take-all zero [] h = refl
take-all zero (x ∷ xs) h = absurd (omega (arith, h))
take-all (suc n) [] h = refl
take-all (suc n) (x ∷ xs) h = ap (λ l. x ∷ l) (take-all n xs (omega (arith, h)))

-- The auxiliary data reach to the end.
all_of :
    (m : SharedLogMessage) (payload : List ℕ)
    → length payload ≡ m.payload_size
    → num_tags m * 8 + aux_data_size m ≤ m.payload_size
    → log_data_size m ≡ m.payload_size - (num_tags m * 8 + aux_data_size m)
    → take (aux_data_size m) (drop (num_tags m * 8 + log_data_size m) payload)
      ≡ drop (num_tags m * 8 + log_data_size m) payload
all_of m payload len room size =
    take-all (aux_data_size m) (drop (num_tags m * 8 + log_data_size m) payload)
      (omega (arith, length-drop (num_tags m * 8 + log_data_size m) payload, len, room, size))

-- A payload that is as long as its message says, with room for the tags and the auxiliary data, comes
-- apart without a panic into the tags, the data and the auxiliary data, which have the lengths that
-- the message gives and together are the payload.
pub split_payload_is_payload :
    (m : SharedLogMessage) (payload : List ℕ)
    → length payload ≡ m.payload_size
    → m.payload_size < 2 ^ 32
    → num_tags m * 8 + aux_data_size m ≤ m.payload_size
    → (user_tags log_data aux_data : List ℕ) × (split_payload_for_message m payload
        ≡ ok (user_tags, log_data, aux_data))
      × (user_tags ++ (log_data ++ aux_data) ≡ payload)
      × (length user_tags ≡ num_tags m * 8)
      × (length log_data ≡ (get_meta_data_from_message m).data_size)
      × (length aux_data ≡ aux_data_size m)
unfolding split_payload_for_message get_meta_data_from_message
split_payload_is_payload m payload len small room =
    let size : log_data_size m ≡ m.payload_size - (num_tags m * 8 + aux_data_size m) =
      log_data_size-eq m small room in
    let tags = num_tags m * 8 in
    let body = log_data_size m in
    (
      take tags payload,
      take body (drop tags payload),
      take (aux_data_size m) (drop (tags + body) payload),
      rw (span-ok 0 tags payload (omega (arith, len, room))) (
          rw (span-ok tags body payload (omega (arith, len, size, room))) (
            rw (span-ok (tags + body) (aux_data_size m) payload (omega (arith, len, size, room)))
              refl)),
      ap (λ l. take tags payload ++ (take body (drop tags payload) ++ l))
            (all_of m payload len room size)
          ∙ ap (λ l. take tags payload ++ l)
              (ap (λ l. take body (drop tags payload) ++ l) (sym (drop-drop tags body payload))
                ∙ take-append-drop body (drop tags payload))
          ∙ take-append-drop tags payload,
      length-take tags payload (omega (arith, len, room)),
      length-take body (drop tags payload)
          (omega (arith, length-drop tags payload, len, size, room)),
      length-take (aux_data_size m) (drop (tags + body) payload)
          (omega (arith, length-drop (tags + body) payload, len, size, room)),
    )
