-- ===== src/Message/Tests.antt =====
-- A message with two tags, three bytes of data and one of auxiliary data.
use boki.Base.{ℕ, List, [], ◌∷◌, ◌++◌, ◌*◌, some, ◌≡◌, refl, length, ok, arith}
use boki.Storage.{LogMetaData}
use boki.Message.{
  SharedLogMessage, new_message, replicate, num_tags, aux_data_size, get_op_type, meta_prog,
  new_meta_log_progress_message, set_aux_data_size,
}
use boki.Message.Payload.{
  get_meta_data_from_message, populate_meta_data_to_message, split_payload_for_message,
}
use boki.Message.Laws.{populated_is_read, split_payload_is_payload}

abbrev meta_data : LogMetaData
meta_data = record {
  user_logspace = 4;
  seqnum = 0x1_0002_0000_0005;
  localid = 9;
  num_tags = 2;
  data_size = 3;
}

abbrev blank : SharedLogMessage
blank = record (new_message replicate) { payload_size = 20; query_tag = set_aux_data_size 1 0 }

abbrev filled : SharedLogMessage
filled = record blank { query_tag = 0x1_0002 }

abbrev bytes : List ℕ
bytes = 1 ∷ 0 ∷ 0 ∷ 0 ∷ 0 ∷ 0 ∷ 0 ∷ 0 ∷ 2 ∷ 0 ∷ 0 ∷ 0 ∷ 0 ∷ 0 ∷ 0 ∷ 0 ∷ 7 ∷ 8 ∷ 9 ∷ 5 ∷ []

populated_is_read_example :
    get_meta_data_from_message (populate_meta_data_to_message meta_data blank) ≡ meta_data
populated_is_read_example =
    populated_is_read meta_data blank (omega arith) (omega arith) (omega arith) (omega arith)

split_payload_is_payload_example :
    (user_tags log_data aux_data : List ℕ) × (split_payload_for_message filled bytes
      ≡ ok (user_tags, log_data, aux_data))
    × (user_tags ++ (log_data ++ aux_data) ≡ bytes)
    × (length user_tags ≡ num_tags filled * 8)
    × (length log_data ≡ (get_meta_data_from_message filled).data_size)
    × (length aux_data ≡ aux_data_size filled)
split_payload_is_payload_example =
    split_payload_is_payload filled bytes refl (omega arith) (omega arith)

progress_type : get_op_type (new_meta_log_progress_message 3 7) ≡ some meta_prog
unfolding get_op_type boki.Base.lookup
progress_type = refl
