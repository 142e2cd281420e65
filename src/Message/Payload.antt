-- ===== src/Message/Payload.antt =====
-- src/log/utils.cpp: what a message and its payload say of a log entry. A payload is a list of bytes;
-- a span is the part of the list. A payload shorter than the message says is read past its end,
-- which panics; the size of the data wraps around below zero.
use boki.Base.{
  ℕ, ◌+◌, ◌-◌, ◌*◌, ◌^◌, List, ltb, if◌then◌else◌, length, take, drop, Result, ok, panic, ◌>>=◌,
}
use boki.Bits.{u64, join_two32, high_half64, low_half64}
use boki.Storage.{LogMetaData}
use boki.Message.{SharedLogMessage, user_logspace, num_tags, aux_data_size, set_num_tags}

-- `total_size - num_tags * sizeof(uint64_t) - aux_data_size` on `size_t`.
unfoldable pub log_data_size : SharedLogMessage → ℕ
log_data_size m = u64 (m.payload_size + 2 ^ 64 - (num_tags m * 8 + aux_data_size m))

-- `GetMetaDataFromMessage`
unfoldable pub get_meta_data_from_message : SharedLogMessage → LogMetaData
get_meta_data_from_message m = record {
  user_logspace = user_logspace m;
  seqnum = join_two32 m.logspace_id m.seqnum_lowhalf;
  localid = m.localid;
  num_tags = num_tags m;
  data_size = log_data_size m;
}

-- The `n` bytes from `start` on.
unfoldable pub span : ℕ → ℕ → List ℕ → Result (List ℕ)
span start n payload =
    if ltb (length payload) (start + n) then panic else ok (take n (drop start payload))

-- `SplitPayloadForMessage`: the bytes of the tags, the data and the auxiliary data.
unfoldable pub split_payload_for_message :
    SharedLogMessage → List ℕ → Result (List ℕ × List ℕ × List ℕ)
split_payload_for_message m payload = do
  user_tags ← span 0 (num_tags m * 8) payload
  log_data ← span (num_tags m * 8) (log_data_size m) payload
  aux_data ← span (num_tags m * 8 + log_data_size m) (aux_data_size m) payload
  ok (user_tags, log_data, aux_data)

-- The two functions `PopulateMetaDataToMessage`, which differ in where the numbers come from.
unfoldable pub populate_meta_data_to_message : LogMetaData → SharedLogMessage → SharedLogMessage
populate_meta_data_to_message metadata m = record m {
  logspace_id = high_half64 metadata.seqnum;
  metalog_position = metadata.user_logspace;
  seqnum_lowhalf = low_half64 metadata.seqnum;
  query_tag = set_num_tags metadata.num_tags m.query_tag;
  localid = metadata.localid;
}
