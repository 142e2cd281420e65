-- ===== src/Message.antt =====
-- src/common/protocol.h, `SharedLogMessage`: the header of the messages between the log's nodes. The
-- members of a union share one field here, whose parts are read by accessors; a member at a lower
-- address is the lower half. Paddings are left out.
pub mod Payload
pub mod Laws
mod Tests
use boki.Base.{ℕ, ◌+◌, ◌*◌, ◌/◌, ◌%◌, ◌^◌, List, [], ◌∷◌, Option, Map, lookup}
use boki.Bits.{u16, low_half32, high_half32, low_half64, high_half64}

pub data SharedLogOpType : Type 0 where
  invalid_op append read_next read_prev trim_op set_auxdata read_next_b read_at replicate index_data
        shard_prog metalogs meta_prog response :
      SharedLogOpType

abbrev pub op_code : SharedLogOpType → ℕ
op_code invalid_op = 0x00
op_code append = 0x01
op_code read_next = 0x02
op_code read_prev = 0x03
op_code trim_op = 0x04
op_code set_auxdata = 0x05
op_code read_next_b = 0x06
op_code read_at = 0x10
op_code replicate = 0x11
op_code index_data = 0x12
op_code shard_prog = 0x13
op_code metalogs = 0x14
op_code meta_prog = 0x15
op_code response = 0x20

abbrev pub op_types : Map SharedLogOpType
op_types =
    (0x00, invalid_op)
    ∷ (0x01, append)
    ∷ (0x02, read_next)
    ∷ (0x03, read_prev)
    ∷ (0x04, trim_op)
    ∷ (0x05, set_auxdata)
    ∷ (0x06, read_next_b)
    ∷ (0x10, read_at)
    ∷ (0x11, replicate)
    ∷ (0x12, index_data)
    ∷ (0x13, shard_prog)
    ∷ (0x14, metalogs)
    ∷ (0x15, meta_prog)
    ∷ (0x20, response)
    ∷ []

pub record SharedLogMessage : Type 0 where
  pub op_type : ℕ
  -- or `flags`
  pub op_result : ℕ
  pub origin_node_id : ℕ
  pub hop_times : ℕ
  pub payload_size : ℕ
  -- `sequencer_id` and `view_id`
  pub logspace_id : ℕ
  -- or `user_logspace`
  pub metalog_position : ℕ
  -- or `prev_view_id` and `prev_engine_id`
  pub seqnum_lowhalf : ℕ
  -- or `num_tags` and `aux_data_size`
  pub query_tag : ℕ
  pub user_metalog_progress : ℕ
  -- or `query_seqnum` or `trim_seqnum`
  pub localid : ℕ
  pub client_data : ℕ
  pub prev_found_seqnum : ℕ

abbrev pub message_view_id : SharedLogMessage → ℕ
message_view_id m = high_half32 m.logspace_id

abbrev pub message_sequencer_id : SharedLogMessage → ℕ
message_sequencer_id m = low_half32 m.logspace_id

abbrev pub user_logspace : SharedLogMessage → ℕ
user_logspace m = m.metalog_position

abbrev pub num_tags : SharedLogMessage → ℕ
num_tags m = u16 m.query_tag

abbrev pub aux_data_size : SharedLogMessage → ℕ
aux_data_size m = u16 (m.query_tag / 2 ^ 16)

-- `message.num_tags = n` and `message.aux_data_size = n` keep the rest of the word.
abbrev pub set_num_tags : ℕ → ℕ → ℕ
set_num_tags n word = u16 n + (word / 2 ^ 16) * 2 ^ 16

abbrev pub set_aux_data_size : ℕ → ℕ → ℕ
set_aux_data_size n word = u16 word + (u16 n) * 2 ^ 16 + (word / 2 ^ 32) * 2 ^ 32

-- `GetOpType`; a code with no name is none.
unfoldable pub get_op_type : SharedLogMessage → Option SharedLogOpType
get_op_type m = lookup m.op_type op_types

-- `NEW_EMPTY_SHAREDLOG_MESSAGE` with a type.
abbrev pub new_message : SharedLogOpType → SharedLogMessage
new_message t = record {
  op_type = op_code t;
  op_result = 0;
  origin_node_id = 0;
  hop_times = 0;
  payload_size = 0;
  logspace_id = 0;
  metalog_position = 0;
  seqnum_lowhalf = 0;
  query_tag = 0;
  user_metalog_progress = 0;
  localid = 0;
  client_data = 0;
  prev_found_seqnum = 0;
}

abbrev pub new_set_aux_data_message : ℕ → SharedLogMessage
new_set_aux_data_message seqnum = record (new_message set_auxdata) {
  logspace_id = high_half64 seqnum;
  seqnum_lowhalf = low_half64 seqnum;
}

abbrev pub new_meta_logs_message : ℕ → SharedLogMessage
new_meta_logs_message logspace_id = record (new_message metalogs) { logspace_id = logspace_id }

abbrev pub new_meta_log_progress_message : ℕ → ℕ → SharedLogMessage
new_meta_log_progress_message logspace_id progress = record (new_message meta_prog) {
  logspace_id = logspace_id;
  metalog_position = progress;
}

abbrev pub new_shard_progress_message : ℕ → SharedLogMessage
new_shard_progress_message logspace_id = record (new_message shard_prog) {
  logspace_id = logspace_id;
}

abbrev pub new_index_data_message : ℕ → SharedLogMessage
new_index_data_message logspace_id = record (new_message index_data) { logspace_id = logspace_id }

abbrev pub new_read_at_message : ℕ → ℕ → SharedLogMessage
new_read_at_message logspace_id seqnum_lowhalf = record (new_message read_at) {
  logspace_id = logspace_id;
  seqnum_lowhalf = seqnum_lowhalf;
}

-- `NewResponse` with the code of the result.
abbrev pub new_response : ℕ → SharedLogMessage
new_response result = record (new_message response) { op_result = result }
