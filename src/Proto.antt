-- ===== src/Proto.antt =====
-- src/proto/shared_log.proto: the messages that the log's parts exchange. A protobuf message always
-- has all its fields, so a message is a record; a repeated field is a list.
use boki.Base.{ℕ, List, []}

pub record ViewProto : Type 0 where
  pub view_id : ℕ
  pub metalog_replicas : ℕ
  pub userlog_replicas : ℕ
  pub index_replicas : ℕ
  pub num_phylogs : ℕ
  pub sequencer_nodes : List ℕ
  pub log_space_hash_seed : ℕ
  pub log_space_hash_tokens : List ℕ
  pub engine_nodes : List ℕ
  pub index_plan : List ℕ
  pub storage_nodes : List ℕ
  pub storage_plan : List ℕ

-- `MetaLogProto::Type`
pub data MetaLogType : Type 0 where
  invalid new_logs trim : MetaLogType

pub record NewLogsProto : Type 0 where
  pub start_seqnum : ℕ
  pub shard_starts : List ℕ
  pub shard_deltas : List ℕ

pub record TrimProto : Type 0 where
  pub user_logspace : ℕ
  pub user_tag : ℕ
  pub trim_seqnum : ℕ

pub record MetaLogProto : Type 0 where
  pub logspace_id : ℕ
  pub metalog_seqnum : ℕ
  pub type : MetaLogType
  pub new_logs_proto : NewLogsProto
  pub trim_proto : TrimProto

pub record MetaLogsProto : Type 0 where
  pub logspace_id : ℕ
  pub metalogs : List MetaLogProto

pub record FrozenSequencerProto : Type 0 where
  pub view_id : ℕ
  pub sequencer_id : ℕ
  pub tail_metalogs : List MetaLogsProto

pub record FinalizedViewProto : Type 0 where
  pub view_id : ℕ
  pub metalog_positions : List ℕ
  pub tail_metalogs : List MetaLogsProto

pub record IndexDataProto : Type 0 where
  pub logspace_id : ℕ
  pub seqnum_halves : List ℕ
  pub engine_ids : List ℕ
  pub user_logspaces : List ℕ
  pub user_tag_sizes : List ℕ
  pub user_tags : List ℕ

-- A sub-message that is not set.
abbrev pub no_trim : TrimProto
no_trim = record { user_logspace = 0; user_tag = 0; trim_seqnum = 0 }

abbrev pub no_index_data : IndexDataProto
no_index_data = record {
  logspace_id = 0;
  seqnum_halves = [];
  engine_ids = [];
  user_logspaces = [];
  user_tag_sizes = [];
  user_tags = [];
}
