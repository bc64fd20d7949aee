-- ===== src/Protocol.antt =====
-- proto/vynkor_protocol.proto: the messages that the SDK builds and reads. An envelope is its oneof
-- payload; message_id, timestamp and sender_id of the envelope are neither set nor read by the SDK.
-- The protobuf code is generated at build time: its encoding is a parameter where it is used.
use vynkor_sdk_cpp.Base.{ℕ, Bool, List}
use vynkor_sdk_cpp.Base.Text.{Text}
use vynkor_sdk_cpp.Mac.{Bytes}

pub data ActionRisk : Type 0 where
  risk_unknown risk_low risk_medium risk_high risk_critical : ActionRisk

pub data ActionStatus : Type 0 where
  status_unknown status_ok status_error status_timeout status_permission_deny status_not_found
        status_quota_exceeded status_stream_backpressure :
      ActionStatus

pub record ActionSpec : Type 0 where
  pub name : Text
  pub description : Text
  pub params_schema : Text
  pub risk : ActionRisk
  pub requires_confirmation : Bool

pub record PluginManifest : Type 0 where
  pub permissions : List Text
  pub actions : List Text
  pub events : List Text
  pub ipc_targets : List Text
  pub platforms : List Text
  pub action_specs : List ActionSpec

-- The fields that `register_full` sets; the others keep their defaults.
pub record PluginRegister : Type 0 where
  pub plugin_id : Text
  pub version : Text
  pub manifest : PluginManifest
  pub jwt_token : Text
  pub device_id : Text

pub record PluginRegisterAck : Type 0 where
  pub accepted : Bool
  pub reject_reason : Text
  pub session_nonce : Bytes

pub record ActionRequest : Type 0 where
  pub action_id : Text
  pub action : Text
  pub params_json : Bytes
  pub timeout_ms : ℕ
  pub streaming : Bool
  pub caller_plugin_id : Text

pub record ActionResponse : Type 0 where
  pub action_id : Text
  pub status : ActionStatus
  pub data_json : Bytes
  pub error : Text

pub record Event : Type 0 where
  pub event_id : Text
  pub event_type : Text
  pub payload_json : Bytes
  pub retry_count : ℕ

pub data Envelope : Type 0 where
  unset : Envelope
  plugin_register : PluginRegister → Envelope
  plugin_register_ack : PluginRegisterAck → Envelope
  plugin_shutdown : Text → ℕ → Envelope
  action_request : ActionRequest → Envelope
  action_response : ActionResponse → Envelope
  action_request_chunk : Text → ℕ → Bytes → Bool → Envelope
  action_response_chunk : Text → ℕ → Bytes → Envelope
  action_stream_abort : Text → Text → Envelope
  session_close : Text → Text → Envelope
  kernel_command : Text → Text → Bytes → Envelope
  kernel_command_ack : Text → ℕ → Bytes → Text → Envelope
  event : Event → Envelope
  event_ack : Text → Envelope
  subscribe : List Text → Envelope
  unsubscribe : List Text → Envelope
  event_publish : Text → Bytes → Envelope
  event_publish_ack : Text → ℕ → Text → Envelope
  audio_stream_chunk : ℕ → ℕ → ℕ → ℕ → Bytes → Bool → Envelope
  ping : ℕ → Envelope
  pong : ℕ → ℕ → Envelope
  error : ℕ → Text → Text → Envelope

-- include/vynkor/concurrent.hpp: the outcome of one action.
pub record ActionResult : Type 0 where
  pub is_ok : Bool
  pub data_json : Bytes
  pub error : Text
