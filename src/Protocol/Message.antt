-- ===== src/Protocol/Message.antt =====
-- rust/dynamod-common/src/protocol.rs: what a message says.
use dynamod.Common.{ℕ, String, List, Option}

-- An `i32`: `pos n` is n and `negsuc n` is -(n + 1).
pub data ℤ : Type 0 where
  pos negsuc : ℕ → ℤ

pub data ShutdownKind : Type 0 where
  poweroff reboot halt : ShutdownKind

pub record ServiceEntry : Type 0 where
  pub name : String
  pub status : String
  pub pid : Option ℤ

pub data MessageKind : Type 0 where
  request : MessageKind
  response : (in_reply_to : ℕ) → MessageKind
  event : MessageKind

pub data MessageBody : Type 0 where
  request_shutdown : (kind : ShutdownKind) → MessageBody
  heartbeat heartbeat_ack : MessageBody
  shutdown_signal : (signal : String) → MessageBody
  log_to_kmsg : (level : ℕ) (message : String) → MessageBody
  start_service stop_service restart_service service_status : (name : String) → MessageBody
  list_services tree_status reload : MessageBody
  shutdown : (kind : ShutdownKind) → MessageBody
  get_service_by_pid : (pid : ℤ) → MessageBody
  ack : MessageBody
  error : (message : String) → MessageBody
  service_info : (name status : String) (pid : Option ℤ) (supervisor : String) → MessageBody
  service_list : (services : List ServiceEntry) → MessageBody
  tree : (text : String) → MessageBody
  service_by_pid : (name : Option String) (pid : ℤ) → MessageBody

pub record Message : Type 0 where
  pub id : ℕ
  pub kind : MessageKind
  pub body : MessageBody
