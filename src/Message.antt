-- ===== src/Message.antt =====
-- packages/core/src/types/overrides.ts: the message that asks a queue to revalidate a route.
use Prim.Native.String
use adapters_api.Common.{ℕ, String}

-- `MessageBody`
pub record MessageBody : Type 0 where
  pub host : String
  pub url : String
  pub last_modified : ℕ
  pub e_tag : String

-- `QueueMessage`
pub record QueueMessage : Type 0 where
  pub message_deduplication_id : String
  pub message_body : MessageBody
  pub message_group_id : String

-- `${host}${url}`
abbrev pub route_of : QueueMessage → String
route_of msg = String.◌++◌ msg.message_body.host msg.message_body.url
