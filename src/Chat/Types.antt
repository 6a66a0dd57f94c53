-- ===== src/Chat/Types.antt =====
-- The interfaces of frontend/src/features/chat/types.ts. A field that may be absent or null is an
-- `Option`.
use decentrarent.Prelude.{String, Option}

pub record Conversation : Type 0 where
  pub id : String
  pub property_id : String
  pub landlord_id : String
  pub loaner_id : String
  pub last_message : Option String
  pub last_message_at : Option String
  pub created_at : String

pub data MessageType : Type 0 where
  text system modal document photo : MessageType

pub record MessageMeta : Type 0 where
  pub document_url : Option String
  pub document_name : Option String
  pub order_id : Option String
  pub modal_action : Option String
  pub modal_status : Option String
  pub modal_id : Option String
  pub event_type : Option String
  pub tx : Option String
  pub photo_url : Option String
  pub photo_key : Option String

pub record Message : Type 0 where
  pub id : String
  pub conversation_id : String
  pub sender_id : String
  pub content : String
  pub message_type : Option MessageType
  pub metadata : Option MessageMeta
  pub created_at : String
