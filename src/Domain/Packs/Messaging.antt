-- ===== src/Domain/Packs/Messaging.antt =====
-- framework/domain/packs.py: messaging_resources, a definition for the columns and one for the
-- keyword arguments of each resource.
use json_api_forge.Prelude.{String, true, false, some, List, [], ◌∷◌, if◌then◌else◌}
use json_api_forge.Prelude.Dict.{Dict}
use json_api_forge.Domain.Packs.Resource.{
  ColumnConfig, ResourceConfig, PackConfig, Keywords, column, keywords, entry,
}

abbrev pub conversations_columns : Dict String ColumnConfig
conversations_columns =
    ("id", record (column "integer") { primary_key = true; nullable = false })
    ∷ ("type", record (column "string") { nullable = false; max_length = some 32; index = true })
    ∷ ("title", record (column "string") { max_length = some 160 })
    ∷ ("created_by", record (column "string") { nullable = false; index = true })
    ∷ ("created_at", record (column "datetime") { nullable = false })
    ∷ ("updated_at", column "datetime")
    ∷ ("deleted_at", column "datetime")
    ∷ []

abbrev pub conversations_keywords : Keywords
conversations_keywords = record keywords {
  filters = "type" ∷ "created_by" ∷ [];
  sort = "id" ∷ "created_at" ∷ "updated_at" ∷ [];
  writable = some ("type" ∷ "title" ∷ []);
  soft_delete = some "deleted_at";
  owner_field = some "created_by";
  owner_actions = "list" ∷ "read" ∷ "update" ∷ "delete" ∷ [];
}

abbrev pub members_columns : Dict String ColumnConfig
members_columns =
    ("id", record (column "integer") { primary_key = true; nullable = false })
    ∷ ("conversation_id", record (column "integer") { nullable = false; index = true })
    ∷ ("user_id", record (column "string") { nullable = false; index = true })
    ∷ ("role", record (column "string") { nullable = false; max_length = some 32 })
    ∷ ("joined_at", record (column "datetime") { nullable = false })
    ∷ ("muted_until", column "datetime")
    ∷ ("last_read_message_id", column "integer")
    ∷ []

abbrev pub members_keywords : Keywords
members_keywords = record keywords {
  filters = "conversation_id" ∷ "user_id" ∷ "role" ∷ [];
  sort = "id" ∷ "joined_at" ∷ [];
  writable = some ("conversation_id" ∷ "muted_until" ∷ "last_read_message_id" ∷ []);
  owner_field = some "user_id";
  owner_actions = "list" ∷ "read" ∷ "update" ∷ "delete" ∷ [];
}

abbrev pub messages_columns : Dict String ColumnConfig
messages_columns =
    ("id", record (column "integer") { primary_key = true; nullable = false })
    ∷ ("conversation_id", record (column "integer") { nullable = false; index = true })
    ∷ ("sender_id", record (column "string") { nullable = false; index = true })
    ∷ ("kind", record (column "string") { nullable = false; max_length = some 32; index = true })
    ∷ ("content", column "text")
    ∷ ("media_id", record (column "string") { index = true })
    ∷ ("reply_to_id", record (column "integer") { index = true })
    ∷ ("metadata", column "json")
    ∷ ("created_at", record (column "datetime") { nullable = false; index = true })
    ∷ ("edited_at", column "datetime")
    ∷ ("deleted_at", column "datetime")
    ∷ []

abbrev pub messages_keywords : Keywords
messages_keywords = record keywords {
  filters = "conversation_id" ∷ "sender_id" ∷ "kind" ∷ [];
  sort = "id" ∷ "created_at" ∷ [];
  writable =
      some ("conversation_id" ∷ "kind" ∷ "content" ∷ "media_id" ∷ "reply_to_id" ∷ "metadata" ∷ []);
  soft_delete = some "deleted_at";
  pagination_mode = "cursor";
  cursor_field = some "id";
  owner_field = some "sender_id";
  owner_actions = "update" ∷ "delete" ∷ [];
}

abbrev pub reactions_columns : Dict String ColumnConfig
reactions_columns =
    ("id", record (column "integer") { primary_key = true; nullable = false })
    ∷ ("message_id", record (column "integer") { nullable = false; index = true })
    ∷ ("user_id", record (column "string") { nullable = false; index = true })
    ∷ ("emoji", record (column "string") { nullable = false; max_length = some 32 })
    ∷ ("created_at", record (column "datetime") { nullable = false })
    ∷ []

abbrev pub reactions_keywords : Keywords
reactions_keywords = record keywords {
  filters = "message_id" ∷ "user_id" ∷ "emoji" ∷ [];
  writable = some ("message_id" ∷ "emoji" ∷ []);
  owner_field = some "user_id";
  owner_actions = "list" ∷ "read" ∷ "update" ∷ "delete" ∷ [];
}

abbrev pub receipts_columns : Dict String ColumnConfig
receipts_columns =
    ("id", record (column "integer") { primary_key = true; nullable = false })
    ∷ ("message_id", record (column "integer") { nullable = false; index = true })
    ∷ ("user_id", record (column "string") { nullable = false; index = true })
    ∷ ("status", record (column "string") { nullable = false; max_length = some 24; index = true })
    ∷ ("at", record (column "datetime") { nullable = false })
    ∷ []

abbrev pub receipts_keywords : Keywords
receipts_keywords = record keywords {
  filters = "message_id" ∷ "user_id" ∷ "status" ∷ [];
  writable = some ("message_id" ∷ "status" ∷ "at" ∷ []);
  owner_field = some "user_id";
  owner_actions = "list" ∷ "read" ∷ "update" ∷ "delete" ∷ [];
}

unfoldable pub messaging_resources : PackConfig → List ResourceConfig
messaging_resources spec =
    if spec.enabled
    then entry spec "conversations" "messaging/conversations" conversations_columns
        conversations_keywords
      ∷ entry spec "members" "messaging/members" members_columns members_keywords
      ∷ entry spec "messages" "messaging/messages" messages_columns messages_keywords
      ∷ entry spec "reactions" "messaging/reactions" reactions_columns reactions_keywords
      ∷ entry spec "receipts" "messaging/receipts" receipts_columns receipts_keywords
      ∷ []
    else []
