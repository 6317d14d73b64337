-- ===== src/Domain/Packs/Social.antt =====
-- framework/domain/packs.py: social_resources, a definition for the columns and one for the
-- keyword arguments of each resource.
use json_api_forge.Prelude.{String, true, false, some, List, [], ◌∷◌, if◌then◌else◌}
use json_api_forge.Prelude.Dict.{Dict}
use json_api_forge.Domain.Packs.Resource.{
  ColumnConfig, ResourceConfig, PackConfig, Keywords, column, keywords, entry,
}

abbrev pub profiles_columns : Dict String ColumnConfig
profiles_columns =
    ("id", record (column "integer") { primary_key = true; nullable = false })
    ∷ ("user_id", record (column "string") { nullable = false; unique = true; index = true })
    ∷ (
      "username",
      record (column "string") {
        nullable = false;
        unique = true;
        index = true;
        max_length = some 64;
      },
    )
    ∷ ("display_name", record (column "string") { max_length = some 120 })
    ∷ ("bio", column "text")
    ∷ ("avatar_media_id", column "string")
    ∷ ("metadata", column "json")
    ∷ ("created_at", record (column "datetime") { nullable = false })
    ∷ ("updated_at", column "datetime")
    ∷ []

abbrev pub profiles_keywords : Keywords
profiles_keywords = record keywords {
  filters = "user_id" ∷ "username" ∷ [];
  sort = "id" ∷ "username" ∷ "created_at" ∷ [];
  writable = some ("username" ∷ "display_name" ∷ "bio" ∷ "avatar_media_id" ∷ "metadata" ∷ []);
  owner_field = some "user_id";
  owner_actions = "read" ∷ "update" ∷ "delete" ∷ [];
}

abbrev pub posts_columns : Dict String ColumnConfig
posts_columns =
    ("id", record (column "integer") { primary_key = true; nullable = false })
    ∷ ("author_id", record (column "string") { nullable = false; index = true })
    ∷ ("text", column "text")
    ∷ (
      "visibility",
      record (column "string") { nullable = false; index = true; max_length = some 24 },
    )
    ∷ ("media", column "json")
    ∷ ("metadata", column "json")
    ∷ ("created_at", record (column "datetime") { nullable = false; index = true })
    ∷ ("updated_at", column "datetime")
    ∷ ("deleted_at", column "datetime")
    ∷ []

abbrev pub posts_keywords : Keywords
posts_keywords = record keywords {
  filters = "author_id" ∷ "visibility" ∷ [];
  sort = "id" ∷ "created_at" ∷ "updated_at" ∷ [];
  writable = some ("text" ∷ "visibility" ∷ "media" ∷ "metadata" ∷ []);
  soft_delete = some "deleted_at";
  pagination_mode = "cursor";
  cursor_field = some "id";
  owner_field = some "author_id";
  owner_actions = "read" ∷ "update" ∷ "delete" ∷ [];
}

abbrev pub comments_columns : Dict String ColumnConfig
comments_columns =
    ("id", record (column "integer") { primary_key = true; nullable = false })
    ∷ ("post_id", record (column "integer") { nullable = false; index = true })
    ∷ ("author_id", record (column "string") { nullable = false; index = true })
    ∷ ("parent_id", record (column "integer") { index = true })
    ∷ ("text", record (column "text") { nullable = false })
    ∷ ("created_at", record (column "datetime") { nullable = false; index = true })
    ∷ ("updated_at", column "datetime")
    ∷ ("deleted_at", column "datetime")
    ∷ []

abbrev pub comments_keywords : Keywords
comments_keywords = record keywords {
  filters = "post_id" ∷ "author_id" ∷ "parent_id" ∷ [];
  sort = "id" ∷ "created_at" ∷ [];
  writable = some ("post_id" ∷ "parent_id" ∷ "text" ∷ []);
  soft_delete = some "deleted_at";
  owner_field = some "author_id";
  owner_actions = "read" ∷ "update" ∷ "delete" ∷ [];
}

abbrev pub reactions_columns : Dict String ColumnConfig
reactions_columns =
    ("id", record (column "integer") { primary_key = true; nullable = false })
    ∷ (
      "target_type",
      record (column "string") { nullable = false; index = true; max_length = some 24 },
    )
    ∷ ("target_id", record (column "integer") { nullable = false; index = true })
    ∷ ("user_id", record (column "string") { nullable = false; index = true })
    ∷ (
      "reaction",
      record (column "string") { nullable = false; index = true; max_length = some 32 },
    )
    ∷ ("created_at", record (column "datetime") { nullable = false })
    ∷ []

abbrev pub reactions_keywords : Keywords
reactions_keywords = record keywords {
  filters = "target_type" ∷ "target_id" ∷ "user_id" ∷ "reaction" ∷ [];
  writable = some ("target_type" ∷ "target_id" ∷ "reaction" ∷ []);
  owner_field = some "user_id";
  owner_actions = "list" ∷ "read" ∷ "update" ∷ "delete" ∷ [];
}

abbrev pub follows_columns : Dict String ColumnConfig
follows_columns =
    ("id", record (column "integer") { primary_key = true; nullable = false })
    ∷ ("follower_id", record (column "string") { nullable = false; index = true })
    ∷ ("followee_id", record (column "string") { nullable = false; index = true })
    ∷ ("status", record (column "string") { nullable = false; index = true; max_length = some 24 })
    ∷ ("created_at", record (column "datetime") { nullable = false })
    ∷ []

abbrev pub follows_keywords : Keywords
follows_keywords = record keywords {
  filters = "follower_id" ∷ "followee_id" ∷ "status" ∷ [];
  writable = some ("followee_id" ∷ "status" ∷ []);
  owner_field = some "follower_id";
  owner_actions = "list" ∷ "read" ∷ "update" ∷ "delete" ∷ [];
}

abbrev pub notifications_columns : Dict String ColumnConfig
notifications_columns =
    ("id", record (column "integer") { primary_key = true; nullable = false })
    ∷ ("user_id", record (column "string") { nullable = false; index = true })
    ∷ ("kind", record (column "string") { nullable = false; index = true; max_length = some 48 })
    ∷ ("actor_id", record (column "string") { index = true })
    ∷ ("payload", column "json")
    ∷ ("read_at", column "datetime")
    ∷ ("created_at", record (column "datetime") { nullable = false; index = true })
    ∷ []

abbrev pub notifications_keywords : Keywords
notifications_keywords = record keywords {
  filters = "user_id" ∷ "kind" ∷ [];
  sort = "id" ∷ "created_at" ∷ "read_at" ∷ [];
  writable = some ("read_at" ∷ []);
  owner_field = some "user_id";
  owner_actions = "list" ∷ "read" ∷ "update" ∷ "delete" ∷ [];
}

unfoldable pub social_resources : PackConfig → List ResourceConfig
social_resources spec =
    if spec.enabled
    then entry spec "profiles" "social/profiles" profiles_columns profiles_keywords
      ∷ entry spec "posts" "social/posts" posts_columns posts_keywords
      ∷ entry spec "comments" "social/comments" comments_columns comments_keywords
      ∷ entry spec "reactions" "social/reactions" reactions_columns reactions_keywords
      ∷ entry spec "follows" "social/follows" follows_columns follows_keywords
      ∷ entry spec "notifications" "social/notifications" notifications_columns
          notifications_keywords
      ∷ []
    else []
