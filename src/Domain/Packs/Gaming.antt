-- ===== src/Domain/Packs/Gaming.antt =====
-- framework/domain/packs.py: gaming_resources, a definition for the columns and one for the
-- keyword arguments of each resource.
use json_api_forge.Prelude.{String, true, false, some, List, [], ◌∷◌, if◌then◌else◌}
use json_api_forge.Prelude.Dict.{Dict}
use json_api_forge.Domain.Packs.Resource.{
  ColumnConfig, ResourceConfig, PackConfig, Keywords, column, keywords, entry,
}

abbrev pub players_columns : Dict String ColumnConfig
players_columns =
    ("id", record (column "integer") { primary_key = true; nullable = false })
    ∷ ("user_id", record (column "string") { nullable = false; unique = true; index = true })
    ∷ ("display_name", record (column "string") { max_length = some 96 })
    ∷ ("level", record (column "integer") { nullable = false; default = some 1; index = true })
    ∷ ("xp", record (column "integer") { nullable = false; default = some 0 })
    ∷ ("currency", record (column "integer") { nullable = false; default = some 0 })
    ∷ ("stats", column "json")
    ∷ ("created_at", record (column "datetime") { nullable = false })
    ∷ ("updated_at", column "datetime")
    ∷ []

abbrev pub players_keywords : Keywords
players_keywords = record keywords {
  filters = "user_id" ∷ "level" ∷ [];
  sort = "id" ∷ "level" ∷ "xp" ∷ "currency" ∷ [];
  writable = some ("display_name" ∷ []);
  owner_field = some "user_id";
  owner_actions = "list" ∷ "read" ∷ "update" ∷ [];
}

abbrev pub saves_columns : Dict String ColumnConfig
saves_columns =
    ("id", record (column "integer") { primary_key = true; nullable = false })
    ∷ ("player_id", record (column "integer") { nullable = false; index = true })
    ∷ ("slot", record (column "string") { nullable = false; index = true; max_length = some 48 })
    ∷ ("revision", record (column "integer") { nullable = false; default = some 1 })
    ∷ ("data", record (column "json") { nullable = false })
    ∷ ("checksum", record (column "string") { max_length = some 128 })
    ∷ ("updated_at", record (column "datetime") { nullable = false; index = true })
    ∷ []

abbrev pub saves_keywords : Keywords
saves_keywords = record keywords {
  filters = "player_id" ∷ "slot" ∷ [];
  sort = "id" ∷ "updated_at" ∷ "revision" ∷ [];
  allowed_actions = "list" ∷ "read" ∷ [];
}

abbrev pub inventory_columns : Dict String ColumnConfig
inventory_columns =
    ("id", record (column "integer") { primary_key = true; nullable = false })
    ∷ ("player_id", record (column "integer") { nullable = false; index = true })
    ∷ (
      "item_key",
      record (column "string") { nullable = false; index = true; max_length = some 96 },
    )
    ∷ ("quantity", record (column "integer") { nullable = false; default = some 1 })
    ∷ ("properties", column "json")
    ∷ ("updated_at", record (column "datetime") { nullable = false })
    ∷ []

abbrev pub inventory_keywords : Keywords
inventory_keywords = record keywords {
  filters = "player_id" ∷ "item_key" ∷ [];
  sort = "id" ∷ "quantity" ∷ "updated_at" ∷ [];
  allowed_actions = "list" ∷ "read" ∷ [];
}

abbrev pub achievements_columns : Dict String ColumnConfig
achievements_columns =
    ("id", record (column "integer") { primary_key = true; nullable = false })
    ∷ ("player_id", record (column "integer") { nullable = false; index = true })
    ∷ (
      "achievement_key",
      record (column "string") { nullable = false; index = true; max_length = some 96 },
    )
    ∷ ("progress", record (column "float") { nullable = false; default = some 0 })
    ∷ ("unlocked_at", column "datetime")
    ∷ ("metadata", column "json")
    ∷ []

abbrev pub achievements_keywords : Keywords
achievements_keywords = record keywords {
  filters = "player_id" ∷ "achievement_key" ∷ [];
  allowed_actions = "list" ∷ "read" ∷ [];
}

abbrev pub leaderboard_columns : Dict String ColumnConfig
leaderboard_columns =
    ("id", record (column "integer") { primary_key = true; nullable = false })
    ∷ (
      "board_key",
      record (column "string") { nullable = false; index = true; max_length = some 64 },
    )
    ∷ ("player_id", record (column "integer") { nullable = false; index = true })
    ∷ ("score", record (column "float") { nullable = false; index = true })
    ∷ ("season", record (column "string") { index = true; max_length = some 64 })
    ∷ ("updated_at", record (column "datetime") { nullable = false })
    ∷ []

abbrev pub leaderboard_keywords : Keywords
leaderboard_keywords = record keywords {
  filters = "board_key" ∷ "player_id" ∷ "season" ∷ [];
  sort = "score" ∷ "updated_at" ∷ "id" ∷ [];
  allowed_actions = "list" ∷ "read" ∷ [];
}

abbrev pub sessions_columns : Dict String ColumnConfig
sessions_columns =
    ("id", record (column "integer") { primary_key = true; nullable = false })
    ∷ ("player_id", record (column "integer") { nullable = false; index = true })
    ∷ ("server_id", record (column "string") { index = true; max_length = some 96 })
    ∷ ("started_at", record (column "datetime") { nullable = false; index = true })
    ∷ ("ended_at", column "datetime")
    ∷ ("ip_hash", record (column "string") { max_length = some 128 })
    ∷ ("metadata", column "json")
    ∷ []

abbrev pub sessions_keywords : Keywords
sessions_keywords = record keywords {
  filters = "player_id" ∷ "server_id" ∷ [];
  sort = "id" ∷ "started_at" ∷ "ended_at" ∷ [];
  allowed_actions = "list" ∷ "read" ∷ [];
}

unfoldable pub gaming_resources : PackConfig → List ResourceConfig
gaming_resources spec =
    if spec.enabled
    then entry spec "players" "gaming/players" players_columns players_keywords
      ∷ entry spec "saves" "gaming/saves" saves_columns saves_keywords
      ∷ entry spec "inventory" "gaming/inventory" inventory_columns inventory_keywords
      ∷ entry spec "achievements" "gaming/achievements" achievements_columns achievements_keywords
      ∷ entry spec "leaderboard" "gaming/leaderboard" leaderboard_columns leaderboard_keywords
      ∷ entry spec "sessions" "gaming/sessions" sessions_columns sessions_keywords
      ∷ []
    else []
