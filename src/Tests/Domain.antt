-- ===== src/Tests/Domain.antt =====
-- framework/domain/packs.py: a project with the messaging pack.
use json_api_forge.Prelude.{true, false, none, some, [], In, here, ◌⊎◌}
use json_api_forge.Domain.Packs.{
  conversations_columns, conversations_keywords, PackConfig, ResourceConfig, Project, entry,
  messaging_resources, social_resources, gaming_resources, add_new, expand_feature_packs,
}
use json_api_forge.Domain.Contract.{IsSound, expand_feature_packs-IsSound}

abbrev off : PackConfig
off = record { enabled = false; table_prefix = "off"; database = "main"; tenant_field = none }

abbrev chat : PackConfig
chat = record {
  enabled = true;
  table_prefix = "msg";
  database = "main";
  tenant_field = some "tenant_id";
}

abbrev project : Project
project = record { messaging = chat; social = off; gaming = off; resources = [] }

abbrev conversations : ResourceConfig
conversations =
    entry chat "conversations" "messaging/conversations" conversations_columns
      conversations_keywords

expand_feature_packs-IsSound_example : In conversations [] ⊎ IsSound conversations
unfolding expand_feature_packs messaging_resources social_resources gaming_resources add_new
expand_feature_packs-IsSound_example = expand_feature_packs-IsSound project conversations here
