-- ===== src/Domain/Packs/Expand.antt =====
-- framework/domain/packs.py: expand_feature_packs
use json_api_forge.Prelude.{Bool, List, [], any, ◌&&◌, ◌∷◌, ◌++◌, if◌then◌else◌, ◌==◌, string_eq}
use json_api_forge.Domain.Packs.Resource.{ResourceConfig, PackConfig}
use json_api_forge.Domain.Packs.Messaging.{messaging_resources}
use json_api_forge.Domain.Packs.Social.{social_resources}
use json_api_forge.Domain.Packs.Gaming.{gaming_resources}

-- The parts of ProjectConfig that the packs read and change.
pub record Project : Type 0 where
  pub messaging : PackConfig
  pub social : PackConfig
  pub gaming : PackConfig
  pub resources : List ResourceConfig

-- (resource.database, resource.table) in existing
unfoldable pub is_table_of : ResourceConfig → ResourceConfig → Bool
is_table_of r other = other.database == r.database && other.table == r.table

-- The loop over `generated`; `existing` are the resources that the project had before it.
unfoldable pub add_new :
    List ResourceConfig → List ResourceConfig → List ResourceConfig → List ResourceConfig
unfolding is_table_of
add_new existing [] resources = resources
add_new existing (r ∷ generated) resources =
    add_new existing generated
      (if any (is_table_of r) existing then resources else resources ++ r ∷ [])

unfoldable pub expand_feature_packs : Project → Project
unfolding add_new
expand_feature_packs p =
    let generated =
      messaging_resources p.messaging ++ (social_resources p.social ++ gaming_resources p.gaming) in
    record p { resources = add_new p.resources generated p.resources }
