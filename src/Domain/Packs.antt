-- ===== src/Domain/Packs.antt =====
-- framework/domain/packs.py with the types of framework/config.py that it fills: the resources that
-- the feature packs generate, one child for each pack, and `expand_feature_packs`.
mod Resource
mod Messaging
mod Social
mod Gaming
mod Expand
pub use Resource.{ColumnConfig, ResourceConfig, PackConfig, Keywords, column, keywords}
unfoldable pub use Resource.{resource, with_tenant, with_column, entry}
unfoldable pub use Messaging.{messaging_resources}
pub use Messaging.{conversations_columns, conversations_keywords}
unfoldable pub use Social.{social_resources}
unfoldable pub use Gaming.{gaming_resources}
pub use Expand.{Project}
unfoldable pub use Expand.{is_table_of, add_new, expand_feature_packs}
