-- ===== src/Tools/Types.antt =====
-- tool_models.py: the records of the tool registry.
use angelus.Prelude.{ℕ, List, String, Bool}

pub record ToolCategory : Type 0 where
  pub id : String
  pub title : String
  pub description : String

pub record ToolDefinition : Type 0 where
  pub id : String
  pub category_id : String
  pub title : String
  pub description : String
  pub provider_id : String
  pub roles : List String

pub record ToolAvailability : Type 0 where
  pub tool_id : String
  pub available : Bool
  pub reason : String

pub record ToolCatalogCategory : Type 0 where
  pub id : String
  pub title : String
  pub description : String
  pub tools : List ToolDefinition

pub record ToolCatalog : Type 0 where
  pub categories : List ToolCatalogCategory
  pub revision : ℕ
