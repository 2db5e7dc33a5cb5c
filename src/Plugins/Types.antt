-- ===== src/Plugins/Types.antt =====
-- models.py: what a plugin's manifest declares. A scalar is the JSON value that it was given as, and
-- a visibility condition the members of its JSON object.
use angelus.Prelude.{Bool, Option, List, String, Result}
use angelus.Settings.Json.{Json, Members}

-- `ManifestError`, and the exceptions that `load_manifest` lets pass: the `TypeError` of an array or
-- an object that is looked for in a set, and the `UnicodeDecodeError` of a file that is not UTF-8.
pub data PluginError : Type 0 where
  manifest_error type_error unicode_error : PluginError

abbrev pub Decoded : Type 0 → Type 0
Decoded A = Result PluginError A

pub data PluginKind : Type 0 where
  tool ui theme_pack : PluginKind

pub data ValueType : Type 0 where
  string integer number boolean : ValueType

pub data ValueFormat : Type 0 where
  uri path textarea password : ValueFormat

pub data ThemeMode : Type 0 where
  dark light : ThemeMode

pub record PluginPermission : Type 0 where
  pub action : String
  pub scope : String

pub record PluginSettingField : Type 0 where
  pub key : String
  pub value_type : ValueType
  pub title : String
  pub description : String
  pub required : Bool
  pub default : Option Json
  pub choices : List Json
  pub minimum : Option Json
  pub maximum : Option Json
  pub value_format : Option ValueFormat
  pub placeholder : String

pub record PluginPanelField : Type 0 where
  pub key : String
  pub value_type : ValueType
  pub title : String
  pub description : String
  pub required : Bool
  pub default : Option Json
  pub choices : List Json
  pub minimum : Option Json
  pub maximum : Option Json
  pub value_format : Option ValueFormat
  pub placeholder : String
  pub sensitive : Bool
  pub visible_if : Option Members

pub record PluginTheme : Type 0 where
  pub id : String
  pub title : String
  pub asset : String
  pub mode : ThemeMode

pub record PluginPanel : Type 0 where
  pub id : String
  pub title : String
  pub description : String
  pub action : String
  pub submit_label : String
  pub fields : List PluginPanelField

pub record PluginManifest : Type 0 where
  pub name : String
  pub display_name : String
  pub version : String
  pub api_version : String
  pub kind : PluginKind
  pub entry : Option String
  pub description : String
  pub permissions : List PluginPermission
  pub assets : List String
  pub settings_enabled : Bool
  pub settings_schema : List PluginSettingField
  pub themes : List PluginTheme
  pub panels : List PluginPanel
