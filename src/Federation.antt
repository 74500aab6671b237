-- ===== src/Federation.antt =====
-- The catalogues of `Federation` in crates/gaugemesh-core/src/federation.rs.
pub mod Merging
mod Tests
use gaugemesh.Base.{
  String, Bool, not, ◌||◌, Option, none, some, List, [], ◌∷◌, any, Result, ok, err, ◌>>=◌, ◌>>◌,
  reject_if, ok_or, ◌==◌, string_eq, get, insert,
}
use gaugemesh.Digest.{Json}
use gaugemesh.Capability.{CapabilityId}
use gaugemesh.Context.{SideEffectClass}
use gaugemesh.Task.Shape.{is_some}

pub record FederatedTool : Type 0 where
  pub identity : CapabilityId
  pub native_name : String
  pub alias : String
  pub description : String
  pub input_schema : Json
  pub side_effect : SideEffectClass
  pub fixture_result : Json

pub record FederatedResource : Type 0 where
  pub identity : CapabilityId
  pub virtual_uri : String
  pub native_uri : String
  pub name : String
  pub mime_type : String
  pub contents : String

pub record FederatedPrompt : Type 0 where
  pub identity : CapabilityId
  pub native_name : String
  pub alias : String
  pub description : String
  pub arguments : List String
  pub template : String

pub record FederatedResourceTemplate : Type 0 where
  pub identity : CapabilityId
  pub virtual_uri_template : String
  pub virtual_prefix : String
  pub native_uri_template : String
  pub name : String
  pub description : String
  pub mime_type : Option String
  pub variables : List String

pub record Federation : Type 0 where
  pub tools : List (String × FederatedTool)
  pub resources : List (String × FederatedResource)
  pub prompts : List (String × FederatedPrompt)
  pub templates : List (String × FederatedResourceTemplate)

pub data FederationError : Type 0 where
  not_found alias_collision cursor_invalid cursor_too_large : FederationError

-- `other.keys().any(|key| mine.contains_key(key))`
abbrev pub shares_key : {V : Type 0} → List (String × V) → List (String × V) → Bool
shares_key mine other = any (λ x. is_some (get mine x.0)) other

abbrev pub extend : {V : Type 0} → List (String × V) → List (String × V) → List (String × V)
extend mine [] = mine
extend mine ((key, value) ∷ rest) = extend (insert mine key value) rest

unfoldable pub merge : Federation → Federation → Result FederationError Federation
merge mine other = do
  reject_if
      (shares_key mine.tools other.tools
        || shares_key mine.resources other.resources
        || shares_key mine.prompts other.prompts
        || shares_key mine.templates other.templates)
      alias_collision
  ok record {
    tools = extend mine.tools other.tools;
    resources = extend mine.resources other.resources;
    prompts = extend mine.prompts other.prompts;
    templates = extend mine.templates other.templates;
  }

unfoldable pub insert_tool : Federation → FederatedTool → Result FederationError Federation
insert_tool f tool = do
  reject_if (is_some (get f.tools tool.alias)) alias_collision
  ok record f { tools = insert f.tools tool.alias tool }

unfoldable pub insert_resource : Federation → FederatedResource → Result FederationError Federation
insert_resource f resource = do
  reject_if (is_some (get f.resources resource.virtual_uri)) alias_collision
  ok record f { resources = insert f.resources resource.virtual_uri resource }

unfoldable pub insert_prompt : Federation → FederatedPrompt → Result FederationError Federation
insert_prompt f prompt = do
  reject_if (is_some (get f.prompts prompt.alias)) alias_collision
  ok record f { prompts = insert f.prompts prompt.alias prompt }

unfoldable pub insert_template :
    Federation → FederatedResourceTemplate → Result FederationError Federation
insert_template f template = do
  reject_if (is_some (get f.templates template.virtual_uri_template)) alias_collision
  ok record f { templates = insert f.templates template.virtual_uri_template template }

unfoldable pub find_tool : Federation → String → Result FederationError FederatedTool
find_tool f alias = ok_or (get f.tools alias) not_found

unfoldable pub find_resource : Federation → String → Result FederationError FederatedResource
find_resource f uri = ok_or (get f.resources uri) not_found

unfoldable pub find_prompt : Federation → String → Result FederationError FederatedPrompt
find_prompt f alias = ok_or (get f.prompts alias) not_found
