-- ===== src/Tools.antt =====
-- src/tools/interfaces/tool.interface.ts: what the registry and the executor of tools share. A number is
-- of a type `N`, which stands for the language's floating-point numbers, and a handler of a type `H`.
pub mod Registry
pub mod Executor
mod Tests
use talksy.Common.{ℕ, Bool, ◌==◌, List, Option, String}
use talksy.Common.Map.{Map}

pub data ToolCategory : Type 0 where
  utility data_tools communication system_tools custom : ToolCategory

abbrev pub index : ToolCategory → ℕ
index utility = 0
index data_tools = 1
index communication = 2
index system_tools = 3
index custom = 4

abbrev pub same_category : ToolCategory → ToolCategory → Bool
same_category c d = index c == index d

mutual
  -- A value that JSON can write.
  pub data Value (N : Type 0) : Type 0 where
    null : Value N
    boolean : Bool → Value N
    number : N → Value N
    text : String → Value N
    array : Values N → Value N
    object : Values N → Value N

  pub data Values (N : Type 0) : Type 0 where
    none_left : Values N
    entry : String → Value N → Values N → Values N

-- The types that a schema can name.
pub data JsonType : Type 0 where
  string_type number_type boolean_type object_type array_type : JsonType

-- What the executor reads of a `ToolParameterSchema`.
pub record ToolParameterSchema (N : Type 0) : Type 0 where
  pub value_type : Option JsonType
  pub allowed : Option (List (Value N))

pub record ToolParameters (N : Type 0) : Type 0 where
  pub properties : Map (ToolParameterSchema N)
  pub required : Option (List String)

pub record ToolDefinition (N : Type 0) : Type 0 where
  pub name : String
  pub description : String
  pub parameters : ToolParameters N
  pub category : Option ToolCategory
  pub version : Option String
  pub deprecated : Option Bool
  pub timeout : Option ℕ

pub record Tool (N H : Type 0) : Type 0 where
  pub definition : ToolDefinition N
  pub handler : H
