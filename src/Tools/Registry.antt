-- ===== src/Tools/Registry.antt =====
-- src/tools/services/tool-registry.service.ts: the class `ToolRegistryService`. The category index is a
-- function, since the constructor makes a set for every category and none is ever removed. A `Set` is a
-- map of units. The events that are emitted and the log are left out.
pub mod Index
use talksy.Common.{
  ℕ, ◌+◌, Bool, true, false, not, ◌&&◌, if◌then◌else◌, List, [], ◌∷◌, map, Option, none, some,
  String, str_dec,
}
use talksy.Common.Map
use talksy.Common.Map.{Map}
use talksy.Tools.{ToolCategory, custom, same_category, ToolDefinition, Tool}

abbrev pub category_or : Option ToolCategory → ToolCategory
category_or none = custom
category_or (some c) = c

abbrev pub text_or : Option String → String → String
text_or none d = d
text_or (some s) d = s

abbrev pub number_or : Option ℕ → ℕ → ℕ
number_or none d = d
number_or (some n) d = n

abbrev pub is_true : Option Bool → Bool
is_true none = false
is_true (some b) = b

-- A set of names.
abbrev pub Names : Type 0
Names = Map (Unit {0})

-- The index: for each category, the set of the names.
abbrev pub Categories : Type 0
Categories = ToolCategory → Names

abbrev pub remove_name : ToolCategory → String → Categories → Categories
remove_name c name cats d = if same_category c d then Map.delete name (cats d) else cats d

abbrev pub add_name : ToolCategory → String → Categories → Categories
add_name c name cats d = if same_category c d then Map.set name tt (cats d) else cats d

pub record ToolRegistry (N H : Type 0) : Type 0 where
  pub tools : Map (Tool N H)
  pub categories : Categories

abbrev pub normalized : {N : Type 0} → ToolDefinition N → ToolDefinition N
normalized definition = record definition {
  category = some (category_or definition.category);
  version = some (text_or definition.version "1.0.0");
  timeout = some (number_or definition.timeout 30000);
}

module _ {N H : Type 0} where
  -- `initializeCategories`
  unfoldable pub create : ToolRegistry N H
  create = record { tools = []; categories = λ c. [] }

  abbrev pub is_deprecated : Tool N H → Bool
  is_deprecated tool = is_true tool.definition.deprecated

  -- `categories.get(tool.definition.category)?.delete(name)`, where the tool has a category.
  abbrev pub forget_name : Option (Tool N H) → String → Categories → Categories
  forget_name none name cats = cats
  forget_name (some tool) name cats = elim tool.definition.category [
    | none ↦ cats
    | some c ↦ remove_name c name cats
  ]

  unfoldable pub register_tool :
      ToolDefinition N → H → Bool → ToolRegistry N H → ToolRegistry N H × Bool
  register_tool definition handler override s =
      let known = Map.has definition.name s.tools in
      let tool : Tool N H = record { definition = normalized definition; handler = handler } in
      let cats =
        if override && known
        then forget_name (Map.get definition.name s.tools) definition.name s.categories
        else s.categories in
      if known && not override then (s, false) else (
        record {
          tools = Map.set definition.name tool s.tools;
          categories = add_name (category_or definition.category) definition.name cats;
        },
        true,
      )

  unfoldable pub register_tools :
      List (ToolDefinition N × H) → Bool → ToolRegistry N H → ToolRegistry N H × ℕ
  unfolding register_tool
  register_tools [] override s = (s, 0)
  register_tools ((definition, handler) ∷ rest) override s =
      let (s', registered) = register_tool definition handler override s in
      let (s'', n) = register_tools rest override s' in (s'', (if registered then 1 else 0) + n)

  unfoldable pub unregister_tool : String → ToolRegistry N H → ToolRegistry N H × Bool
  unregister_tool name s = elim (Map.get name s.tools) [
    | none ↦ (s, false)
    | some tool ↦ (
      record {
        tools = Map.delete name s.tools;
        categories = forget_name (some tool) name s.categories;
      },
      true,
    )
  ]

  unfoldable pub get_tool : String → ToolRegistry N H → Option (Tool N H)
  get_tool name s = Map.get name s.tools

  unfoldable pub get_tool_definition : String → ToolRegistry N H → Option (ToolDefinition N)
  get_tool_definition name s = elim (Map.get name s.tools) [
    | none ↦ none
    | some tool ↦ some tool.definition
  ]

  unfoldable pub has_tool : String → ToolRegistry N H → Bool
  has_tool name s = Map.has name s.tools

  -- The loop of `getAllTools`.
  unfoldable pub select_tools : Bool → Map (Tool N H) → List (Tool N H)
  select_tools include_deprecated [] = []
  select_tools include_deprecated ((name, tool) ∷ m) =
      let rest = select_tools include_deprecated m in
      if not include_deprecated && is_deprecated tool then rest else tool ∷ rest

  unfoldable pub get_all_tools : Bool → ToolRegistry N H → List (Tool N H)
  unfolding select_tools
  get_all_tools include_deprecated s = select_tools include_deprecated s.tools

  unfoldable pub get_all_tool_definitions : Bool → ToolRegistry N H → List (ToolDefinition N)
  unfolding get_all_tools
  get_all_tool_definitions include_deprecated s =
      map (λ tool. tool.definition) (get_all_tools include_deprecated s)

  -- The loop of `getToolsByCategory` over the set of names.
  unfoldable pub find_tools : Names → Map (Tool N H) → List (Tool N H)
  find_tools [] tools = []
  find_tools ((name, u) ∷ names) tools =
      let rest = find_tools names tools in
      elim (Map.get name tools) [
        | none ↦ rest
        | some tool ↦ if is_deprecated tool then rest else tool ∷ rest
      ]

  unfoldable pub get_tools_by_category : ToolCategory → ToolRegistry N H → List (Tool N H)
  unfolding find_tools
  get_tools_by_category c s = find_tools (s.categories c) s.tools

  -- The loop of `getToolCount`.
  unfoldable pub count_tools : Map (Tool N H) → ℕ
  count_tools [] = 0
  count_tools ((name, tool) ∷ m) = (if is_deprecated tool then 0 else 1) + count_tools m

  unfoldable pub get_tool_count : Bool → ToolRegistry N H → ℕ
  unfolding count_tools
  get_tool_count include_deprecated s =
      if include_deprecated then Map.size s.tools else count_tools s.tools

  unfoldable pub clear_all_tools : ToolRegistry N H → ToolRegistry N H
  clear_all_tools s = record { tools = []; categories = λ c. [] }
