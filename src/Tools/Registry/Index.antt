-- ===== src/Tools/Registry/Index.antt =====
-- Code: src/tools/services/tool-registry.service.ts. The category index against the tools.
use talksy.Common.{
  ◌≡◌, refl, ◌∙◌, Bool, false, List, [], ◌∷◌, Option, none, some, arith, String, str_dec, ite,
  if_pos, if_neg, Bool-cases, inl, inr,
}
use talksy.Common.Map
use talksy.Common.Map.{Map}
use talksy.Tools.{ToolCategory, same_category, ToolDefinition, Tool}
use talksy.Tools.Registry.{
  ToolRegistry, Categories, category_or, create, register_tool, register_tools, unregister_tool,
  clear_all_tools, add_name, forget_name, normalized,
}

-- The tool under a name, if there is one, has the category.
abbrev pub is_in : {N H : Type 0} → ToolCategory → Option (Tool N H) → Bool
is_in c none = false
is_in c (some tool) = elim tool.definition.category [ none ↦ false | some d ↦ same_category d c ]

-- A name is in the set of a category exactly if the tool of that name has the category.
abbrev pub IsIndexed : {N H : Type 0} → ToolRegistry N H → Type 0
IsIndexed s =
    (name : String) (c : ToolCategory)
    → Map.has name (s.categories c) ≡ is_in c (Map.get name s.tools)

module _ {N H : Type 0} where
  -- The index without one name.
  abbrev Forgot : ToolRegistry N H → String → Categories → Type 0
  Forgot s k cats =
      (name : String) (c : ToolCategory)
      → Map.has name (cats c) ≡ ite (str_dec k name) false (is_in c (Map.get name s.tools))

  forget_name-Forgot :
      (s : ToolRegistry N H) (k : String)
      → IsIndexed s
      → Forgot s k (forget_name (Map.get k s.tools) k s.categories)
  forget_name-Forgot s k h name c =
      ground (arith, h name c, h k c, Map.get-delete name k (s.categories c))

  unknown-Forgot :
      (s : ToolRegistry N H) (k : String)
      → IsIndexed s
      → Map.has k s.tools ≡ false
      → Forgot s k s.categories
  unknown-Forgot s k h gone name c = ground (arith, h name c, h k c)

  add_name-has :
      (s : ToolRegistry N H) (k name : String) (d c : ToolCategory) (cats : Categories)
      → Forgot s k cats
      → Map.has name (add_name d k cats c)
        ≡ ite (str_dec k name) (same_category d c) (is_in c (Map.get name s.tools))
  add_name-has s k name d c cats f = ground (arith, f name c, Map.get-set name k tt (cats c))

  put-IsIndexed :
      (s : ToolRegistry N H) (definition : ToolDefinition N) (handler : H) (cats : Categories)
      → Forgot s definition.name cats
      → let tool : Tool N H = record { definition = normalized definition; handler = handler } in
        IsIndexed (record {
          tools = Map.set definition.name tool s.tools;
          categories = add_name (category_or definition.category) definition.name cats;
        })
  put-IsIndexed s definition handler cats f name c =
      let tool : Tool N H = record { definition = normalized definition; handler = handler } in
      let d = category_or definition.category in
      rw (Map.get-set name definition.name tool s.tools) (
        add_name-has s definition.name name d c cats f ∙ elim (str_dec definition.name name) [
          | yes p ↦ rw (if_pos _ p, if_pos _ p)
          | no p ↦ rw (if_neg _ p, if_neg _ p)
        ])

  register_tool-IsIndexed :
      (s : ToolRegistry N H) (definition : ToolDefinition N) (handler : H) (override : Bool)
      → IsIndexed s
      → IsIndexed (register_tool definition handler override s).0
  unfolding register_tool
  register_tool-IsIndexed s definition handler override h =
      elim (Bool-cases (Map.has definition.name s.tools)) [
        | inl known ↦ elim (Bool-cases override) [
          | inl over ↦
              rw (known, over, register_tool)
                (put-IsIndexed s definition handler _ (forget_name-Forgot s definition.name h))
          | inr kept ↦ rw (known, kept, register_tool) h
        ]
        | inr new ↦
            let put =
              put-IsIndexed s definition handler s.categories
                (unknown-Forgot s definition.name h new) in
            elim (Bool-cases override) [
              | inl over ↦ rw (new, over, register_tool) put
              | inr kept ↦ rw (new, kept, register_tool) put
            ]
      ]

  unregister_tool-IsIndexed :
      (s : ToolRegistry N H) (tool_name : String)
      → IsIndexed s
      → IsIndexed (unregister_tool tool_name s).0
  unfolding unregister_tool
  unregister_tool-IsIndexed s tool_name h name c = ground (
    arith,
    h name c,
    h tool_name c,
    Map.get-delete name tool_name s.tools,
    Map.get-delete name tool_name (s.categories c),
  )

  register_tools-IsIndexed :
      (s : ToolRegistry N H) (tools : List (ToolDefinition N × H)) (override : Bool)
      → IsIndexed s
      → IsIndexed (register_tools tools override s).0
  unfolding register_tools
  register_tools-IsIndexed s [] override h = h
  register_tools-IsIndexed s ((definition, handler) ∷ rest) override h =
      register_tools-IsIndexed (register_tool definition handler override s).0 rest override
        (register_tool-IsIndexed s definition handler override h)

-- The calls that change a registry.
pub data Op (N H : Type 0) : Type 0 where
  register : ToolDefinition N → H → (override : Bool) → Op N H
  register_many : List (ToolDefinition N × H) → (override : Bool) → Op N H
  unregister : String → Op N H
  clear_all : Op N H

module _ {N H : Type 0} where
  unfoldable pub apply : Op N H → ToolRegistry N H → ToolRegistry N H
  apply (register definition handler override) s = (register_tool definition handler override s).0
  apply (register_many tools override) s = (register_tools tools override s).0
  apply (unregister name) s = (unregister_tool name s).0
  apply clear_all s = clear_all_tools s

  unfoldable pub apply_all : List (Op N H) → ToolRegistry N H → ToolRegistry N H
  unfolding apply
  apply_all [] s = s
  apply_all (op ∷ ops) s = apply_all ops (apply op s)

  clear_all_tools-IsIndexed : (s : ToolRegistry N H) → IsIndexed (clear_all_tools s)
  unfolding clear_all_tools Map.get
  clear_all_tools-IsIndexed s name c = refl

  apply-IsIndexed : (op : Op N H) (s : ToolRegistry N H) → IsIndexed s → IsIndexed (apply op s)
  unfolding apply
  apply-IsIndexed (register definition handler override) s h =
      register_tool-IsIndexed s definition handler override h
  apply-IsIndexed (register_many tools override) s h = register_tools-IsIndexed s tools override h
  apply-IsIndexed (unregister name) s h = unregister_tool-IsIndexed s name h
  apply-IsIndexed clear_all s h = clear_all_tools-IsIndexed s

  apply_from-IsIndexed :
      (ops : List (Op N H)) (s : ToolRegistry N H) → IsIndexed s → IsIndexed (apply_all ops s)
  unfolding apply_all
  apply_from-IsIndexed [] s h = h
  apply_from-IsIndexed (op ∷ ops) s h =
      apply_from-IsIndexed ops (apply op s) (apply-IsIndexed op s h)

  -- After any registrations, also ones that replace a tool by one of another category, removals and
  -- clearances, a name is in the set of a category if and only if the registry has a tool of that name
  -- and it has that category.
  pub apply_all-IsIndexed : (ops : List (Op N H)) → IsIndexed (apply_all ops create)
  unfolding create Map.get
  apply_all-IsIndexed ops = apply_from-IsIndexed ops create (λ name c. refl)
