-- ===== src/Stabs/Builder/State.antt =====
-- The state of `ProgramTreeBuilder`, host/stabslib.py, the local variables of `_build_subtree`, and the
-- operations on its stacks. The list `_stabs` is reversed by the source so that `pop` takes the next
-- stab; here its next item stands first.
use cwdbg.Base.{
  ℕ, List, [], ◌∷◌, Option, none, some, Bytes, Dict, nat_key, text_key, ok, Exec, pure, throw,
  value_error,
}
use cwdbg.Stabs.Text.{split_once}
use cwdbg.Stabs.Nodes.{Stab, NodeInfo, ProgramNode, Nodes, node, nil, extend, append}
use cwdbg.Stabs.Builder.Lines.{LineTable}

-- What stands on `_stabs`. At the end of a compilation unit the source puts a pair of a stab and its
-- string there, in place of the stab.
pub data Item : Type 0 where
  stab : Stab → Item
  pair : Stab → Bytes → Item

pub record Builder : Type 0 where
  pub stabs : List Item
  pub nodes_stack : Nodes
  pub func_nodes_stack : Nodes
  pub lines : Dict Bytes LineTable

-- A node in the making.
pub record Draft : Type 0 where
  pub own : NodeInfo
  pub below : Nodes

-- The local variables of `_build_subtree` beside `node`, its parameters among them.
pub record Locals : Type 0 where
  pub srcdir : Bytes
  pub current_comp_unit : Option Bytes
  pub current_func_lineno : Option ℕ
  pub prev_lineno : Option ℕ

abbrev pub new_locals : Option Bytes → Option ℕ → Option ℕ → Locals
new_locals comp_unit func_lineno prev_lineno = record {
  srcdir = [];
  current_comp_unit = comp_unit;
  current_func_lineno = func_lineno;
  prev_lineno = prev_lineno;
}

-- `ProgramNode(type, name, typeid=…, start_addr=…)`
abbrev pub new_node : ℕ → Bytes → Bytes → ℕ → ℕ → NodeInfo
new_node type name typeid start_addr lineno = record {
  type = type;
  name = name;
  typeid = typeid;
  start_addr = start_addr;
  end_addr = 0;
  lineno = lineno;
}

abbrev pub finished : Draft → ProgramNode
finished d = node d.own d.below

abbrev pub end_at : Draft → ℕ → Draft
end_at d addr = record d { own = record d.own { end_addr = addr } }

abbrev pub with_children : Draft → Nodes → Draft
with_children d more = record d { below = extend d.below more }

unfoldable pub push_stab : Item → Builder → Builder
push_stab item b = record b { stabs = item ∷ b.stabs }

unfoldable pub push_node : ProgramNode → Builder → Builder
push_node n b = record b { nodes_stack = append b.nodes_stack n }

unfoldable pub push_func_node : ProgramNode → Builder → Builder
push_func_node n b = record b { func_nodes_stack = append b.func_nodes_stack n }

-- The nodes on a stack, which is cleared.
unfoldable pub take_nodes : Exec Builder Nodes
take_nodes b = (ok b.nodes_stack, record b { nodes_stack = nil })

unfoldable pub take_func_nodes : Exec Builder Nodes
take_func_nodes b = (ok b.func_nodes_stack, record b { func_nodes_stack = nil })

unfoldable pub of_option : {A : Type 0} → Option A → Exec Builder A
of_option none = throw value_error
of_option (some a) = pure a

-- `symbol, typeid = stab.string.split(':', 1)`
unfoldable pub split_symbol : Stab → Exec Builder (Bytes × Bytes)
unfolding of_option split_once
split_symbol s = of_option (split_once b':' s.string)
