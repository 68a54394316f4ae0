-- ===== src/Stabs/Scopes.antt =====
-- The parameters, the local variables and the scopes of a function, as GCC emits their stabs: the parameters follow
-- N_FUN, the variables of a scope come before its N_LBRAC, and the scopes in it between N_LBRAC and N_RBRAC. The nodes
-- that belong to them, host/stabslib.py.
pub mod Variables
pub mod Rounds
pub mod Functions
pub mod Units
pub mod Items
pub mod Build
pub mod Inner
use cwdbg.Base.{
  ℕ, suc, ◌+◌, ◌≤◌, ◌≡◌, true, false, ◌&&◌, ◌||◌, ◌==◌, List, [], ◌∷◌, some, Bytes, All,
}
use cwdbg.Stabs.Types.{n_lsym, n_rsym, n_psym, n_lbrac, n_rbrac}
use cwdbg.Stabs.Text.{split_once}
use cwdbg.Stabs.Nodes.{Stab, ProgramNode, Nodes, node, nil, cons, info, extend}
use cwdbg.Stabs.Builder.State.{Item, stab, new_node}
use cwdbg.Stabs.Builder.Branches.{scope_name}

-- A stab, and the two parts of its string.
pub record Variable : Type 0 where
  pub own : Stab
  pub name : Bytes
  pub typeid : Bytes

pub record IsParameter (v : Variable) : Type 0 where
  pub is_parameter : v.own.type ≡ n_psym
  pub is_named : split_once b':' v.own.string ≡ some (v.name, v.typeid)

-- On the stack or in a register; N_LSYM with the value 0 is the definition of a type.
pub record IsLocal (v : Variable) : Type 0 where
  pub is_local : (v.own.type == n_lsym || v.own.type == n_rsym) ≡ true
  pub is_no_type : (v.own.type == n_lsym && v.own.value == 0) ≡ false
  pub is_named : split_once b':' v.own.string ≡ some (v.name, v.typeid)

-- Scopes one behind the other: variables, N_LBRAC, the scopes inside, N_RBRAC, and the scopes that follow.
pub data Scopes : Type 0 where
  no_scopes : Scopes
  scope : List Variable → Stab → Scopes → Stab → Scopes → Scopes

abbrev pub IsScopes : Scopes → Type 0
IsScopes no_scopes = Unit
IsScopes (scope locals lbrac inner rbrac more) =
    All IsLocal locals
    × (lbrac.type ≡ n_lbrac)
    × IsScopes inner
    × (rbrac.type ≡ n_rbrac)
    × IsScopes more

-- The stabs of variables and of scopes, in front of other ones.
abbrev pub variable_stabs : List Variable → List Stab → List Stab
variable_stabs [] rest = rest
variable_stabs (v ∷ vs) rest = v.own ∷ variable_stabs vs rest

abbrev pub scope_stabs : Scopes → List Stab → List Stab
scope_stabs no_scopes rest = rest
scope_stabs (scope locals lbrac inner rbrac more) rest =
    variable_stabs locals (lbrac ∷ scope_stabs inner (rbrac ∷ scope_stabs more rest))

abbrev pub variable_items : List Variable → List Item → List Item
variable_items [] rest = rest
variable_items (v ∷ vs) rest = stab v.own ∷ variable_items vs rest

abbrev pub scope_items : Scopes → List Item → List Item
scope_items no_scopes rest = rest
scope_items (scope locals lbrac inner rbrac more) rest =
    variable_items locals (stab lbrac ∷ scope_items inner (stab rbrac ∷ scope_items more rest))

-- The nodes that they are described by.
abbrev pub variable_node : Variable → ProgramNode
variable_node v = node (new_node v.own.type v.name v.typeid v.own.value 0) nil

abbrev pub variable_nodes : List Variable → Nodes
variable_nodes [] = nil
variable_nodes (v ∷ vs) = cons (variable_node v) (variable_nodes vs)

abbrev pub scope_node : Stab → Stab → Nodes → ProgramNode
scope_node lbrac rbrac nodes =
    node
      (record (new_node n_lbrac (scope_name lbrac.value) [] lbrac.value 0) {
        end_addr = rbrac.value;
      })
      nodes

abbrev pub scope_nodes : Scopes → Nodes
scope_nodes no_scopes = nil
scope_nodes (scope locals lbrac inner rbrac more) =
    cons (scope_node lbrac rbrac (extend (variable_nodes locals) (scope_nodes inner)))
      (scope_nodes more)

-- The functions that wait are not taken for nested ones by a scope of the line `func_lineno`, the scopes in which have
-- the line 0.
abbrev pub Stays : ℕ → Nodes → Type 0
Stays func_lineno nil = Unit
Stays func_lineno (cons first others) = (info first).lineno ≤ func_lineno

abbrev pub StaysBehind : ℕ → Nodes → Scopes → Type 0
StaysBehind func_lineno funcs no_scopes = Unit
StaysBehind func_lineno funcs (scope locals lbrac inner rbrac more) =
    Stays func_lineno funcs × StaysBehind 0 funcs inner × StaysBehind func_lineno funcs more

-- One round of the loop for each variable, and for each scope one more.
abbrev pub variable_rounds : List Variable → ℕ → ℕ
variable_rounds [] fuel = fuel
variable_rounds (v ∷ vs) fuel = suc (variable_rounds vs fuel)

abbrev pub scope_rounds : Scopes → ℕ → ℕ
scope_rounds no_scopes fuel = fuel
scope_rounds (scope locals lbrac inner rbrac more) fuel =
    variable_rounds locals (suc (scope_rounds more fuel))

-- What the calls for the scopes need on top.
abbrev pub call_rounds : Scopes → ℕ
call_rounds no_scopes = 0
call_rounds (scope locals lbrac inner rbrac more) =
    2 + scope_rounds inner 0 + call_rounds inner + call_rounds more
