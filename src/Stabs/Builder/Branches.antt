-- ===== src/Stabs/Builder/Branches.antt =====
-- The branches of `_build_subtree` in host/stabslib.py, one for each group of types of stabs.
use cwdbg.Base.{
  ℕ, [], ◌∷◌, ◌++◌, Option, none, some, Bytes, ◌==◌, ltb, if◌then◌else◌, lookup, insert, nat_key,
  text_key, Outcome, ok, raise, no_return, Exec, pure, throw, modify, ◌>>=◌, ◌>>◌, value_error,
  attribute_error, assertion_error, key_error,
}
use cwdbg.Stabs.Types.{n_fun, n_sline, n_so, n_lbrac, is_stab_type}
use cwdbg.Stabs.Text.{ends_with, hex8}
use cwdbg.Stabs.Nodes.{Stab, ProgramNode, Nodes, node, nil, cons, info, extend}
use cwdbg.Stabs.Builder.Lines.{LineTable, record_line}
use cwdbg.Stabs.Builder.State.{
  stab, pair, Builder, Draft, Locals, new_locals, new_node, finished, end_at, with_children,
  push_stab, push_node, push_func_node, take_nodes, take_func_nodes, split_symbol,
}

-- A round of the loop goes on by `again` with its own variables, or calls it with new ones. The first
-- argument is `node`.
abbrev pub Call : Type 0
Call = Option Draft → Locals → Exec Builder ProgramNode

unfoldable pub on_so : Call → Option Draft → Locals → Stab → Exec Builder ProgramNode
unfolding ends_with push_stab take_func_nodes insert
on_so again none f s =
    if ends_with b'/' s.string then again none (record f { srcdir = s.string }) else (do
      let name = f.srcdir ++ s.string
      modify (λ (b : Builder). record b { lines = insert name [] b.lines })
      again (some (record { own = new_node n_so name [] s.value 0; below = nil }))
          (record f { current_comp_unit = some name }))
on_so again (some d) f s = do
  modify (push_stab (pair s s.string))
  functions ← take_func_nodes
  pure (finished (with_children (end_at d s.value) functions))

-- Global and file-scoped variables, and the parameters of functions.
unfoldable pub add_symbol :
    Call → Option Draft → Locals → Stab → Bytes × Bytes → Exec Builder ProgramNode
add_symbol again none f s _ = throw assertion_error
add_symbol again (some d) f s (symbol, typeid) =
    again (some (with_children d (cons (node (new_node s.type symbol typeid s.value 0) nil) nil))) f

unfoldable pub on_symbol : Call → Option Draft → Locals → Stab → Exec Builder ProgramNode
unfolding split_symbol add_symbol
on_symbol again d f s = split_symbol s >>= add_symbol again d f s

unfoldable pub on_local : Call → Option Draft → Locals → Stab → Exec Builder ProgramNode
unfolding split_symbol push_node
on_local again d f s = do
  (symbol, typeid) ← split_symbol s
  modify (push_node (node (new_node s.type symbol typeid s.value 0) nil))
  again d f

-- What becomes of the child that was built for a function.
unfoldable pub add_function : Call → Draft → Locals → ProgramNode → Exec Builder ProgramNode
unfolding push_func_node
add_function again d f child =
    if (info child).type == n_fun
    then (do modify (push_func_node child); again (some d) f)
    else throw assertion_error

-- A function ends where the next one begins; in a compilation unit the next one is built by a call.
unfoldable pub leave_or_call : Call → Draft → Locals → Stab → Exec Builder ProgramNode
unfolding add_function
leave_or_call again d f s =
    if d.own.type == n_fun
    then pure (finished (end_at d s.value))
    else if d.own.type == n_so
    then (again none (new_locals (some d.own.name) none f.prev_lineno) >>= add_function again d f)
    else throw assertion_error

unfoldable pub on_fun : Call → Option Draft → Locals → Stab → Exec Builder ProgramNode
unfolding split_symbol push_stab take_nodes leave_or_call
on_fun again none f s = do
  (symbol, typeid) ← split_symbol s
  nodes ← take_nodes
  again (some (record { own = new_node n_fun symbol [] s.value s.desc; below = nodes })) f
on_fun again (some d) f s = do modify (push_stab (stab s)); leave_or_call again d f s

unfoldable pub store_recorded :
    Bytes → Outcome (LineTable × Option ℕ) → Builder → Outcome (Option ℕ) × Builder
unfolding insert
store_recorded unit (ok p) b = (ok p.1, record b { lines = insert unit p.0 b.lines })
store_recorded unit (raise e) b = (raise e, b)
store_recorded unit no_return b = (no_return, b)

unfoldable pub store_in :
    Locals → Stab → Bytes → Option LineTable → Builder → Outcome (Option ℕ) × Builder
unfolding record_line store_recorded
store_in f s unit none b = (raise key_error, b)
store_in f s unit (some table) b =
    store_recorded unit (record_line f.prev_lineno s.desc s.value table) b

-- The table of the current compilation unit, with one more pair of a line number and an address.
unfoldable pub store_line : Locals → Stab → Option Bytes → Builder → Outcome (Option ℕ) × Builder
unfolding store_in lookup
store_line f s none b = (raise assertion_error, b)
store_line f s (some unit) b = store_in f s unit (lookup unit b.lines) b

unfoldable pub on_sline : Call → Option Draft → Locals → Stab → Exec Builder ProgramNode
unfolding push_node store_line
on_sline again d f s = do
  modify (push_node (node (new_node n_sline [] [] s.value s.desc) nil))
  prev_lineno ← store_line f s f.current_comp_unit
  again d (record f { prev_lineno = prev_lineno })

-- `SCOPE@0x…`
unfoldable pub scope_name : ℕ → Bytes
unfolding hex8
scope_name addr = b'S' ∷ b'C' ∷ b'O' ∷ b'P' ∷ b'E' ∷ b'@' ∷ b'0' ∷ b'x' ∷ hex8 addr

-- A function on the stack that begins behind the current one is nested in the scope.
unfoldable pub nested_functions : ℕ → Exec Builder Nodes
unfolding take_func_nodes
nested_functions func_lineno b = elim b.func_nodes_stack [
  | nil ↦ (ok nil, b)
  | cons first _ ↦ if ltb func_lineno (info first).lineno then take_func_nodes b else (ok nil, b)
]

unfoldable pub add_scope : Call → Draft → Locals → ProgramNode → Exec Builder ProgramNode
add_scope again d f child =
    if (info child).type == n_lbrac
    then again (some (with_children d (cons child nil))) f
    else throw assertion_error

-- The scope that begins, in the function that begins in this line.
unfoldable pub new_scope : Call → Locals → Stab → Nodes → Option ℕ → Exec Builder ProgramNode
unfolding scope_name nested_functions
new_scope again f s nodes none = throw assertion_error
new_scope again f s nodes (some func_lineno) = do
  functions ← nested_functions func_lineno
  again
      (some (record {
        own = new_node n_lbrac (scope_name s.value) [] s.value 0;
        below = extend nodes functions;
      }))
      f

unfoldable pub on_lbrac : Call → Option Draft → Locals → Stab → Exec Builder ProgramNode
unfolding push_stab take_nodes new_scope add_scope
on_lbrac again none f s = do nodes ← take_nodes; new_scope again f s nodes f.current_func_lineno
on_lbrac again (some d) f s = do
  modify (push_stab (stab s))
  child ← again none (new_locals none (some d.own.lineno) none)
  add_scope again d f child

unfoldable pub on_rbrac : Option Draft → Stab → Exec Builder ProgramNode
on_rbrac none s = throw attribute_error
on_rbrac (some d) s = pure (finished (end_at d s.value))

-- The message of the exception looks up the name of the type.
unfoldable pub on_other : Stab → Exec Builder ProgramNode
unfolding is_stab_type
on_other s = if is_stab_type s.type then throw assertion_error else throw value_error
