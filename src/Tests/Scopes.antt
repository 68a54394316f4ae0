-- ===== src/Tests/Scopes.antt =====
-- Functions with parameters and scopes, host/stabslib.py.
use cwdbg.Base.{◌≡◌, refl, List, [], ◌∷◌, some, Bytes, arith, lookup, insert, nat_key, text_key, ok}
use cwdbg.Stabs.Types.{n_undf, n_fun, n_sline, n_lsym, n_rsym, n_psym, n_lbrac, n_rbrac}
use cwdbg.Stabs.Text.{split_once, ends_with}
use cwdbg.Stabs.Nodes.{Stab, node, nil, cons}
use cwdbg.Stabs.Builder.{build}
use cwdbg.Stabs.Builder.Lines.{
  LineTable, close_at, close_previous, enter_line, after_close, record_line,
}
use cwdbg.Stabs.Builder.State.{new_node}
use cwdbg.Stabs.Rising.{record_lines}
use cwdbg.Stabs.OneFunction.{reading_with, unit_draft}
use cwdbg.Stabs.Functions.{Function, IsFunction}
use cwdbg.Stabs.Scopes.{Variable, IsParameter, IsLocal, no_scopes, scope}
use cwdbg.Stabs.Scopes.Functions.{WholeFunction, IsWholeFunction}
use cwdbg.Stabs.Scopes.Build.{whole_unit, whole_unit_node, build-whole_functions}
use cwdbg.Stabs.Scopes.Inner.{Outer, outer_scopes, second_node, build-inner_scope}
use cwdbg.Tests.Program.{entry, so}

abbrev x : Variable
x = record {
  own = entry n_lsym (b'x' ∷ b':' ∷ b'1' ∷ []) 0 4;
  name = b'x' ∷ [];
  typeid = b'1' ∷ [];
}

abbrev y : Variable
y = record {
  own = entry n_rsym (b'y' ∷ b':' ∷ b'1' ∷ []) 0 2;
  name = b'y' ∷ [];
  typeid = b'1' ∷ [];
}

abbrev n : Variable
n = record {
  own = entry n_psym (b'n' ∷ b':' ∷ b'1' ∷ []) 0 8;
  name = b'n' ∷ [];
  typeid = b'1' ∷ [];
}

x-IsLocal : IsLocal x
unfolding split_once
x-IsLocal = record { is_local = refl; is_no_type = refl; is_named = refl }

y-IsLocal : IsLocal y
unfolding split_once
y-IsLocal = record { is_local = refl; is_no_type = refl; is_named = refl }

n-IsParameter : IsParameter n
unfolding split_once
n-IsParameter = record { is_parameter = refl; is_named = refl }

-- `{ int x; { register int y; } }`
abbrev both : Outer
both = record {
  locals = x ∷ [];
  lbrac = entry n_lbrac [] 0 12;
  rbrac = entry n_rbrac [] 0 40;
  inner_locals = y ∷ [];
  inner_lbrac = entry n_lbrac [] 0 20;
  inner_rbrac = entry n_rbrac [] 0 30;
  inside = no_scopes;
  beside = no_scopes;
  behind = no_scopes;
}

abbrev named : Bytes → Stab → List Stab → Function
named name fn behind = record { fn = fn; name = name; behind = behind }

-- `f` begins in the line 3, `g` in the line 7.
abbrev f_stab : Stab
f_stab = entry n_fun (b'f' ∷ b':' ∷ b'F' ∷ []) 3 0

abbrev g_stab : Stab
g_stab = entry n_fun (b'g' ∷ b':' ∷ b'F' ∷ []) 7 12

abbrev first_line : Stab
first_line = entry n_sline [] 3 0

abbrev second_line : Stab
second_line = entry n_sline [] 7 12

-- The scopes in the first function, and in the second one.
abbrev f_nested : WholeFunction
f_nested = record {
  function = named (b'f' ∷ []) f_stab (second_line ∷ []);
  parameters = n ∷ [];
  scopes = outer_scopes both;
}

abbrev g_plain : WholeFunction
g_plain = record {
  function = named (b'g' ∷ []) g_stab [];
  parameters = [];
  scopes = scope [] (entry n_lbrac [] 0 12) no_scopes (entry n_rbrac [] 0 40) no_scopes;
}

abbrev f_plain : WholeFunction
f_plain = record f_nested { parameters = []; scopes = no_scopes }

abbrev g_nested : WholeFunction
g_nested = record g_plain { parameters = n ∷ []; scopes = outer_scopes both }

f-IsFunction : IsFunction (named (b'f' ∷ []) f_stab (second_line ∷ []))
unfolding split_once
f-IsFunction = record { is_fun = refl; typeid = b'F' ∷ []; is_named = refl; are_lines = (refl, tt) }

g-IsFunction : IsFunction (named (b'g' ∷ []) g_stab [])
unfolding split_once
g-IsFunction = record { is_fun = refl; typeid = b'F' ∷ []; is_named = refl; are_lines = tt }

f_nested-IsWholeFunction : IsWholeFunction f_nested
f_nested-IsWholeFunction = record {
  is_function = f-IsFunction;
  are_parameters = (n-IsParameter, tt);
  are_scopes = ((x-IsLocal, tt), refl, ((y-IsLocal, tt), refl, tt, refl, tt), refl, tt);
}

g_plain-IsWholeFunction : IsWholeFunction g_plain
g_plain-IsWholeFunction = record {
  is_function = g-IsFunction;
  are_parameters = tt;
  are_scopes = (tt, refl, tt, refl, tt);
}

f_plain-IsWholeFunction : IsWholeFunction f_plain
f_plain-IsWholeFunction = record {
  is_function = f-IsFunction;
  are_parameters = tt;
  are_scopes = tt;
}

g_nested-IsWholeFunction : IsWholeFunction g_nested
g_nested-IsWholeFunction = record {
  is_function = g-IsFunction;
  are_parameters = (n-IsParameter, tt);
  are_scopes = ((x-IsLocal, tt), refl, ((y-IsLocal, tt), refl, tt, refl, tt), refl, tt);
}

abbrev table : LineTable
table = (3, (0, 12)) ∷ (7, (12, 0)) ∷ []

build-whole_functions_example :
    build (whole_unit so (first_line ∷ []) (f_nested ∷ g_plain ∷ [])) ≡ (
      ok (
          node
            (new_node n_undf [] [] 0 0)
            (cons (whole_unit_node so (first_line ∷ []) (f_nested ∷ g_plain ∷ [])) nil)),
      reading_with [] nil nil (b'a' ∷ []) table,
    )
unfolding ends_with record_lines record_line close_previous close_at enter_line after_close lookup
    insert
build-whole_functions_example =
    build-whole_functions so (first_line ∷ []) (f_nested ∷ g_plain ∷ []) ((3, (0, 0)) ∷ [], some 3)
      refl refl (refl, tt) (f_nested-IsWholeFunction, (g_plain-IsWholeFunction, tt)) refl table
      ((omega arith, (refl, tt)), tt) ((table, some 7), refl, ((table, some 3), refl, refl))

build-inner_scope_example : build (whole_unit so (first_line ∷ []) (f_plain ∷ g_nested ∷ [])) ≡ (
  ok (
      node (new_node n_undf [] [] 0 0) (
        cons
          (node
            (unit_draft so).own
            (cons (second_node (first_line ∷ []) f_plain g_nested both) nil))
          nil)),
  reading_with [] nil nil (b'a' ∷ []) table,
)
unfolding ends_with record_lines record_line close_previous close_at enter_line after_close lookup
    insert
build-inner_scope_example =
    build-inner_scope so (first_line ∷ []) f_plain g_nested both ((3, (0, 0)) ∷ [], some 3) table
      refl refl (refl, tt) (f_plain-IsWholeFunction, (g_nested-IsWholeFunction, tt)) refl refl
      ((table, some 7), refl, ((table, some 3), refl, refl)) (omega arith) (omega arith)
