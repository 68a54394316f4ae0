-- ===== src/Stabs/Nodes.antt =====
-- `Stab` and `ProgramNode` of host/stabslib.py.
use cwdbg.Base.{ℕ, ◌≡◌, refl, Bytes}

-- A stab with the string that is attached to it.
pub record Stab : Type 0 where
  pub offset : ℕ
  pub type : ℕ
  pub other : ℕ
  pub desc : ℕ
  pub value : ℕ
  pub string : Bytes

pub record NodeInfo : Type 0 where
  pub type : ℕ
  pub name : Bytes
  pub typeid : Bytes
  pub start_addr : ℕ
  pub end_addr : ℕ
  pub lineno : ℕ

mutual
  pub data ProgramNode : Type 0 where
    node : NodeInfo → Nodes → ProgramNode

  pub data Nodes : Type 0 where
    nil : Nodes
    cons : ProgramNode → Nodes → Nodes

abbrev pub info : ProgramNode → NodeInfo
info (node i xs) = i

abbrev pub children : ProgramNode → Nodes
children (node i xs) = xs

-- `a.extend(b)`
abbrev pub extend : Nodes → Nodes → Nodes
extend nil ys = ys
extend (cons x xs) ys = cons x (extend xs ys)

-- `a.append(x)`
abbrev pub append : Nodes → ProgramNode → Nodes
append xs x = extend xs (cons x nil)

pub extend-nil : (xs : Nodes) → extend xs nil ≡ xs
extend-nil nil = refl
extend-nil (cons x xs) = λ i. cons x (extend-nil xs i)

pub extend_assoc : (xs ys zs : Nodes) → extend (extend xs ys) zs ≡ extend xs (extend ys zs)
extend_assoc nil ys zs = refl
extend_assoc (cons x xs) ys zs = λ i. cons x (extend_assoc xs ys zs i)
