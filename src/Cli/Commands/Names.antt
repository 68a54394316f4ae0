-- ===== src/Cli/Commands/Names.antt =====
-- The dictionary of the names of the commands that `Cli.__init__` of host/cli.py builds.
use cwdbg.Base.{
  ◌≡◌, refl, ◌∙◌, Bool-cases, inl, inr, List, [], ◌∷◌, Option, none, some, Bytes, All, Dict, lookup,
  insert, lookup-insert, text_key, eq_text, eq_text_iff, eq_text_refl, subst, ok, chain-eq-ok,
}
use cwdbg.Cli.Commands.{
  Command, command_name, command_aliases, add_unless, add_name, add_names, add_commands,
}

-- What a table knows stays known.
abbrev Extends : Dict Bytes Command → Dict Bytes Command → Type 0
Extends table table' =
    (name : Bytes) (command : Command)
    → lookup name table ≡ some command
    → lookup name table' ≡ some command

-- The name and the aliases of a command lead to it.
abbrev pub IsKnown : Dict Bytes Command → Command → Type 0
IsKnown table command =
    All (λ name. lookup name table ≡ some command) (command_name command ∷ command_aliases command)

insert-Extends :
    (command : Command) (name : Bytes) (table : Dict Bytes Command)
    → lookup name table ≡ none
    → Extends table (insert name command table)
insert-Extends command name table new other known h = elim (Bool-cases (eq_text name other)) [
  | inl same ↦ let e : name ≡ other = (eq_text_iff name other).0 same in cc
  | inr differs ↦ lookup-insert name other command table ∙ rw differs h
]

add_unless-eq-ok :
    (command : Command) (name : Bytes) (table table' : Dict Bytes Command) (found : Option Command)
    → lookup name table ≡ found
    → add_unless command name table found ≡ ok table'
    → (lookup name table' ≡ some command) × Extends table table'
unfolding add_unless
add_unless-eq-ok command name table table' (some known) e h = cc
add_unless-eq-ok command name table table' none e h =
    let same : insert name command table ≡ table' = cc in
    subst (λ t. (lookup name t ≡ some command) × Extends table t) {x = insert name command table}
      {y = table'} same
      (
        lookup-insert name name command table ∙ rw (eq_text_refl name) refl,
        insert-Extends command name table e,
      )

All-Extends :
    (command : Command) (names : List Bytes) (table table' : Dict Bytes Command)
    → Extends table table'
    → All (λ name. lookup name table ≡ some command) names
    → All (λ name. lookup name table' ≡ some command) names
All-Extends command [] table table' more all = tt
All-Extends command (name ∷ names) table table' more (known, all) =
    (more name command known, All-Extends command names table table' more all)

add_names-eq-ok :
    (command : Command) (names : List Bytes) (table table' : Dict Bytes Command)
    → add_names command names table ≡ ok table'
    → All (λ name. lookup name table' ≡ some command) names × Extends table table'
unfolding add_names add_name
add_names-eq-ok command [] table table' h =
    (tt, subst (Extends table) {x = table} {y = table'} (cc) (λ name known e. e))
add_names-eq-ok command (name ∷ names) table table' h =
    let (between, added, rest) =
      chain-eq-ok (add_name command name table) (add_names command names) h in
    let (known, more) =
      add_unless-eq-ok command name table between (lookup name table) refl added in
    let (all, more') = add_names-eq-ok command names between table' rest in
    ((more' name command known, all), λ other c e. more' other c (more other c e))

-- If the loop over some commands does not raise, for a name or an alias that is taken, then each of them is found
-- under its name and all its aliases, and what was in the dictionary before is still found.
pub add_commands-eq-ok :
    (commands : List Command) (table table' : Dict Bytes Command)
    → add_commands commands table ≡ ok table'
    → All (IsKnown table') commands
      × ((name : Bytes) (command : Command)
          → lookup name table ≡ some command
          → lookup name table' ≡ some command)
unfolding add_commands
add_commands-eq-ok [] table table' h =
    (tt, subst (Extends table) {x = table} {y = table'} (cc) (λ name known e. e))
add_commands-eq-ok (command ∷ commands) table table' h =
    let names = command_name command ∷ command_aliases command in
    let (between, added, rest) =
      chain-eq-ok (add_names command names table) (add_commands commands) h in
    let (known, more) = add_names-eq-ok command names table between added in
    let (all, more') = add_commands-eq-ok commands between table' rest in
    (
      (All-Extends command names between table' more' known, all),
      λ other c e. more' other c (more other c e),
    )
