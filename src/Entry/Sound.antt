-- ===== src/Entry/Sound.antt =====
-- What `main` of host/cwdbg.py puts on the line, from its start to its end.
use cwdbg.Base.{
  ℕ, ◌+◌, ◌<◌, ◌≡◌, refl, subst, List, [], ◌∷◌, ◌++◌, Option, none, some, Bytes, text, arith,
  length, Dict, insert, nat_key, Outcome, ok, raise, no_return, OfOk, Exec, quit_debugger, All,
  AllBytes, Keeps, bind-Keeps, lift-Keeps, modify-Keeps, bind-Gives, Keeps-Gives, Gives,
}
use cwdbg.Hunk.{File}
use cwdbg.Server.{ServerConnection, payload, is_reply}
use cwdbg.Server.Sound.{IsSound, IsLine}
use cwdbg.Server.Commands.{
  Exchange, execute, connect, srv_init, srv_get_base_address, base_address_result,
}
use cwdbg.Server.Commands.New.{IsNew, srv_init-IsNew}
use cwdbg.Server.Commands.Sound.{execute-kept}
use cwdbg.Stabs.Program.{ProgramWithDebugInfo}
use cwdbg.Target.CallStack.{run_command, command_result}
use cwdbg.Target.Syscalls.{SyscallInfo, SyscallDb}
use cwdbg.Cli.{Environment}
use cwdbg.Cli.Process.{Cli, Session, Result, new_cli, process_command}
use cwdbg.Cli.Process.Sound.{IsSoundSession, process_command_sound}
use cwdbg.Ui.Sound.{main_screen_sound}
use cwdbg.Entry.{
  Console, after_command, command_loop, init_debugger, connected, with_libs, load_program,
  load_syscall_db, get_base_address, get_lib_base_addresses,
}
use cwdbg.Entry.Main.{Input, no_tui, tui, interface, closed, started, main}

-- With `.library` and the terminating null byte behind it, the name of a library fits into one message.
abbrev pub IsShortName : Bytes × Dict ℕ SyscallInfo → Type 0
IsShortName (name, content) = length name < 247

command_result-IsSound :
    (r : Outcome (Unit {0}) × Exchange) → IsSound r.1.conn → IsSound (command_result r).1
unfolding command_result
command_result-IsSound (ok _, x) h = h
command_result-IsSound (raise e, x) h = h
command_result-IsSound (no_return, x) h = h

length-append : (xs ys : Bytes) → length (xs ++ ys) ≡ length xs + length ys
length-append [] ys = omega arith
length-append (x ∷ xs) ys = omega (arith, length-append xs ys)

get_base_address-IsNew :
    (name : Bytes) → length name < 247 → IsNew (srv_get_base_address (name ++ text ".library"))
unfolding srv_get_base_address payload is_reply
get_base_address-IsNew name short = record {
  no_target = refl;
  is_no_reply = refl;
  fits = omega (
    arith,
    length-append name (text ".library"),
    length-append (name ++ text ".library") (0 ∷ []),
  );
}

get_base_address-Keeps : (name : Bytes) → length name < 247 → Keeps IsSound (get_base_address name)
unfolding get_base_address run_command
get_base_address-Keeps name short =
    bind-Keeps IsSound
      (record {
        kept = λ conn h.
            command_result-IsSound
              (execute
                (record { command = srv_get_base_address (name ++ text ".library"); conn = conn }))
              (execute-kept (srv_get_base_address (name ++ text ".library"))
                (get_base_address-IsNew name short) conn h).0;
      })
      (λ bytes. lift-Keeps IsSound (base_address_result bytes))

get_lib_base_addresses-Keeps :
    (files : List (Bytes × Dict ℕ SyscallInfo)) (libs : Dict ℕ Bytes)
    → All IsShortName files
    → Keeps IsSound (get_lib_base_addresses files libs)
unfolding get_lib_base_addresses
get_lib_base_addresses-Keeps [] libs all = lift-Keeps IsSound (ok libs)
get_lib_base_addresses-Keeps ((name, content) ∷ files) libs (short, all) =
    bind-Keeps IsSound (get_base_address-Keeps name short)
      (λ address. get_lib_base_addresses-Keeps files (insert address name libs) all)

-- A sound connection, if there is one, and a sound session.
abbrev AllSound : Option ServerConnection → Type 0
AllSound none = Unit
AllSound (some conn) = IsSound conn

abbrev IsStarted : Outcome Session × Option ServerConnection → Type 0
IsStarted (r, conn) = OfOk IsSoundSession r × AllSound conn

with_libs_sound :
    (program : Option ProgramWithDebugInfo) (cli : Cli) (db : SyscallDb)
    (r : Outcome (Dict ℕ Bytes) × ServerConnection)
    → IsSound r.1
    → IsStarted (with_libs program cli db r)
unfolding with_libs
with_libs_sound program cli db (ok libs, conn) h = ((h, tt), h)
with_libs_sound program cli db (raise e, conn) h = (tt, h)
with_libs_sound program cli db (no_return, conn) h = (tt, h)

connected-IsSound :
    (r : Outcome (Unit {0}) × Exchange) → IsSound r.1.conn → OfOk IsSound (connected r)
unfolding connected
connected-IsSound (ok _, x) h = h
connected-IsSound (raise e, x) h = tt
connected-IsSound (no_return, x) h = tt

connect-IsSound :
    (incoming : List Bytes) → All AllBytes incoming → IsSound (connect incoming).1.conn
unfolding connect
connect-IsSound incoming all =
    (execute-kept srv_init srv_init-IsNew
      (record { next_seqnum = 0; incoming = incoming; sent = [] })
      (record { sent_lines = tt; incoming_bytes = all })).0

module _ (prog : Option File) (files : List (Bytes × Dict ℕ SyscallInfo))
    (short : All IsShortName files) (incoming : List Bytes) (all : All AllBytes incoming) where
  init_debugger-Gives : Gives AllSound IsSoundSession (init_debugger prog files incoming)
  unfolding init_debugger
  init_debugger-Gives =
      bind-Gives AllSound (Keeps-Gives AllSound (lift-Keeps AllSound (load_program prog)))
        (λ program _.
          bind-Gives AllSound {given = IsSound}
            (record {
              keeps = lift-Keeps AllSound (connected (connect incoming));
              gives = λ s h. connected-IsSound (connect incoming) (connect-IsSound incoming all);
            })
            (λ conn sound.
              bind-Gives AllSound
                (Keeps-Gives AllSound (modify-Keeps AllSound (λ _. some conn) (λ s h. sound)))
                (λ _ _.
                  bind-Gives AllSound (Keeps-Gives AllSound (lift-Keeps AllSound new_cli)) (λ cli _.
                    let begun =
                      with_libs_sound program cli (load_syscall_db files [])
                        (get_lib_base_addresses files [] conn)
                        ((get_lib_base_addresses-Keeps files [] short).kept conn sound) in
                    record { keeps = record { kept = λ s h. begun.1 }; gives = λ s h. begun.0 }))))

after_command-kept :
    (rest : Exec Console (Unit {0}))
    → Keeps (λ console. IsSoundSession console.session) rest
    → (r : Outcome Result × Session) (console : Console) → IsSoundSession r.1
    → IsSoundSession (after_command rest r console).1.session
unfolding after_command
after_command-kept rest keeps (ok result, s) console h = keeps.kept _ h
after_command-kept rest keeps (raise quit_debugger, s) console h = h
after_command-kept rest keeps (raise e, s) console h = h
after_command-kept rest keeps (no_return, s) console h = h

module _ (fuel : ℕ) (env : Environment) where
  command_loop-Keeps :
      (cmd_lines : List Bytes)
      → Keeps (λ console. IsSoundSession console.session) (command_loop fuel env cmd_lines)
  unfolding command_loop
  command_loop-Keeps [] = record { kept = λ console h. h }
  command_loop-Keeps (cmd_line ∷ cmd_lines) = record {
    kept = λ console h.
        after_command-kept (command_loop fuel env cmd_lines) (command_loop-Keeps cmd_lines)
          (process_command fuel env cmd_line console.session) console
          ((process_command_sound fuel env cmd_line).kept console.session h);
  }

  interface-Keeps : (input : Input) → Keeps IsSoundSession (interface fuel env input)
  unfolding interface
  interface-Keeps (no_tui cmd_lines) = record {
    kept = λ s h. (command_loop-Keeps cmd_lines).kept (record { session = s; printed = [] }) h;
  }
  interface-Keeps (tui events) = main_screen_sound fuel env events

  started_sound :
      (input : Input) (r : Outcome Session × Option ServerConnection)
      → IsStarted r
      → AllSound (started fuel env input r).1
  unfolding started
  started_sound input (ok session, conn) h = ((interface-Keeps input).kept session h.0).0
  started_sound input (raise e, conn) h = h.1
  started_sound input (no_return, conn) h = h.1

  closed_sound :
      (r : Outcome (Unit {0})) (conn : Option ServerConnection)
      → AllSound conn
      → AllSound (closed r conn)
  unfolding closed
  closed_sound (ok _) conn h = h
  closed_sound (raise e) conn h = h
  closed_sound no_return conn h = tt

  main_sound :
      (prog : Option File) (files : List (Bytes × Dict ℕ SyscallInfo)) (incoming : List Bytes)
      (input : Input)
      → All IsShortName files
      → All AllBytes incoming
      → AllSound (main fuel env prog files incoming input).1
  unfolding main
  main_sound prog files incoming input short all =
      let begun = init_debugger-Gives prog files short incoming all in
      closed_sound _ _ (
        started_sound input (init_debugger prog files incoming none)
          (begun.gives none tt, begun.keeps.kept none tt))

-- Whatever lines the user types or keys the user presses, and whatever bytes the server sends, everything that the
-- debugger has sent when it closes the connection is one message to a frame: its type is known, its fields fit and its
-- length is that of its data. The names of the library files have less than 247 characters.
pub main-sent :
    (fuel : ℕ) (env : Environment) (prog : Option File) (files : List (Bytes × Dict ℕ SyscallInfo))
    (incoming : List Bytes) (input : Input) (r : Outcome (Unit {0})) (conn : ServerConnection)
    → All IsShortName files
    → All AllBytes incoming
    → main fuel env prog files incoming input ≡ (r, some conn)
    → All IsLine conn.sent
main-sent fuel env prog files incoming input r conn short all h =
    (subst (λ e. AllSound e.1) h
      (main_sound fuel env prog files incoming input short all)).sent_lines
