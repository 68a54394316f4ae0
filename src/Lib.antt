-- ===== src/Lib.antt =====
-- cwdbg, a debugger for programs on the Amiga: the part that runs on the host, in Python.
--
-- The host talks to a server on the Amiga over a serial line (host/server.py): a command is a message
-- in a SLIP frame, the server answers with an ACK or a NACK that carries the sequence number of the
-- connection, and reports with MSG_TARGET_STOPPED when the target stops. The debug information of the
-- target is read from its executable: host/hunklib.py finds the debug block in the file,
-- host/stabslib.py makes a tree of nodes and tables of line numbers of the stabs in it. With both,
-- host/target.py shows the stopped target in terms of its source. The user gives commands, of which
-- host/cli.py makes server commands, on a terminal (host/ui.py) or line by line (host/cwdbg.py).
--
-- What models what:
--   Base                  helpers: tests, lists, 16- and 32-bit words, dictionaries, and `Exec`, a call of
--                         a method that changes a state and returns or raises; Base.Kept has what such
--                         a method keeps
--   Slip                  the framing in `send_message` and `recv_message`, host/server.py
--   Server                `ServerConnection` and `ProtoMessage`, host/server.py
--   Server.Commands       `ServerCommand` with `execute`, and the classes derived from it
--   Target                the structures of host/target.py in their layout; Target.States has the
--                         states and the error codes of host/errors.py
--   Target.Instructions   the tests of the next instruction, `_get_syscall_offset`
--   Target.Syscalls       `_get_syscall_info`
--   Target.SourceView     the lines that `get_source_view` selects
--   Target.CallStack      `get_call_stack`
--   Hunk                  `_read_word` and `_read_string` of host/hunklib.py
--   Hunk.Blocks           the readers of blocks and their table
--   Hunk.Exe              `read_exe`, `get_debug_infos_from_exe`; Hunk.Exe.Image writes the format down
--   Stabs.Table           `ProgramWithDebugInfo.from_stabs_data`, host/stabslib.py
--   Stabs.DataDict        `DataDictBuilder`
--   Stabs.Builder         `ProgramTreeBuilder`: its state, the table of lines, the branches of
--                         `_build_subtree`, its loop and `build`
--   Stabs.Program         `ProgramWithDebugInfo` and its look-ups
--   Stabs.Functions       the stabs of a compilation unit with any number of functions, and its tree;
--                         Stabs.Scopes adds parameters, variables and scopes
--   Debugger              the object `dbg` of host/debugger.py, and the status line and the views of
--                         host/target.py, which use it
--   Cli.Commands          the classes of the commands of host/cli.py, their guards and their names
--   Cli.Memory            `disassemble`, `examine` and `hexdump`
--   Cli.Stepping          `_execute_one_line`, `_execute_until_next_line`; Cli.Stepping.Runs describes the
--                         loops as a relation
--   Cli.Locations         the locations of breakpoints
--   Cli.Frames            the text of `backtrace`, which repeats code of host/target.py
--   Cli.Execute           the other `execute` methods, and the choice between all of them
--   Cli.Process           `Cli.process_command`
--   Ui                    the key `enter`, the function keys, the status line and the views of host/ui.py;
--                         Ui.Log has `UrwidHandler`
--   Ui.Layout, Ui.Keys    `MainScreen`: its widgets, as a tree, and its event loop
--   Generator             host/create-syscall-info-db.py: Generator.Protos reads the prototypes,
--                         Generator.Pragmas the pragmas
--   Entry                 the start of the program and its loop without the terminal, host/cwdbg.py;
--                         Entry.Main has `main`
--   Tests                 runs at small inputs
-- The other modules hold proofs, and are named for what they prove.
--
-- Bytes and characters are numbers, a text is the list of its characters, of which `\d` and `\w` match those
-- of ASCII. A socket is the list of the
-- chunks that `recv` will return, and `send` takes the whole buffer; when none is left, the call waits for ever, which is the outcome
-- `no_return`; so does the program at the end of the user's lines or keys. A file is the list of the bytes that are still to be read. The list of stabs is kept in
-- the order of reading, where the source reverses it for `pop`. Log output is left out, except for
-- the look-ups of names in it that raise.
--
-- Fuel: the loops of the readers of blocks and of `read_exe` get one unit more than there are bytes,
-- since each round takes a word; `build` gets one unit more than there are stabs, and each call of
-- `_build_subtree` twice the number of the stabs that are left and one, since a stab that is put back
-- is read at once by the call that follows. `get_call_stack` takes its
-- fuel as an argument, since the loop of the source has no bound.
--
-- `execute_line` takes one unit for each instruction, `dump_rows` one more than there are bytes.
--
-- What other code gives is a parameter, collected in the record `Environment` of Cli: the disassembler
-- (capstone), the argument parser with its help text (argparse and shlex), the format strings of
-- `struct.unpack`, the source files and the platform. The include files of the generator are the lists of
-- their lines. A message that quotes an exception is the text in front and the exception.
--
-- The main screen is the tree of its widgets without paddings and alignments. The keys that the widget
-- `Edit` of urwid handles are given by the text that they leave in the command line.
--
-- Not modelled: the parsing of the command line, the log and the banner in host/cwdbg.py;
-- host/dumpexe.py, which calls what `load_program` calls; the tests of the host; and the server, which is
-- written in C.
pub mod Base
pub mod Slip
pub mod Target
pub mod Server
pub mod Hunk
pub mod Stabs
pub mod Debugger
pub mod Cli
pub mod Ui
pub mod Generator
pub mod Entry
mod Tests
