-- ===== src/Cli/Commands/Classes.antt =====
-- The classes of the commands of host/cli.py, by the data that their constructors hand to `CliCommand`: names,
-- help and arguments.
use cwdbg.Base.{ℕ, List, [], ◌∷◌, ◌++◌, Option, none, some, Bytes, text}

pub data ArgType : Type 0 where
  str_type int_type : ArgType
  int_of_base : ℕ → ArgType

pub record CliCommandArg : Type 0 where
  pub name : Bytes
  pub help : Bytes
  pub type : ArgType
  pub choices : Option (List Bytes)

pub record CliCommand : Type 0 where
  pub command : Bytes
  pub aliases : List Bytes
  pub help : Bytes
  pub arg_spec : List CliCommandArg

abbrev pub cli_backtrace : CliCommand
cli_backtrace = record {
  command = text "backtrace";
  aliases = text "bt" ∷ [];
  help = text "Print a backtrace or call stack";
  arg_spec = [];
}

abbrev pub cli_clear_breakpoint : CliCommand
cli_clear_breakpoint = record {
  command = text "delete";
  aliases = text "d" ∷ text "del" ∷ [];
  help = text "Delete breakpoint";
  arg_spec =
      record {
        name = text "number";
        help = text "Breakpoint number";
        type = ArgType.int_type;
        choices = none;
      }
      ∷ [];
}

abbrev pub cli_continue : CliCommand
cli_continue = record {
  command = text "continue";
  aliases = text "c" ∷ text "cont" ∷ [];
  help = text "Continue target";
  arg_spec = [];
}

abbrev pub cli_disassemble : CliCommand
cli_disassemble = record {
  command = text "disassemble";
  aliases = text "di" ∷ text "dis" ∷ [];
  help = text "Create disassembly of a block of memory";
  arg_spec =
      record {
        name = text "address";
        help = text "Address of memory block";
        type = ArgType.int_of_base 0;
        choices = none;
      }
      ∷ record {
        name = text "ninstr";
        help = text "Number of instructions (currently limited to <= 32)";
        type = ArgType.int_of_base 10;
        choices = none;
      }
      ∷ [];
}

abbrev pub cli_examine : CliCommand
cli_examine = record {
  command = text "examine";
  aliases = text "x" ∷ [];
  help = text "Examine memory";
  arg_spec =
      record {
        name = text "format";
        help =
            text "Format string as understood by the unpack() function in the Python "
            ++ text "\"struct\" module";
        type = ArgType.str_type;
        choices = none;
      }
      ∷ record {
        name = text "address";
        help = text "Memory address";
        type = ArgType.int_of_base 0;
        choices = none;
      }
      ∷ [];
}

abbrev pub cli_hexdump : CliCommand
cli_hexdump = record {
  command = text "hexdump";
  aliases = text "hx" ∷ [];
  help = text "Create hexdump of a block of memory";
  arg_spec =
      record {
        name = text "address";
        help = text "Address of memory block";
        type = ArgType.int_of_base 0;
        choices = none;
      }
      ∷ record {
        name = text "size";
        help = text "Size of memory block (currently limited to <= 255)";
        type = ArgType.int_of_base 0;
        choices = none;
      }
      ∷ [];
}

abbrev pub cli_inspect : CliCommand
cli_inspect = record {
  command = text "inspect";
  aliases = text "i" ∷ [];
  help = text "Inspect target";
  arg_spec =
      record {
        name = text "what";
        help = text "Type of object to inspect: d(issambly), r(egisters), s(tack) or source (c)ode";
        type = ArgType.str_type;
        choices = some (text "d" ∷ text "r" ∷ text "s" ∷ text "c" ∷ []);
      }
      ∷ [];
}

abbrev pub cli_kill : CliCommand
cli_kill = record {
  command = text "kill";
  aliases = text "k" ∷ [];
  help = text "Kill target";
  arg_spec = [];
}

abbrev pub cli_next_instr : CliCommand
cli_next_instr = record {
  command = text "nexti";
  aliases = text "ni" ∷ [];
  help = text "Execute target until next instruction (step over sub-routines)";
  arg_spec = [];
}

abbrev pub cli_next_line : CliCommand
cli_next_line = record {
  command = text "next";
  aliases = text "n" ∷ [];
  help = text "Execute target until next line (step over function calls)";
  arg_spec = [];
}

abbrev pub cli_quit : CliCommand
cli_quit = record {
  command = text "quit";
  aliases = text "q" ∷ [];
  help = text "Quit debugger";
  arg_spec = [];
}

abbrev pub cli_run : CliCommand
cli_run = record {
  command = text "run";
  aliases = text "r" ∷ [];
  help = text "Run target";
  arg_spec = [];
}

abbrev pub cli_set_breakpoint : CliCommand
cli_set_breakpoint = record {
  command = text "break";
  aliases = text "b" ∷ [];
  help = text "Set breakpoint";
  arg_spec =
      record {
        name = text "location";
        help =
            text "Location of the breakpoint, meaning depends on format: hex number = "
            ++ text "offset relative to entry point, decimal number = line number, string = "
            ++ text "function name";
        type = ArgType.str_type;
        choices = none;
      }
      ∷ [];
}

abbrev pub cli_step_instr : CliCommand
cli_step_instr = record {
  command = text "stepi";
  aliases = text "si" ∷ [];
  help = text "Step one instruction";
  arg_spec = [];
}

abbrev pub cli_step_line : CliCommand
cli_step_line = record {
  command = text "step";
  aliases = text "s" ∷ [];
  help = text "Step one line";
  arg_spec = [];
}
