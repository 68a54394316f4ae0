-- ===== src/Cli/New.antt =====
-- The server commands that host/cli.py builds from the arguments of the user.
use cwdbg.Base.{ℤ, pos, negsuc, Bool}
use cwdbg.Server.Commands.New.{
  AllNew, srv_peek_mem-AllNew, srv_set_breakpoint-AllNew, srv_clear_breakpoint-AllNew,
}
use cwdbg.Cli.{peek_mem, set_bpoint, clear_bpoint}

pub peek_mem-AllNew : (address nbytes : ℤ) → AllNew (peek_mem address nbytes)
unfolding peek_mem
peek_mem-AllNew (pos address) (pos nbytes) = srv_peek_mem-AllNew address nbytes
peek_mem-AllNew (pos address) (negsuc m) = λ command h. cc
peek_mem-AllNew (negsuc n) nbytes = λ command h. cc

pub set_bpoint-AllNew : (offset : ℤ) (is_one_shot : Bool) → AllNew (set_bpoint offset is_one_shot)
unfolding set_bpoint
set_bpoint-AllNew (pos offset) is_one_shot = srv_set_breakpoint-AllNew offset is_one_shot
set_bpoint-AllNew (negsuc n) is_one_shot = λ command h. cc

pub clear_bpoint-AllNew : (number : ℤ) → AllNew (clear_bpoint number)
unfolding clear_bpoint
clear_bpoint-AllNew (pos number) = srv_clear_breakpoint-AllNew number
clear_bpoint-AllNew (negsuc n) = λ command h. cc
