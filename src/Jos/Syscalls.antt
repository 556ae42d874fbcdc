-- ===== src/Jos/Syscalls.antt =====
-- kern/syscall.c: the system calls and their dispatch. Console input is not asked for by any of the
-- three calls that `syscall` knows.
pub mod Access
use Prim.Native.String.{String}
use duke_operatingsystems.Common.{
  List, [], if◌then◌else◌, leb, length, ltb, not, u32, ℕ, ◌%◌, ◌*◌, ◌+◌, ◌-◌, ◌/◌, ◌==◌, ◌^◌, ◌||◌,
  ◌∷◌,
}
use duke_operatingsystems.Jos.Printing.{Call, line, say, cprintf_at}

abbrev pub ustacktop : ℕ
ustacktop = 0xB00000 - 2 * 4096

abbrev pub sys_cputs_number : ℕ
sys_cputs_number = 0

abbrev pub sys_env_destroy_number : ℕ
sys_env_destroy_number = 3

abbrev pub sys_test_number : ℕ
sys_test_number = 4

-- -E_INVAL as an unsigned 32-bit number
abbrev pub minus_e_inval : ℕ
minus_e_inval = 2 ^ 32 - 3

abbrev pub invalid_pointer : Call
invalid_pointer = say "Invalid Pointer\n"

-- The string is an address, the length a size_t of 32 bits: their sum wraps.
unfoldable pub sys_cputs : ℕ → ℕ → List Call
sys_cputs s len =
    if ltb s 0x800000 || leb ustacktop (u32 (s + len))
    then invalid_pointer ∷ []
    else cprintf_at s ∷ []

unfoldable pub sys_test : List Call
sys_test = say "Test System Call!\n" ∷ []

-- What a system call does: return a value to the caller, or shut the machine down.
pub data Served : Type 0 where
  value : ℕ → List Call → Served
  shutdown : List Call → Served

unfoldable pub sys_env_destroy : ℕ → Served
sys_env_destroy envid = shutdown []

unfoldable pub syscall : (syscallno a1 a2 a3 a4 a5 : ℕ) → Served
unfolding sys_cputs sys_test sys_env_destroy
syscall syscallno a1 a2 a3 a4 a5 =
    if syscallno == sys_cputs_number
    then value 0 (sys_cputs a1 a2)
    else if syscallno == sys_env_destroy_number
    then sys_env_destroy a1
    else if syscallno == sys_test_number
    then value 0 sys_test
    else value minus_e_inval (line "Kernel got unexpected system call %d\n" syscallno ∷ [])
