-- ===== src/Jos/Tests.antt =====
-- The kernel, the boot loader and the console on concrete inputs.
use duke_operatingsystems.Jos.Syscalls.Access.{sys_cputs-unmapped}
use duke_operatingsystems.Jos.Traps.Dispatch.{set_eax, trap-unexpected, IsReturning, trap-resumes}
use duke_operatingsystems.Jos.Traps.Gates.Vectors.{target, entry_for, trap_init_lem}
use duke_operatingsystems.Jos.Printing.{Call, cprintf_at, line, say}
use duke_operatingsystems.Jos.PageTable.Identity.{IsPlaced, translate_identity}
use duke_operatingsystems.Jos.PageTable.{Placement, translate}
use duke_operatingsystems.Jos.Console.Screen.{Screen}
use duke_operatingsystems.Jos.Syscalls.{sys_cputs, syscall, sys_test, sys_env_destroy}
use duke_operatingsystems.Jos.Traps.Gates.{Handlers, Idt, trap_init}
use duke_operatingsystems.Jos.Traps.{
  PushRegs, Trapframe, Kernel, trap, Machine, panics, trap_dispatch, after_syscall, in_env, resumes,
}
use duke_operatingsystems.Common.{
  List, [], arith, false, if◌then◌else◌, leb, ltb, none, refl, some, true, ℕ, ◌%◌, ◌*◌, ◌+◌, ◌<◌,
  ◌^◌, ◌∷◌, ◌≡◌,
}

abbrev placement : Placement
placement = record { table0 = 0x118000; table1 = 0x119000; table2 = 0x11A000 }

placement-IsPlaced : IsPlaced placement
placement-IsPlaced = record {
  aligned0 = refl;
  aligned1 = refl;
  aligned2 = refl;
  apart01 = λ e. absurd (omega (arith, e));
  apart02 = λ e. absurd (omega (arith, e));
  apart12 = λ e. absurd (omega (arith, e));
}

translate_identity_example : translate placement 0x801234 ≡ (
    if ltb 0x801234 0xC00000
    then some (record { physical = 0x801234; can_write = true; can_user = leb 0x800000 0x801234 })
    else none)
translate_identity_example = translate_identity placement 0x801234 placement-IsPlaced (omega arith)

abbrev registers : PushRegs
registers = record {
  reg_edi = 0;
  reg_esi = 0;
  reg_ebp = 0;
  reg_oesp = 0;
  reg_ebx = 0;
  reg_edx = 0;
  reg_ecx = 0;
  reg_eax = 4;
}

abbrev frame : Trapframe
frame = record {
  tf_regs = registers;
  tf_es = 0x23;
  tf_ds = 0x23;
  tf_trapno = 48;
  tf_err = 0;
  tf_eip = 0x800020;
  tf_cs = 0x1b;
  tf_eflags = 0;
  tf_esp = 0xAFE000;
  tf_ss = 0x23;
}

abbrev machine : Machine
machine = record { env_tf_address = 0x120000; cr2 = 0; fl_if = false }

abbrev kernel : Kernel
kernel = record { env_tf = frame; last_tf = none }

abbrev kernel_after : Kernel
kernel_after = record { env_tf = set_eax frame 0; last_tf = some in_env }

trap_run :
    trap machine kernel 0x11F000 frame
    ≡ resumes kernel_after
        (set_eax frame 0)
        (line "Incoming TRAP frame at %p\n" 0x11F000 ∷ say "Test System Call!\n" ∷ [])
unfolding trap trap_dispatch after_syscall syscall sys_test sys_cputs sys_env_destroy
trap_run = refl

trap-resumes_example :
    IsReturning frame
    × (set_eax frame 0 ≡ set_eax frame 0)
    × (kernel_after.env_tf ≡ set_eax frame 0)
    × (kernel_after.last_tf ≡ some in_env)
trap-resumes_example =
    trap-resumes machine kernel kernel_after 0x11F000 frame (set_eax frame 0)
      (line "Incoming TRAP frame at %p\n" 0x11F000 ∷ say "Test System Call!\n" ∷ []) refl trap_run

abbrev divide_error : Trapframe
divide_error = record frame { tf_trapno = 0 }

trap-unexpected_example :
    (out : List Call) × (trap machine kernel 0x11F000 divide_error
      ≡ panics "unhandled trap in user code" out)
trap-unexpected_example =
    trap-unexpected machine kernel 0x11F000 divide_error refl (λ e. absurd (omega (arith, e)))
      (λ e. absurd (omega (arith, e)))

abbrev handlers : Handlers
handlers = record { th = λ k. (0x100000 + 16 * k) % 2 ^ 32; unktraphandler = 0x101000 }

abbrev empty_idt : Idt
empty_idt = λ i. record {
  gd_off_15_0 = 0;
  gd_sel = 0;
  gd_args = 0;
  gd_rsv1 = 0;
  gd_type = 0;
  gd_s = 0;
  gd_dpl = 0;
  gd_p = 0;
  gd_off_31_16 = 0;
}

abbrev vector : ℕ
vector = 48

trap_init_lem_example :
    let g = trap_init handlers empty_idt vector in
    (target g ≡ entry_for handlers vector)
    × (g.gd_sel ≡ 0x08)
    × (g.gd_p ≡ 1)
    × (g.gd_s ≡ 0)
    × (g.gd_dpl ≡ 3)
    × (g.gd_type ≡ 0xE)
trap_init_lem_example =
    trap_init_lem handlers empty_idt vector (omega arith) (λ k. omega arith) (omega arith)

sys_cputs-unmapped_example :
    (len : ℕ) × (len < 2 ^ 32)
    × (sys_cputs 0xF0100000 len ≡ cprintf_at 0xF0100000 ∷ [])
    × (translate placement 0xF0100000 ≡ none)
sys_cputs-unmapped_example =
    sys_cputs-unmapped placement 0xF0100000 placement-IsPlaced (omega arith) (omega arith)

abbrev screen : Screen
screen = record { crt_buf = λ i. 0x0741; crt_pos = 1950; addr_6845 = 0x3D4; out = [] }
