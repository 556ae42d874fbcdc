-- ===== src/Jos/Traps.antt =====
-- kern/trap.c and kern/env.c: trap frames, their printing, and the path of a trap through the kernel.
pub mod Gates
pub mod Dispatch
use Prim.Native.String.{String}
use duke_operatingsystems.Common.{
  Bool, List, Option, [], bit_or, false, get_or, if◌then◌else◌, ltb, none, some, true, ℕ, ◌%◌, ◌&&◌,
  ◌++◌, ◌+◌, ◌-◌, ◌/◌, ◌==◌, ◌∷◌,
}
use duke_operatingsystems.Jos.Printing.{Call, line, cprintf, text, num, say}
use duke_operatingsystems.Jos.Syscalls.{syscall, Served, ustacktop, minus_e_inval, shutdown, value}

-- `struct PushRegs`
pub record PushRegs : Type 0 where
  pub reg_edi : ℕ
  pub reg_esi : ℕ
  pub reg_ebp : ℕ
  pub reg_oesp : ℕ
  pub reg_ebx : ℕ
  pub reg_edx : ℕ
  pub reg_ecx : ℕ
  pub reg_eax : ℕ

-- `struct Trapframe`, less its padding
pub record Trapframe : Type 0 where
  pub tf_regs : PushRegs
  pub tf_es : ℕ
  pub tf_ds : ℕ
  pub tf_trapno : ℕ
  pub tf_err : ℕ
  pub tf_eip : ℕ
  pub tf_cs : ℕ
  pub tf_eflags : ℕ
  pub tf_esp : ℕ
  pub tf_ss : ℕ

abbrev pub t_pgflt : ℕ
t_pgflt = 14

abbrev pub t_syscall : ℕ
t_syscall = 48

abbrev pub gd_kt : ℕ
gd_kt = 0x08

abbrev pub gd_ut : ℕ
gd_ut = 0x18

abbrev pub gd_ud : ℕ
gd_ud = 0x20

abbrev pub excnames : List String
excnames =
    "Divide error" ∷ "Debug" ∷ "Non-Maskable Interrupt" ∷ "Breakpoint" ∷ "Overflow"
    ∷ "BOUND Range Exceeded" ∷ "Invalid Opcode" ∷ "Device Not Available" ∷ "Double Fault"
    ∷ "Coprocessor Segment Overrun" ∷ "Invalid TSS" ∷ "Segment Not Present" ∷ "Stack Fault"
    ∷ "General Protection" ∷ "Page Fault" ∷ "(unknown trap)" ∷ "x87 FPU Floating-Point Error"
    ∷ "Alignment Check" ∷ "Machine-Check" ∷ "SIMD Floating-Point Exception" ∷ []

unfoldable pub trapname : ℕ → String
trapname trapno =
    if ltb trapno 20
    then get_or excnames trapno "(unknown trap)"
    else if trapno == t_syscall
    then "System call"
    else "(unknown trap)"

unfoldable pub print_regs : PushRegs → List Call
print_regs regs =
    line "  edi  0x%08x\n" regs.reg_edi
    ∷ line "  esi  0x%08x\n" regs.reg_esi
    ∷ line "  ebp  0x%08x\n" regs.reg_ebp
    ∷ line "  oesp 0x%08x\n" regs.reg_oesp
    ∷ line "  ebx  0x%08x\n" regs.reg_ebx
    ∷ line "  edx  0x%08x\n" regs.reg_edx
    ∷ line "  ecx  0x%08x\n" regs.reg_ecx
    ∷ line "  eax  0x%08x\n" regs.reg_eax
    ∷ []

-- Where a trap frame lies: on the kernel stack, at an address, or in `env_tf`.
pub data FramePtr : Type 0 where
  on_stack : ℕ → FramePtr
  in_env : FramePtr

abbrev pub same_frame : FramePtr → FramePtr → Bool
same_frame in_env in_env = true
same_frame (on_stack a) (on_stack b) = a == b
same_frame (on_stack a) in_env = false
same_frame in_env (on_stack b) = false

-- What the kernel knows beside the frame: the address of `env_tf`, the fault address in CR2, and the
-- interrupt flag of EFLAGS.
pub record Machine : Type 0 where
  pub env_tf_address : ℕ
  pub cr2 : ℕ
  pub fl_if : Bool

-- `env_tf` and `last_tf`
pub record Kernel : Type 0 where
  pub env_tf : Trapframe
  pub last_tf : Option FramePtr

abbrev pub address_of : Machine → FramePtr → ℕ
address_of mc (on_stack a) = a
address_of mc in_env = mc.env_tf_address

unfoldable pub is_last : Kernel → FramePtr → Bool
is_last k p = elim k.last_tf [ none ↦ false | some q ↦ same_frame p q ]

abbrev pub bit : ℕ → ℕ → Bool
bit mask n = n / mask % 2 == 1

unfoldable pub print_error : Trapframe → List Call
print_error tf =
    line "  err  0x%08x" tf.tf_err
    ∷ (if tf.tf_trapno == t_pgflt
        then cprintf " [%s, %s, %s]\n" (
            text (if bit 4 tf.tf_err then "user" else "kernel")
            ∷ text (if bit 2 tf.tf_err then "write" else "read")
            ∷ text (if bit 1 tf.tf_err then "protection" else "not-present")
            ∷ [])
        else say "\n")
    ∷ []

unfoldable pub print_trapframe : Machine → Kernel → FramePtr → Trapframe → List Call
print_trapframe mc k p tf =
    (line "TRAP frame at %p\n" (address_of mc p) ∷ print_regs tf.tf_regs)
    ++ ((line "  es   0x----%04x\n" tf.tf_es
          ∷ line "  ds   0x----%04x\n" tf.tf_ds
          ∷ cprintf "  trap 0x%08x %s\n" (num tf.tf_trapno ∷ text (trapname tf.tf_trapno) ∷ [])
          ∷ [])
        ++ ((if is_last k p && (tf.tf_trapno == t_pgflt)
              then line "  cr2  0x%08x\n" mc.cr2 ∷ []
              else [])
            ++ (print_error tf
                ++ ((line "  eip  0x%08x\n" tf.tf_eip
                      ∷ line "  cs   0x----%04x\n" tf.tf_cs
                      ∷ line "  flag 0x%08x\n" tf.tf_eflags
                      ∷ [])
                    ++ (if tf.tf_cs % 4 == 0
                        then []
                        else line "  esp  0x%08x\n" tf.tf_esp
                          ∷ line "  ss   0x----%04x\n" tf.tf_ss
                          ∷ [])))))

-- How the handling of a trap ends: the frame runs on, the machine shuts down, or the kernel panics.
pub data Handled : Type 0 where
  resumes : Kernel → Trapframe → List Call → Handled
  shuts_down : List Call → Handled
  panics : String → List Call → Handled

unfoldable pub page_fault_handler : Machine → Kernel → FramePtr → Trapframe → Handled
page_fault_handler mc k p tf = panics "unhanlded page fault" (
    (cprintf "user fault va %08x ip %08x\n" (num mc.cr2 ∷ num tf.tf_eip ∷ [])
      ∷ print_trapframe mc k p tf)
    ++ (say "Page Fault\n" ∷ []))

-- The end of `trap_dispatch`, behind the switch.
unfoldable pub unexpected_trap : Machine → Kernel → FramePtr → Trapframe → List Call → Handled
unexpected_trap mc k p tf out =
    panics (if tf.tf_cs == gd_kt then "unhandled trap in kernel" else "unhandled trap in user code")
      (out ++ print_trapframe mc k p tf)

-- A write through `tf` is a write of `env_tf` if the frame lies there.
abbrev pub store_frame : Kernel → FramePtr → Trapframe → Kernel
store_frame k (on_stack a) tf = k
store_frame k in_env tf = record k { env_tf = tf }

-- The case T_SYSCALL of the switch, behind the call of `syscall`.
unfoldable pub after_syscall : Machine → Kernel → FramePtr → Trapframe → Served → Handled
after_syscall mc k p tf (shutdown out) = shuts_down out
after_syscall mc k p tf (value v out) =
    let tf' : Trapframe = record tf { tf_regs = record (tf.tf_regs) { reg_eax = v } } in
    if v == minus_e_inval
    then unexpected_trap mc (store_frame k p tf') p tf' out
    else resumes (store_frame k p tf') tf' out

unfoldable pub trap_dispatch : Machine → Kernel → FramePtr → Trapframe → Handled
trap_dispatch mc k p tf =
    if tf.tf_trapno == t_pgflt
    then page_fault_handler mc k p tf
    else if tf.tf_trapno == t_syscall
    then after_syscall mc k p tf (
        syscall tf.tf_regs.reg_eax tf.tf_regs.reg_edx tf.tf_regs.reg_ecx tf.tf_regs.reg_ebx
          tf.tf_regs.reg_edi tf.tf_regs.reg_esi)
    else unexpected_trap mc k p tf []

abbrev pub prepend : List Call → Handled → Handled
prepend out (resumes k tf more) = resumes k tf (out ++ more)
prepend out (shuts_down more) = shuts_down (out ++ more)
prepend out (panics why more) = panics why (out ++ more)

-- `trap`, with the frame at the address `a` of the kernel stack. `resumes` is `run_trapframe`.
unfoldable pub trap : Machine → Kernel → ℕ → Trapframe → Handled
trap mc k a tf =
    if mc.fl_if
    then panics "assertion failed: !(read_eflags() & FL_IF)" []
    else (let from_user = tf.tf_cs % 4 == 3 in
        let p : FramePtr = if from_user then in_env else on_stack a in
        let k' : Kernel = record {
          env_tf = (if from_user then tf else k.env_tf);
          last_tf = some p;
        } in
        prepend (line "Incoming TRAP frame at %p\n" a ∷ []) (trap_dispatch mc k' p tf))

-- kern/env.c: a frame for a program that starts at `entry_point`, over what `tf` held.
unfoldable pub initialize_new_trapframe : Trapframe → ℕ → Trapframe
initialize_new_trapframe tf entry_point = record tf {
  tf_esp = ustacktop;
  tf_ds = bit_or gd_ud 3;
  tf_es = bit_or gd_ud 3;
  tf_ss = bit_or gd_ud 3;
  tf_cs = bit_or gd_ut 3;
  tf_eip = entry_point;
}
