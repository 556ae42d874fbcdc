-- ===== src/Jos/Traps/Dispatch.antt =====
-- Which traps a program survives, and what they change.
use duke_operatingsystems.Jos.Printing.{Call, line}
use Prim.Native.String.{String}
use duke_operatingsystems.Common.{
  ==→eq, List, [], ap, arith, false, if_intro, if◌then◌else◌, ne→==, refl, some, ℕ, ◌%◌, ◌++◌, ◌==◌,
  ◌∷◌, ◌≡◌, ◌≢◌, ◌⊎◌,
}
use duke_operatingsystems.Jos.Syscalls.{syscall, sys_env_destroy}
use duke_operatingsystems.Jos.Traps.{
  Trapframe, t_syscall, trap, Machine, Kernel, trap_dispatch, after_syscall, t_pgflt,
  page_fault_handler, panics, unexpected_trap, gd_kt, resumes, in_env, FramePtr, prepend,
  store_frame, Handled,
}

abbrev pub set_eax : Trapframe → ℕ → Trapframe
set_eax tf v = record tf { tf_regs = record (tf.tf_regs) { reg_eax = v } }

-- The two system calls that return to the program.
abbrev pub IsReturning : Trapframe → Type 0
IsReturning tf = (tf.tf_trapno ≡ t_syscall) × ((tf.tf_regs.reg_eax ≡ 0) ⊎ (tf.tf_regs.reg_eax ≡ 4))

-- `trap_dispatch` returns only behind a served call.
dispatch-resumes :
    (mc : Machine) (k k' : Kernel) (p : FramePtr) (tf tf' : Trapframe) (out more : List Call)
    → prepend more (trap_dispatch mc k p tf) ≡ resumes k' tf' out
    → IsReturning tf × (tf' ≡ set_eax tf 0) × (k' ≡ store_frame k p tf')
unfolding trap_dispatch after_syscall syscall page_fault_handler unexpected_trap sys_env_destroy
dispatch-resumes mc k k' p tf tf' out more h = ground arith

-- A trap from user mode is survived only by the calls `sys_cputs` and `sys_test`. The frame that runs
-- on is the frame that trapped with 0 in %eax, and it is also what `env_tf` holds.
pub trap-resumes :
    (mc : Machine) (k k' : Kernel) (a : ℕ) (tf tf' : Trapframe) (out : List Call)
    → tf.tf_cs % 4 ≡ 3
    → trap mc k a tf ≡ resumes k' tf' out
    → IsReturning tf × (tf' ≡ set_eax tf 0) × (k'.env_tf ≡ tf') × (k'.last_tf ≡ some in_env)
unfolding trap
trap-resumes mc k k' a tf tf' out user h = ground (
  arith,
  dispatch-resumes mc (record { env_tf = tf; last_tf = some in_env }) k' in_env tf tf' out
      (line "Incoming TRAP frame at %p\n" a ∷ []),
)

-- What a panic prints is left open.
abbrev Panics : String → Handled → Type 0
Panics why r = (out : List Call) × (r ≡ panics why out)

Panics-prepend :
    (why : String) (more : List Call) (r : Handled) → Panics why r → Panics why (prepend more r)
Panics-prepend why more r (out, e) = (more ++ out, ap (prepend more) e)

abbrev pub mode_message : Trapframe → String
mode_message tf =
    if tf.tf_cs == gd_kt then "unhandled trap in kernel" else "unhandled trap in user code"

unexpected-syscall :
    (mc : Machine) (k : Kernel) (p : FramePtr) (tf : Trapframe) (number a1 a2 a3 a4 a5 : ℕ)
    → number ≢ 0
    → number ≢ 3
    → number ≢ 4
    → Panics (mode_message tf) (after_syscall mc k p tf (syscall number a1 a2 a3 a4 a5))
unfolding syscall after_syscall unexpected_trap
unexpected-syscall mc k p tf number a1 a2 a3 a4 a5 n0 n3 n4 =
    rw (ne→== number 0 n0, ne→== number 3 n3, ne→== number 4 n4) (_, refl)

dispatch-unexpected :
    (mc : Machine) (k : Kernel) (p : FramePtr) (tf : Trapframe)
    → tf.tf_trapno ≢ t_pgflt
    → (tf.tf_trapno ≡ t_syscall
        → (tf.tf_regs.reg_eax ≢ 0) × (tf.tf_regs.reg_eax ≢ 3) × (tf.tf_regs.reg_eax ≢ 4))
    → Panics (mode_message tf) (trap_dispatch mc k p tf)
unfolding trap_dispatch unexpected_trap
dispatch-unexpected mc k p tf nofault nocall =
    let regs = tf.tf_regs in
    rw (ne→== tf.tf_trapno 14 nofault) (
      if_intro (Panics (mode_message tf)) (tf.tf_trapno == t_syscall)
        (λ e.
          let (n0, n3, n4) = nocall (==→eq _ _ e) in
          unexpected-syscall mc k p tf regs.reg_eax regs.reg_edx regs.reg_ecx regs.reg_ebx
            regs.reg_edi regs.reg_esi n0 n3 n4)
        (λ _. (_, refl)))

-- With interrupts off, an unknown system call, and every trap other than a page fault and a system
-- call, ends in a panic that names the mode that trapped.
pub trap-unexpected :
    (mc : Machine) (k : Kernel) (a : ℕ) (tf : Trapframe)
    → mc.fl_if ≡ false
    → tf.tf_trapno ≢ t_pgflt
    → (tf.tf_trapno ≡ t_syscall
        → (tf.tf_regs.reg_eax ≢ 0) × (tf.tf_regs.reg_eax ≢ 3) × (tf.tf_regs.reg_eax ≢ 4))
    → (out : List Call) × (trap mc k a tf ≡ panics (mode_message tf) out)
unfolding trap
trap-unexpected mc k a tf quiet nofault nocall =
    if_intro (Panics (mode_message tf)) mc.fl_if (λ on. cc)
      (λ _.
        Panics-prepend (mode_message tf) (line "Incoming TRAP frame at %p\n" a ∷ []) _
          (dispatch-unexpected mc _ _ tf nofault nocall))
