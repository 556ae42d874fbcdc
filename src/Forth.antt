-- ===== src/Forth.antt =====
-- VirtualMemoryAllocator/forth/forth_embed.c: the data of a forth interpreter and the C code that runs it.
-- The interpreter itself, fcontinue of forth/myjf.S, is assembly and a parameter.
pub mod Starter
pub mod Loading
pub mod Session
pub mod Contract
mod Tests
use duke_operatingsystems.Common.{
  add64, if◌then◌else◌, leb, ltb, sub64, u32, update, ℕ, ◌%◌, ◌&&◌, ◌*◌, ◌+◌, ◌-◌, ◌/◌, ◌==◌, ◌^◌,
}

-- The fields of struct forth_data that C code reads or writes, and memory.
pub record Forth : Type 0 where
  pub stack_top : ℕ
  pub rstack_top : ℕ
  pub rstack_bot : ℕ
  pub stack_bot : ℕ
  pub state : ℕ
  pub here : ℕ
  pub latest : ℕ
  pub output_max : ℕ
  pub output_current : ℕ
  pub base : ℕ
  pub input_current : ℕ
  pub process_id : ℕ
  pub mem : ℕ → ℕ

-- What fcontinue returns, and the data that it leaves.
abbrev pub Interpreter : Type 0
Interpreter = Forth → ℕ × Forth

abbrev pub fcontinue_yield : ℕ
fcontinue_yield = 1

abbrev pub fcontinue_input_done : ℕ
fcontinue_input_done = 2

abbrev pub fcontinue_error : ℕ
fcontinue_error = 3

abbrev pub fcontinue_output_flush : ℕ
fcontinue_output_flush = 4

-- A pointer in memory, of eight bytes.
abbrev pub write_pointer : ℕ → ℕ → (ℕ → ℕ) → ℕ → ℕ
write_pointer p value mem a =
    if leb p a && ltb a (p + 8) then value / 2 ^ (8 * (a - p)) % 2 ^ 8 else mem a

-- `fstart` and `name_SYSCALL0` are addresses from the assembly file; the counter of processes goes along.
unfoldable pub initialize_forth_data :
    (fstart name_syscall0 rstack_bottom data_top stack_bottom process_counter : ℕ)
    → Forth
    → Forth × ℕ
initialize_forth_data fstart name_syscall0 rstack_bottom data_top stack_bottom process_counter f =
    let top = sub64 stack_bottom 8 in
    let count = u32 (process_counter + 1) in
    (
      record f {
        rstack_top = rstack_bottom;
        rstack_bot = rstack_bottom;
        stack_bot = stack_bottom;
        stack_top = top;
        mem = write_pointer top fstart f.mem;
        state = 0;
        latest = name_syscall0;
        here = data_top;
        base = 10;
        process_id = count;
      },
      count,
    )

-- f_run: NULL, which is 0, for the input or the output leaves what is there.
unfoldable pub f_run : Interpreter → (input output max_output_len : ℕ) → Forth → ℕ × Forth
f_run fcontinue input output max_output_len f =
    let f1 = if output == 0 then f else record f {
      output_current = output;
      output_max = sub64 (add64 output max_output_len) 1;
    } in
    let f2 = if input == 0 then f1 else record f1 { input_current = input } in
    let (result, f3) = fcontinue f2 in
    (result, record f3 { mem = update f3.mem f3.output_current 0 })
