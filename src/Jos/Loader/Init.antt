-- ===== src/Jos/Loader/Init.antt =====
-- kern/init.c: the whole of `i386_init`, up to the first instruction of the program. `env_init` only loads registers of the
-- processor.
use duke_operatingsystems.Common.{Bool, List, [], if◌then◌else◌, ℕ, ◌++◌, ◌-◌, ◌==◌}
use duke_operatingsystems.Jos.Elf.{Bytes, e_magic, elf_magic}
use duke_operatingsystems.Jos.Printf.{Formatter, cprintf}
use duke_operatingsystems.Jos.Console.Screen.{Screen}
use duke_operatingsystems.Jos.Traps.{Trapframe}
use duke_operatingsystems.Jos.Traps.Gates.{Handlers, Idt, trap_init}
use duke_operatingsystems.Jos.Console.Devices.{Ports}
use duke_operatingsystems.Jos.Console.Setup.{Video, Cga, cons_init}
use duke_operatingsystems.Jos.Ide.{Controller, ide_read, IdeRun}
use duke_operatingsystems.Jos.Loader.{Copying}
use duke_operatingsystems.Jos.Loader.Starting.{max_rw, Started, after_reading}

-- What is set up besides the program: the screen with all that was printed, the devices of the console when
-- `cons_init` returns, and the descriptor table.
pub record SetUp (Device : Type 0) : Type 0 where
  pub screen : Screen
  pub device : Device
  pub idt : Idt

-- The screen when `cga_init` has set the driver's variables.
abbrev pub started_screen : (cells : ℕ → ℕ) → Cga → Screen
started_screen cells cga = record {
  crt_buf = cells;
  crt_pos = cga.crt_pos;
  addr_6845 = cga.addr_6845;
  out = [];
}

-- The report of `cons_init` on the serial port.
unfoldable pub serial_report : Formatter → (serial_exists : Bool) → Screen → Screen
serial_report f serial_exists s =
    if serial_exists then s else (cprintf f "Serial port does not exist!\n" [] s).1

-- The report on the header of the program, behind `ide_read`.
unfoldable pub header_found :
    {State : Type 0} → Formatter → (binary : ℕ) → IdeRun State → Screen → Screen
header_found f binary IdeRun.stuck s = s
header_found f binary IdeRun.panicked s = s
header_found f binary (IdeRun.returned r mem d) s =
    if e_magic mem binary == elf_magic then (cprintf f "I found the ELF header!" [] s).1 else s

-- The characters that are printed up to the start of the program.
abbrev pub start_chars : Formatter → (serial_exists : Bool) → List ℕ
start_chars f serial_exists =
    ((if serial_exists then [] else f.chars "Serial port does not exist!\n" [])
      ++ f.chars "OS Started!\n" [])
    ++ f.chars "I found the ELF header!" []

module _ {State Device : Type 0} (controller : Controller State) (copying : Copying) (f : Formatter)
    (ports : Ports Device) (video : Video Device) (hs : Handlers) where
  -- `cells` are the cells of the screen.
  unfoldable pub i386_init :
      (polls fuel edata end binary : ℕ)
      → Trapframe
      → Idt
      → Bytes
      → (cells : ℕ → ℕ) → Device
      → State
      → SetUp Device × Started State
  i386_init polls fuel edata end binary ntrap idt mem cells d s =
      let mem1 = copying.memset edata 0 (end - edata) mem in
      let (cga, serial_exists, d1, calls) = cons_init ports video d in
      let screen1 = serial_report f serial_exists (started_screen cells cga) in
      let screen2 = (cprintf f "OS Started!\n" [] screen1).1 in
      let read = ide_read controller polls 2000 binary max_rw mem1 s in
      (
        record { screen = header_found f binary read screen2; device = d1; idt = trap_init hs idt },
        after_reading controller copying fuel binary ntrap read,
      )
