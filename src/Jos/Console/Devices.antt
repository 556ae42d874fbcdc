-- ===== src/Jos/Console/Devices.antt =====
-- kern/console.c: the serial port and the keyboard behind their ports, which are a parameter, and the
-- functions that poll them.
pub mod Polling
mod Tests
use Prim.Native.String.{String}
use duke_operatingsystems.Common.{
  Bool, Option, bit_and, if◌then◌else◌, none, not, some, suc, u8, zero, ℕ, ◌+◌, ◌-◌, ◌/◌, ◌==◌,
  ◌||◌,
}
use duke_operatingsystems.Jos.Console.{Cons, cons_put, cons_take}
use duke_operatingsystems.Jos.Console.Keyboard.{kbd_proc_data}

-- What the instructions do with the devices in a given state, and what a call of `cprintf` does, whose output goes
-- to the same ports (see Jos/Printf).
pub record Ports (State : Type 0) : Type 0 where
  pub inb : ℕ → State → ℕ × State
  pub outb : (port data_ : ℕ) → State → State
  pub cprintf : String → State → State

abbrev pub com1 : ℕ
com1 = 0x3F8

abbrev pub com_lsr : ℕ
com_lsr = 5

abbrev pub com_lsr_data : ℕ
com_lsr_data = 0x01

-- The devices with the driver's variables: the shift state of the keyboard, whether there is a serial port,
-- and the input ring.
pub record Console (State : Type 0) : Type 0 where
  pub device : State
  pub shift : ℕ
  pub serial_exists : Bool
  pub cons : Cons

-- `cons_intr` with the function that it is given, on fuel.
unfoldable pub cons_intr_on :
    {S : Type 0} → (S → Option ℕ × S) → (fuel : ℕ) → S → Cons → Option (S × Cons)
cons_intr_on proc zero s c = none
cons_intr_on proc (suc fuel) s c = elim (proc s).0 [
  | none ↦ some ((proc s).1, c)
  | some x ↦ cons_intr_on proc fuel (proc s).1 (if x == 0 then c else cons_put x c)
]

module _ {State : Type 0} (ports : Ports State) where
  -- `none` stands for -1.
  unfoldable pub serial_proc_data : State → Option ℕ × State
  serial_proc_data d =
      let (lsr, d1) = ports.inb (com1 + com_lsr) d in
      let (c, d2) = ports.inb com1 d1 in
      if bit_and lsr com_lsr_data == 0 then (none, d1) else (some c, d2)

  -- The data port is read only if there is data from the keyboard; Ctrl-Alt-Del says so and
  -- pulls the reset line.
  unfoldable pub kbd_poll : State × ℕ → Option ℕ × (State × ℕ)
  kbd_poll (d, shift) =
      let (stat, d1) = ports.inb 0x64 d in
      let (scan, d2) = ports.inb 0x60 d1 in
      let p = kbd_proc_data stat scan shift in
      if (bit_and stat 0x01 == 0) || not (bit_and stat 0x20 == 0) then (none, (d1, shift)) else (
        p.result,
        (if p.rebooted then ports.outb 0x92 0x3 (ports.cprintf "Rebooting!\n" d2) else d2, p.shift),
      )

  unfoldable pub serial_intr : ℕ → Console State → Option (Console State)
  serial_intr fuel k =
      if k.serial_exists
      then (elim (cons_intr_on serial_proc_data fuel k.device k.cons) [
        | none ↦ none
        | some r ↦ some (record k { device = r.0; cons = r.1 })
      ])
      else some k

  unfoldable pub kbd_intr : ℕ → Console State → Option (Console State)
  kbd_intr fuel k = elim (cons_intr_on kbd_poll fuel (k.device, k.shift) k.cons) [
    | none ↦ none
    | some r ↦ some (record k { device = r.0.0; shift = r.0.1; cons = r.1 })
  ]

  unfoldable pub console_getc : ℕ → Console State → Option (ℕ × Console State)
  console_getc fuel k = elim (serial_intr fuel k) [
    | none ↦ none
    | some k1 ↦ (elim (kbd_intr fuel k1) [
      | none ↦ none
      | some k2 ↦ some ((cons_take k2.cons).0, record k2 { cons = (cons_take k2.cons).1 })
    ])
  ]

  -- `polls` bounds the turns of its loop.
  unfoldable pub getchar : (polls fuel : ℕ) → Console State → Option (ℕ × Console State)
  getchar zero fuel k = none
  getchar (suc polls) fuel k = elim (console_getc fuel k) [
    | none ↦ none
    | some r ↦ (let rest = getchar polls fuel r.1 in if r.0 == 0 then rest else some r)
  ]

  unfoldable pub serial_init : State → Bool × State
  serial_init d =
      let d1 = ports.outb (com1 + 2) 0 d in
      let d2 = ports.outb (com1 + 3) 0x80 d1 in
      let d3 = ports.outb com1 (u8 (115200 / 9600)) d2 in
      let d4 = ports.outb (com1 + 1) 0 d3 in
      let d5 = ports.outb (com1 + 3) (bit_and 0x03 (0xff - 0x80)) d4 in
      let d6 = ports.outb (com1 + 4) 0 d5 in
      let d7 = ports.outb (com1 + 1) 0x01 d6 in
      let (lsr, d8) = ports.inb (com1 + com_lsr) d7 in
      let (iir, d9) = ports.inb (com1 + 2) d8 in
      let (rx, d10) = ports.inb com1 d9 in (not (lsr == 0xff), d10)
