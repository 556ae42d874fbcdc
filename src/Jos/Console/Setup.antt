-- ===== src/Jos/Console/Setup.antt =====
-- kern/console.c: `cga_init` and `cons_init`, over ports and a video memory that are parameters.
use duke_operatingsystems.Common.{
  Bool, List, [], ap, arith, bit_or, eq→==, false, if◌then◌else◌, ne→==, not, refl, sym, true,
  true_below, true_below_at, u16, ℕ, ◌%◌, ◌*◌, ◌+◌, ◌/◌, ◌<◌, ◌==◌, ◌^◌, ◌∙◌, ◌∷◌, ◌≡◌, ◌≢◌, ==→eq,
}
use mathlib.Core.Path.{subst}
use duke_operatingsystems.Jos.Printing.{Call, say}
use duke_operatingsystems.Jos.Console.Devices.{Ports, serial_init}

abbrev pub cga_base : ℕ
cga_base = 0x3D4

abbrev pub mono_base : ℕ
mono_base = 0x3B4

abbrev pub cga_buf : ℕ
cga_buf = 0xB8000

abbrev pub mono_buf : ℕ
mono_buf = 0xB0000

-- The cells of the video memory, which is volatile: a read may change the device.
pub record Video (State : Type 0) : Type 0 where
  pub load : ℕ → State → ℕ × State
  pub store : (cell value : ℕ) → State → State

-- The driver's variables for the screen.
pub record Cga : Type 0 where
  pub addr_6845 : ℕ
  pub crt_buf : ℕ
  pub crt_pos : ℕ

module _ {State : Type 0} (ports : Ports State) (video : Video State) where
  -- The first half of `cga_init`: whether the cell holds what is written to it.
  unfoldable pub probe : State → Bool × State
  probe d =
      let (was, d1) = video.load cga_buf d in
      let (is, d2) = video.load cga_buf (video.store cga_buf 0xA55A d1) in
      if not (is == 0xA55A) then (false, d2) else (true, video.store cga_buf was d2)

  -- The second half: the location of the cursor.
  unfoldable pub cursor_location : ℕ → State → ℕ × State
  cursor_location addr_6845 d =
      let (high, d1) = ports.inb (addr_6845 + 1) (ports.outb addr_6845 14 d) in
      let (low, d2) = ports.inb (addr_6845 + 1) (ports.outb addr_6845 15 d1) in
      (bit_or (high * 2 ^ 8) low, d2)

  unfoldable pub cga_init : State → Cga × State
  cga_init d =
      let (color, d1) = probe d in
      let addr = if color then cga_base else mono_base in
      let (pos, d2) = cursor_location addr d1 in
      (
        record {
          addr_6845 = addr;
          crt_buf = (if color then cga_buf else mono_buf);
          crt_pos = u16 pos;
        },
        d2,
      )

  -- The driver's variables, the devices, and what is printed.
  unfoldable pub cons_init : State → Cga × Bool × State × List Call
  cons_init d =
      let (cga, d1) = cga_init d in
      let (serial_exists, d2) = serial_init ports d1 in
      (
        cga,
        serial_exists,
        d2,
        (if not serial_exists then say "Serial port does not exist!\n" ∷ [] else []),
      )

-- An adapter, in color or not: its first cell, and the cursor in its registers 14 and 15.
pub record IsAdapter {State : Type 0} (ports : Ports State) (video : Video State) (color : Bool)
    (base : ℕ) : Type 0 where
  pub cell : State → ℕ
  pub cursor : State → ℕ
  pub cell-lt : (d : State) → cell d < 2 ^ 16
  pub cursor-lt : (d : State) → cursor d < 2 ^ 16
  -- A color adapter keeps what is stored in the cell, and with another one nothing is there.
  pub kept :
      color ≡ true
      → (d : State) → ((video.load cga_buf d).0 ≡ cell d) × (cell (video.load cga_buf d).1 ≡ cell d)
  pub stored : color ≡ true → (v : ℕ) (d : State) → v < 2 ^ 16 → cell (video.store cga_buf v d) ≡ v
  pub deaf : color ≡ false → (d : State) → (video.load cga_buf d).0 ≢ 0xA55A
  pub load-cursor : (d : State) → cursor (video.load cga_buf d).1 ≡ cursor d
  pub store-cursor : (v : ℕ) (d : State) → cursor (video.store cga_buf v d) ≡ cursor d
  pub high : (d : State) → (ports.inb (base + 1) (ports.outb base 14 d)).0 ≡ cursor d / 256
  pub low : (d : State) → (ports.inb (base + 1) (ports.outb base 15 d)).0 ≡ cursor d % 256
  pub selected :
      (i : ℕ) (d : State)
      → (cursor (ports.inb (base + 1) (ports.outb base i d)).1 ≡ cursor d)
        × (cell (ports.inb (base + 1) (ports.outb base i d)).1 ≡ cell d)

bytes_table : true_below (λ h. true_below (λ l. bit_or (h * 2 ^ 8) l == h * 256 + l) 256) 256 ≡ true
unfolding true_below
bytes_table = refl

bytes_lem : (n : ℕ) → n < 2 ^ 16 → bit_or (n / 256 * 2 ^ 8) (n % 256) ≡ n
bytes_lem n lt =
    ==→eq (bit_or (n / 256 * 2 ^ 8) (n % 256)) (n / 256 * 256 + n % 256) (
      true_below_at (λ l. bit_or (n / 256 * 2 ^ 8) l == n / 256 * 256 + l) (n % 256) 256
        (omega arith)
        (true_below_at (λ h. true_below (λ l. bit_or (h * 2 ^ 8) l == h * 256 + l) 256) (n / 256)
          256 (omega (arith, lt)) bytes_table))
    ∙ omega arith

module _ {State : Type 0} (ports : Ports State) (video : Video State) where
  -- What the probe finds out, and that it leaves the first cell and the cursor as they were.
  Probed :
      {color : Bool} {base : ℕ} → IsAdapter ports video color base → State → Bool × State → Type 0
  Probed {color} is d r =
      (r.0 ≡ color) × (color ≡ true → is.cell r.1 ≡ is.cell d) × (is.cursor r.1 ≡ is.cursor d)

  probe_lem :
      (color : Bool) (base : ℕ) (is : IsAdapter ports video color base) (d : State)
      → Probed is d (probe ports video d)
  unfolding probe Probed
  probe_lem true base is d =
      let d1 = (video.load cga_buf d).1 in
      let d2 = video.store cga_buf 0xA55A d1 in
      let r = video.load cga_buf d2 in
      let was = (video.load cga_buf d).0 in
      let found : r.0 ≡ 0xA55A = (is.kept refl d2).0 ∙ is.stored refl 0xA55A d1 (omega arith) in
      let same : was ≡ is.cell d = (is.kept refl d).0 in
      subst (λ b. Probed is d (if not b then (false, r.1) else (true, video.store cga_buf was r.1)))
        (sym (eq→== r.0 0xA55A found))
        (
          refl,
          (λ _. is.stored refl was r.1 (omega (arith, same, is.cell-lt d)) ∙ same),
          is.store-cursor was r.1
              ∙ is.load-cursor d2
              ∙ is.store-cursor 0xA55A d1
              ∙ is.load-cursor d,
        )
  probe_lem false base is d =
      let d1 = (video.load cga_buf d).1 in
      let d2 = video.store cga_buf 0xA55A d1 in
      let r = video.load cga_buf d2 in
      let was = (video.load cga_buf d).0 in
      subst (λ b. Probed is d (if not b then (false, r.1) else (true, video.store cga_buf was r.1)))
        (sym (ne→== r.0 0xA55A (is.deaf refl d2)))
        (
          refl,
          (λ e. absurd (ground (arith, e))),
          is.load-cursor d2 ∙ is.store-cursor 0xA55A d1 ∙ is.load-cursor d,
        )

  cursor_location_lem :
      (color : Bool) (base : ℕ) (is : IsAdapter ports video color base) (d : State)
      → ((cursor_location ports video base d).0 ≡ is.cursor d)
        × (is.cell (cursor_location ports video base d).1 ≡ is.cell d)
  unfolding cursor_location
  cursor_location_lem color base is d =
      let d1 = (ports.inb (base + 1) (ports.outb base 14 d)).1 in
      let low = is.low d1 ∙ ap (λ n. n % 256) (is.selected 14 d).0 in
      (
        ap (λ h. bit_or (h * 2 ^ 8) (ports.inb (base + 1) (ports.outb base 15 d1)).0) (is.high d)
            ∙ ap (λ l. bit_or (is.cursor d / 256 * 2 ^ 8) l) low
            ∙ bytes_lem (is.cursor d) (is.cursor-lt d),
        (is.selected 15 d1).1 ∙ (is.selected 14 d).1,
      )

  -- With an adapter, in color or not, `cga_init` finds out which one it is, takes over the cursor that its registers hold, and a color
  -- adapter has its first cell back as it was.
  pub cga_init_lem :
      (color : Bool) (is : IsAdapter ports video color (if color then cga_base else mono_base))
      (d : State)
      → ((cga_init ports video d).0.addr_6845 ≡ (if color then cga_base else mono_base))
        × ((cga_init ports video d).0.crt_buf ≡ (if color then cga_buf else mono_buf))
        × ((cga_init ports video d).0.crt_pos ≡ is.cursor d)
        × (color ≡ true → is.cell (cga_init ports video d).1 ≡ is.cell d)
  unfolding cga_init Probed
  cga_init_lem color is d =
      let base = if color then cga_base else mono_base in
      let (found, back, same) = probe_lem color base is d in
      let d1 = (probe ports video d).1 in
      let (pos, cell) = cursor_location_lem color base is d1 in
      let addr : (if (probe ports video d).0 then cga_base else mono_base) ≡ base =
        ap (λ (b : Bool). if b then cga_base else mono_base) found in
      (
        addr,
        ap (λ (b : Bool). if b then cga_buf else mono_buf) found,
        ap (λ a. u16 (cursor_location ports video a d1).0) addr
            ∙ ap u16 (pos ∙ same)
            ∙ omega (arith, is.cursor-lt d),
        λ e. ap (λ a. is.cell (cursor_location ports video a d1).1) addr ∙ cell ∙ back e,
      )
