-- ===== src/Jos/Console/Strokes.antt =====
-- kern/console.c: a key that is pressed and released.
use duke_operatingsystems.Common.{
  Bool, List, [], bit_and, bit_xor, false, refl, true, true_below, ℕ, ◌+◌, ◌==◌, ◌||◌, ◌∷◌, ◌≡◌,
  not, ◌<◌, ◌&&◌, ◌<◌, ◌<◌, ◌++◌, ◌<◌, ◌≢◌, ◌≢◌, ltb, arith, ◌∙◌, true_below_at, ap, ne→==,
}
use duke_operatingsystems.Jos.Console.Keymap.{shiftcode, togglecode}
use duke_operatingsystems.Jos.Console.Keyboard.{kbd_proc_data, key_pressed}

-- The modifier state after the bytes that the keyboard sends, in order.
unfoldable pub typed : List ℕ → ℕ → ℕ
unfolding kbd_proc_data
typed [] shift = shift
typed (scan ∷ more) shift = typed more (kbd_proc_data 0x01 scan shift).shift

-- What the keyboard sends for one key: 0xE0 comes first where the key has an escape code.
abbrev pub stroke : (escaped : Bool) (scan : ℕ) → List ℕ
stroke false scan = scan ∷ (0x80 + scan) ∷ []
stroke true scan = 0xE0 ∷ scan ∷ 0xE0 ∷ (0x80 + scan) ∷ []

-- The number of the key in the tables.
abbrev pub key : (escaped : Bool) (scan : ℕ) → ℕ
key false scan = scan
key true scan = 0x80 + scan

abbrev returns : Bool → ℕ → ℕ → Bool
returns escaped scan shift =
    not (bit_and shift (shiftcode (key escaped scan)) == 0)
    || typed (stroke escaped scan) shift == bit_xor shift (togglecode (key escaped scan))

strokes_table :
    (escaped : Bool)
    → true_below (λ scan. (scan == 0x60) || true_below (returns escaped scan) 64) 128 ≡ true
unfolding true_below typed kbd_proc_data key_pressed shiftcode togglecode
strokes_table true = refl
strokes_table false = refl

key-lt : (escaped : Bool) (scan : ℕ) → scan < 128 → key escaped scan < 256
key-lt true scan lt = omega (arith, lt)
key-lt false scan lt = omega (arith, lt)

abbrev toggles_back : ℕ → ℕ → Bool
toggles_back code shift =
    not (bit_and shift (shiftcode code) == 0)
    || ((bit_xor (bit_xor shift (togglecode code)) (togglecode code) == shift)
        && (ltb (bit_xor shift (togglecode code)) 64
            && (bit_and (bit_xor shift (togglecode code)) (shiftcode code) == 0)))

toggles_table : true_below (λ code. true_below (toggles_back code) 64) 256 ≡ true
unfolding true_below shiftcode togglecode
toggles_table = refl

-- The three facts of the second table.
toggled_lem :
    (code shift : ℕ)
    → code < 256
    → shift < 64
    → bit_and shift (shiftcode code) ≡ 0
    → (bit_xor (bit_xor shift (togglecode code)) (togglecode code) ≡ shift)
      × (bit_xor shift (togglecode code) < 64)
      × (bit_and (bit_xor shift (togglecode code)) (shiftcode code) ≡ 0)
toggled_lem code shift code_lt lt up =
    let t =
      true_below_at (toggles_back code) shift 64 lt
        (true_below_at (λ c. true_below (toggles_back c) 64) code 256 code_lt toggles_table) in
    parts (bit_and shift (shiftcode code))
      (bit_xor (bit_xor shift (togglecode code)) (togglecode code))
      (bit_xor shift (togglecode code)) (bit_and (bit_xor shift (togglecode code)) (shiftcode code))
      shift up t
  where
    parts :
        (held back now held_now shift : ℕ)
        → held ≡ 0
        → (not (held == 0) || ((back == shift) && (ltb now 64 && (held_now == 0)))) ≡ true
        → (back ≡ shift) × (now < 64) × (held_now ≡ 0)
    parts held back now held_now shift e h = ground (arith, e, h)

once :
    (escaped : Bool) (scan shift : ℕ)
    → scan < 128
    → scan ≢ 0x60
    → shift < 64
    → bit_and shift (shiftcode (key escaped scan)) ≡ 0
    → typed (stroke escaped scan) shift ≡ bit_xor shift (togglecode (key escaped scan))
once escaped scan shift scan_lt ne lt up =
    let row =
      true_below_at (λ s. (s == 0x60) || true_below (returns escaped s) 64) scan 128 scan_lt
        (strokes_table escaped) in
    let t =
      true_below_at (returns escaped scan) shift 64 lt (ground (arith, row, ne→== scan 0x60 ne)) in
    equal (bit_and shift (shiftcode (key escaped scan))) (typed (stroke escaped scan) shift)
      (bit_xor shift (togglecode (key escaped scan))) up t
  where
    equal : (held a b : ℕ) → held ≡ 0 → (not (held == 0) || (a == b)) ≡ true → a ≡ b
    equal held a b e h = ground (arith, e, h)

typed-append : (xs ys : List ℕ) (shift : ℕ) → typed (xs ++ ys) shift ≡ typed ys (typed xs shift)
unfolding typed
typed-append [] ys shift = refl
typed-append (x ∷ xs) ys shift = typed-append xs ys (kbd_proc_data 0x01 x shift).shift

-- A key whose scan code is below 0x80 and not 0x60, escaped or not, that is pressed and released while its modifier is up and no escape
-- is open changes the modifier state by its toggle alone; struck a second time it gives the state back.
pub typed-stroke :
    (escaped : Bool) (scan shift : ℕ)
    → scan < 128
    → scan ≢ 0x60
    → shift < 64
    → bit_and shift (shiftcode (key escaped scan)) ≡ 0
    → (typed (stroke escaped scan) shift ≡ bit_xor shift (togglecode (key escaped scan)))
      × (typed (stroke escaped scan ++ stroke escaped scan) shift ≡ shift)
typed-stroke escaped scan shift scan_lt ne lt up =
    let (back, lt', up') =
      toggled_lem (key escaped scan) shift (key-lt escaped scan scan_lt) lt up in
    let first = once escaped scan shift scan_lt ne lt up in
    (
      first,
      typed-append (stroke escaped scan) (stroke escaped scan) shift
          ∙ ap (typed (stroke escaped scan)) first
          ∙ once escaped scan (bit_xor shift (togglecode (key escaped scan))) scan_lt ne lt' up'
          ∙ back,
    )
