-- ===== src/Jos/Elf.antt =====
-- inc/elf.h: the fields of an ELF image in memory, which is a function from addresses to bytes.
use duke_operatingsystems.Common.{
  Bool, ap, arith, leb, ltb, refl, ℕ, ◌&&◌, ◌*◌, ◌+◌, ◌<◌, ◌^◌, ◌∙◌, ◌≡◌, ◌≤◌,
}

abbrev pub Bytes : Type 0
Bytes = ℕ → ℕ

abbrev pub elf_magic : ℕ
elf_magic = 0x464C457F

-- Numbers of 16 and 32 bits in memory.
abbrev pub half : Bytes → ℕ → ℕ
half mem a = mem a + 2 ^ 8 * mem (a + 1)

abbrev pub word : Bytes → ℕ → ℕ
word mem a = mem a + 2 ^ 8 * mem (a + 1) + 2 ^ 16 * mem (a + 2) + 2 ^ 24 * mem (a + 3)

-- struct Elf at an address
abbrev pub e_magic : Bytes → ℕ → ℕ
e_magic mem elf = word mem elf

abbrev pub e_entry : Bytes → ℕ → ℕ
e_entry mem elf = word mem (elf + 24)

abbrev pub e_phoff : Bytes → ℕ → ℕ
e_phoff mem elf = word mem (elf + 28)

abbrev pub e_phnum : Bytes → ℕ → ℕ
e_phnum mem elf = half mem (elf + 44)

-- Fields of a struct Proghdr at an address
abbrev pub p_offset : Bytes → ℕ → ℕ
p_offset mem ph = word mem (ph + 4)

abbrev pub p_pa : Bytes → ℕ → ℕ
p_pa mem ph = word mem (ph + 12)

abbrev pub p_memsz : Bytes → ℕ → ℕ
p_memsz mem ph = word mem (ph + 20)

abbrev pub within : (a start size : ℕ) → Bool
within a start size = leb start a && ltb a (start + size)

-- The image stands in memory at an address.
abbrev pub Holds : (image : Bytes) (binary size : ℕ) (mem : Bytes) → Type 0
Holds image binary size mem = (i : ℕ) → i < size → mem (binary + i) ≡ image i

module _ (image mem : Bytes) (binary size : ℕ) (holds : Holds image binary size mem) where
  read_at : (i j : ℕ) → i < size → j ≡ binary + i → mem j ≡ image i
  read_at i j lt e = ap mem e ∙ holds i lt

  pub half-Holds : (i : ℕ) → i + 2 ≤ size → half mem (binary + i) ≡ half image i
  half-Holds i le = omega (
    arith,
    read_at i (binary + i) (omega arith) refl,
    read_at (i + 1) (binary + i + 1) (omega arith) (omega arith),
  )

  pub word-Holds : (i : ℕ) → i + 4 ≤ size → word mem (binary + i) ≡ word image i
  word-Holds i le = omega (
    arith,
    read_at i (binary + i) (omega arith) refl,
    read_at (i + 1) (binary + i + 1) (omega arith) (omega arith),
    read_at (i + 2) (binary + i + 2) (omega arith) (omega arith),
    read_at (i + 3) (binary + i + 3) (omega arith) (omega arith),
  )
