-- ===== src/Jos/Loader/Starting.antt =====
-- kern/init.c: `i386_init` from the read of the disk to the start of the program.
use duke_operatingsystems.Jos.Elf.{Bytes, word, half, within, Holds}
use duke_operatingsystems.Jos.Descriptors.{IsUserFrame, initialize_new_trapframe-IsUserFrame}
use duke_operatingsystems.Common.{
  Bool-cases, ap, arith, if◌then◌else◌, inl, inr, ℕ, ◌*◌, ◌+◌, ◌-◌, ◌<◌, ◌∙◌, ◌≡◌, ◌≤◌,
}
use duke_operatingsystems.Jos.Traps.{Trapframe, initialize_new_trapframe}
use duke_operatingsystems.Jos.Ide.{Controller, ide_read, IdeRun}
use duke_operatingsystems.Jos.Ide.Protocol.{IsDisk}
use duke_operatingsystems.Jos.Ide.Sectors.{ide_read_lem}
use duke_operatingsystems.Jos.Loader.{Copying, Panic, Loaded, load_code}
use duke_operatingsystems.Jos.Loader.Image.{IsCopying, IsImage, table, placed_all}
use duke_operatingsystems.Jos.Loader.Loading.{load_code_lem}

abbrev pub max_rw : ℕ
max_rw = 255

-- The bytes that the kernel reads from the disk.
abbrev pub on_disk : Bytes → Bytes
on_disk disk i = disk (2000 * 512 + i)

-- How the kernel ends: in a wait, in a panic, or in the program's first instruction with its frame.
pub data Started (State : Type 0) : Type 0 where
  waits : Started State
  assertion_failed : Started State
  panics : Panic → Started State
  runs : Trapframe → Bytes → State → Started State

module _ {State : Type 0} (controller : Controller State) (copying : Copying) where
  unfoldable pub after_loading : Trapframe → State → Loaded → Started State
  after_loading ntrap s Loaded.stuck = waits
  after_loading ntrap s (Loaded.panicked p) = panics p
  after_loading ntrap s (Loaded.entry e mem) = runs (initialize_new_trapframe ntrap e) mem s

  unfoldable pub after_reading : (fuel binary : ℕ) → Trapframe → IdeRun State → Started State
  after_reading fuel binary ntrap IdeRun.stuck = waits
  after_reading fuel binary ntrap IdeRun.panicked = assertion_failed
  after_reading fuel binary ntrap (IdeRun.returned r mem s) =
      after_loading ntrap s (load_code copying fuel binary mem)

  -- What ide_read returns is not looked at.
  unfoldable pub start_program : (polls fuel binary : ℕ) → Trapframe → Bytes → State → Started State
  start_program polls fuel binary ntrap mem s =
      after_reading fuel binary ntrap (ide_read controller polls 2000 binary max_rw mem s)

  -- With a disk without a fault whose sectors from 2000 on hold a good image, and the buffer below 8MB:
  -- the program starts at its entry point in a frame whose selectors name flat user segments, and memory is the buffer with the image and
  -- then what its segments say.
  pub start_program_lem :
      (disk : Bytes) (polls fuel binary : ℕ) (ntrap : Trapframe) (mem : Bytes) (s : State)
      → let image = on_disk disk in
        IsDisk controller disk polls
        → IsCopying copying
        → binary + 512 * max_rw ≤ 0x800000
        → IsImage image (512 * max_rw) (half image 44)
        → half image 44 < fuel
        → (mem' : Bytes) × (s' : State) × (start_program polls fuel binary ntrap mem s
            ≡ runs (initialize_new_trapframe ntrap (word image 24)) mem' s')
          × IsUserFrame (initialize_new_trapframe ntrap (word image 24)) (word image 24)
          × ((a : ℕ)
              → mem' a
                ≡ placed_all image
                    (table image (word image 28) 0 (half image 44))
                    (if within a binary (512 * max_rw) then image (a - binary) else mem a)
                    a)
  unfolding start_program after_reading after_loading
  start_program_lem disk polls fuel binary ntrap mem s is_disk is_copying low ok enough =
      let image = on_disk disk in
      let (mem1, s1, read, loaded) =
        ide_read_lem controller disk polls 2000 binary max_rw mem s is_disk (omega arith)
          (omega arith) (omega arith) (omega (arith, low)) in
      let holds : Holds image binary (512 * max_rw) mem1 = λ i lt.
        loaded.inside (binary + i) (omega arith) (omega (arith, lt)) ∙ ap disk (omega arith) in
      let (mem2, load, bytes) =
        load_code_lem copying is_copying image binary (512 * max_rw) low fuel mem1 ok enough
          holds in
      let buffer : (a : ℕ)
          → mem1 a ≡ (if within a binary (512 * max_rw) then image (a - binary) else mem a) =
        λ a. elim (Bool-cases (within a binary (512 * max_rw))) [
          | inl t ↦ rw t (loaded.inside a (ground (arith, t)) (ground (arith, t)))
          | inr f ↦ rw f (loaded.outside a (ground (arith, f)))
        ] in
      (
        mem2,
        s1,
        ap (after_reading fuel binary ntrap) read ∙ ap (after_loading ntrap s1) load,
        initialize_new_trapframe-IsUserFrame ntrap (word image 24),
        λ a.
            bytes a
            ∙ ap (λ old. placed_all image (table image (word image 28) 0 (half image 44)) old a)
                (buffer a),
      )
