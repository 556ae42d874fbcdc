-- ===== src/Jos/Boot/Entering.antt =====
-- boot/main.c: `bootmain` from the read of the header to the entry of the kernel.
use duke_operatingsystems.Common.{if◌then◌else◌, ◌-◌}
use duke_operatingsystems.Jos.Elf.{Bytes, word, half, within}
use duke_operatingsystems.Jos.Boot.{elfhdr, putchar}
use duke_operatingsystems.Jos.Boot.Kernel.{parts}

-- Memory when the loop begins: the header's page, and three characters on the screen.
abbrev pub with_header : Bytes → Bytes → Bytes
with_header image mem a = if within a elfhdr 4096 then image (a - elfhdr) else mem a

abbrev pub at_loop : Bytes → Bytes → Bytes
at_loop image mem =
    putchar b'3' 23 2 (putchar b'2' 23 1 (with_header image (putchar b'1' 23 0 mem)))

-- The same when the kernel is entered.
abbrev pub at_entry : Bytes → Bytes → Bytes
at_entry image mem =
    putchar b'4' 23 3 (λ a. parts image (word image 28) (half image 44) (at_loop image mem a) a)
