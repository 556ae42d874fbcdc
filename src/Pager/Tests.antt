-- ===== src/Pager/Tests.antt =====
-- The pager on concrete faults.
use duke_operatingsystems.Pager.Refines.{handler-loaded, IsServed}
use duke_operatingsystems.Pager.Bounds.{initialize_forth-Keeps}
use duke_operatingsystems.Pager.Fifo.{Keeps, victim, loaded}
use duke_operatingsystems.Pager.Contents.{
  Call, opened, wrote_last, closed, mmapped, munmapped, PageFiles, Access, reads, writes, accesses,
  flat_accesses,
}
use duke_operatingsystems.Pager.Contents.Paged.{accesses-flat, first_bytes}
use duke_operatingsystems.Pager.Handler.{
  handler, distance, initialize_forth, Os, Pager, is_outside, resumed,
}
use duke_operatingsystems.Common.{
  List, Option, [], ap, arith, false, if◌then◌else◌, none, refl, some, true, update, ℕ, ◌&&◌, ◌*◌,
  ◌+◌, ◌/◌, ◌<◌, ◌==◌, ◌∷◌, ◌≡◌,
}

abbrev working : Os
working = record {
  pagesiz = 4096;
  can_munmap = λ p. true;
  can_mmap = λ p. true;
  open_page = λ p. 3;
}

-- The globals at the start of the program.
abbrev started : Pager
started = record {
  totcount = 0;
  max_pages = 0;
  lifearr = λ i. 0;
  namearr = λ i. none;
  loadarr = λ i. false;
  fdarr = λ i. 0;
  mapped = λ p. false;
}

abbrev two_pages : Pager
two_pages = record started { max_pages = 2; loadarr = λ z. false }

page_five_run : distance 0xf9f91010 ≡ 5 * 4096 + 16
unfolding distance
page_five_run = refl

page_five_IsServed : IsServed working (initialize_forth 2 started) 0xf9f91010
unfolding distance is_outside initialize_forth
page_five_IsServed = record {
  inside = refl;
  page_lt = omega arith;
  missing = refl;
  unmaps = λ p. refl;
  maps = λ p. refl;
}

two_at_most : 0 < (initialize_forth 2 started).max_pages
unfolding initialize_forth
two_at_most = omega arith

handler-loaded_example :
    (s' : Pager) × (handler working 0xf9f91010 (initialize_forth 2 started)
      ≡ resumed 0xf9f91010
          (distance 0xf9f91010 / working.pagesiz)
          (victim (initialize_forth 2 started).max_pages [])
          s')
    × Keeps s'
        (loaded (initialize_forth 2 started).max_pages (distance 0xf9f91010 / working.pagesiz) [])
    × (s'.max_pages ≡ (initialize_forth 2 started).max_pages)
handler-loaded_example =
    handler-loaded working 0xf9f91010 (initialize_forth 2 started) []
      (initialize_forth-Keeps 2 started (omega arith) refl (λ p le. refl)) two_at_most
      page_five_IsServed

-- A kernel: the bytes of the files, and the file that each page shows.
record Machine : Type 0 where
  files : ℕ → ℕ → ℕ
  shows : ℕ → Option ℕ

abbrev after_call : Call → Machine → Machine
after_call (opened p) w = w
after_call (wrote_last p) w = record w {
  files = λ g i. if (p == g) && (4095 == i) then 0 else w.files g i;
}
after_call (closed p) w = w
after_call (mmapped p f) w = record w { shows = update w.shows p (some f) }
after_call (munmapped none) w = w
after_call (munmapped (some p)) w = record w { shows = update w.shows p none }

abbrev loaded_byte : Option ℕ → Machine → ℕ → ℕ
loaded_byte none w o = 0
loaded_byte (some f) w o = w.files f o

abbrev stored_byte : Option ℕ → Machine → ℕ → ℕ → Machine
stored_byte none w o v = w
stored_byte (some f) w o v = record w {
  files = λ g i. if (f == g) && (o == i) then v else w.files g i;
}

shows-stored_byte :
    (x : Option ℕ) (w : Machine) (o v q : ℕ) → (stored_byte x w o v).shows q ≡ w.shows q
shows-stored_byte none w o v q = refl
shows-stored_byte (some f) w o v q = refl

files-munmapped :
    (p : Option ℕ) (w : Machine) (g i : ℕ) → (after_call (munmapped p) w).files g i ≡ w.files g i
files-munmapped none w g i = refl
files-munmapped (some p) w g i = refl

abbrev machine : PageFiles 4096
machine = record {
  Files = Machine;
  call = after_call;
  load = λ w p o. loaded_byte (w.shows p) w o;
  store = λ w p o v. stored_byte (w.shows p) w o v;
  content = λ w. w.files;
  mapping = λ w. w.shows;
  load-content = λ w p f o e. ap (λ x. loaded_byte x w o) e;
  store-content = λ w p f o v g i e. ap (λ x. (stored_byte x w o v).files g i) e;
  store-mapping = λ w p o v q. shows-stored_byte (w.shows p) w o v q;
  wrote-content = λ w p g i. refl;
  opened-content = λ w p g i. refl;
  closed-content = λ w p g i. refl;
  mmapped-content = λ w p f g i. refl;
  munmapped-content = λ w p g i. files-munmapped p w g i;
  wrote-mapping = λ w p q. refl;
  opened-mapping = λ w p q. refl;
  closed-mapping = λ w p q. refl;
  mmapped-mapping = λ w p f q. refl;
  munmapped-mapping = λ w p q. refl;
  munmapped_none-mapping = λ w q. refl;
}

abbrev blank : Machine
blank = record { files = λ g i. 7; shows = λ p. none }

-- Two pages with room for one: the first is taken away and loaded again.
abbrev back_and_forth : List Access
back_and_forth =
    writes 0xf9f8c010 5 ∷ writes 0xf9f8d010 6 ∷ reads 0xf9f8c010 ∷ reads 0xf9f8dfff ∷ []

accesses-flat_example :
    (s' : Pager) × (w' : Machine) × (accesses working machine 2 back_and_forth
        (initialize_forth 1 started)
        blank
      ≡ some (flat_accesses back_and_forth (first_bytes working blank.files), s', w'))
accesses-flat_example =
    accesses-flat working machine 1 started blank back_and_forth (omega arith)
      (record { size = refl; unmaps = λ p. refl; maps = λ p. refl }) (λ p lt. refl)
      (
        (omega arith, omega arith),
        (
          (omega arith, omega arith),
          ((omega arith, omega arith), ((omega arith, omega arith), tt)),
        ),
      )

back_and_forth_run :
    flat_accesses back_and_forth (first_bytes working blank.files) ≡ 0 ∷ 0 ∷ 5 ∷ 0 ∷ []
unfolding flat_accesses
back_and_forth_run = refl
