-- ===== src/Jos/Console/Devices/Polling.antt =====
-- What `cons_getc` makes of the characters that its devices give.
use duke_operatingsystems.Common.{
  List, Option, [], ap, arith, false, if◌then◌else◌, inl, inr, length, length-append, none, refl,
  some, suc, sym, true, zero, ℕ, ◌++◌, ◌<◌, ◌==◌, ◌∙◌, ◌∷◌, ◌≡◌, ◌⊎◌,
}
use duke_operatingsystems.Jos.Console.{Cons, cons_put, cons_take, cons_intr}
use duke_operatingsystems.Jos.Console.Ring.{
  IsRing, contents, characters, cons_intr-contents, cons_take-contents,
}
use duke_operatingsystems.Jos.Console.Devices.{
  Ports, Console, serial_proc_data, kbd_poll, cons_intr_on, serial_intr, kbd_intr, console_getc,
}

-- From s on a device gives the characters, and then says that it has no more.
abbrev pub Gives : {S : Type 0} → (S → Option ℕ × S) → List ℕ → S → S → Type 0
Gives proc [] s s' = proc s ≡ (none, s')
Gives {S} proc (c ∷ cs) s s' = (s1 : S) × (proc s ≡ (some c, s1)) × Gives proc cs s1 s'

cons_intr_on_lem :
    {S : Type 0} (proc : S → Option ℕ × S) (cs : List ℕ) (fuel : ℕ) (s s' : S) (c : Cons)
    → length cs < fuel
    → Gives proc cs s s'
    → cons_intr_on proc fuel s c ≡ some (s', cons_intr cs c)
unfolding cons_intr_on cons_intr
cons_intr_on_lem proc cs zero s s' c lt h = absurd (omega (arith, lt))
cons_intr_on_lem proc [] (suc fuel) s s' c lt h =
    rw (cons_intr_on, ap (λ r. r.0) h) (ap (λ r. some (r.1, c)) h)
cons_intr_on_lem proc (x ∷ cs) (suc fuel) s s' c lt (s1, e, h) =
    rw (cons_intr_on, ap (λ r. r.0) e)
      (ap (λ st. cons_intr_on proc fuel st (if x == 0 then c else cons_put x c)) (ap (λ r. r.1) e)
        ∙ cons_intr_on_lem proc cs fuel s1 s' (if x == 0 then c else cons_put x c)
            (omega (arith, lt)) h)

module _ {State : Type 0} (ports : Ports State) where
  -- The serial port gives nothing if there is none.
  abbrev pub SerialGives : List ℕ → Console State → State → Type 0
  SerialGives cs k d =
      ((k.serial_exists ≡ true) × Gives (serial_proc_data ports) cs k.device d)
      ⊎ ((k.serial_exists ≡ false) × (cs ≡ []) × (k.device ≡ d))

  serial_intr_lem :
      (cs : List ℕ) (fuel : ℕ) (k : Console State) (d : State)
      → length cs < fuel
      → SerialGives cs k d
      → serial_intr ports fuel k ≡ some (record k { device = d; cons = cons_intr cs k.cons })
  unfolding serial_intr cons_intr
  serial_intr_lem cs fuel k d lt (inl (e, h)) =
      ap
        (λ b.
          if b then polled (cons_intr_on (serial_proc_data ports) fuel k.device k.cons) else some k)
        e
      ∙ ap polled (cons_intr_on_lem (serial_proc_data ports) cs fuel k.device d k.cons lt h)
    where
      polled : Option (State × Cons) → Option (Console State)
      polled r = elim r [ none ↦ none | some x ↦ some (record k { device = x.0; cons = x.1 }) ]
  serial_intr_lem cs fuel k d lt (inr (e, f, g)) =
      ap (λ b. if b then polled else some k) e ∙ rw (f, sym g) refl
    where
      polled : Option (Console State)
      polled = elim (cons_intr_on (serial_proc_data ports) fuel k.device k.cons) [
        | none ↦ none
        | some r ↦ some (record k { device = r.0; cons = r.1 })
      ]

  kbd_intr_lem :
      (cs : List ℕ) (fuel : ℕ) (k : Console State) (d : State) (shift : ℕ)
      → length cs < fuel
      → Gives (kbd_poll ports) cs (k.device, k.shift) (d, shift)
      → kbd_intr ports fuel k
        ≡ some (record k { device = d; shift = shift; cons = cons_intr cs k.cons })
  unfolding kbd_intr
  kbd_intr_lem cs fuel k d shift lt h =
      rw
        (
          kbd_intr,
          cons_intr_on_lem (kbd_poll ports) cs fuel (k.device, k.shift) (d, shift) k.cons lt h,
        )
        refl

  -- With fuel for the characters of both devices, and room for them in the ring: `cons_getc` ends, and gives
  -- the oldest of the characters that wait, those of the serial port and those of the keyboard, in this
  -- order; the others wait. If there is none it gives 0.
  pub console_getc-contents :
      (serial kbd : List ℕ) (fuel : ℕ) (k : Console State) (d d' : State) (shift : ℕ)
      → length serial < fuel
      → length kbd < fuel
      → SerialGives serial k d
      → Gives (kbd_poll ports) kbd (d, k.shift) (d', shift)
      → IsRing k.cons
      → length ((contents k.cons ++ characters serial) ++ characters kbd) < 512
      → (c : ℕ) × (k' : Console State) × (console_getc ports fuel k ≡ some (c, k'))
        × IsRing k'.cons
        × ((c ∷ contents k'.cons ≡ (contents k.cons ++ characters serial) ++ characters kbd)
            ⊎ (((contents k.cons ++ characters serial) ++ characters kbd ≡ [])
                × (c ≡ 0)
                × (contents k'.cons ≡ [])))
  unfolding console_getc
  console_getc-contents serial kbd fuel k d d' shift ls lk gs gk ring room =
      let k1 : Console State = record k { device = d; cons = cons_intr serial k.cons } in
      let k2 : Console State = record k1 {
        device = d';
        shift = shift;
        cons = cons_intr kbd k1.cons;
      } in
      let (r1, e1) = cons_intr-contents serial k.cons ring (
        omega
          (arith, room, length-append (contents k.cons ++ characters serial) (characters kbd))) in
      let (r2, e2) = cons_intr-contents kbd k1.cons r1 (rw e1 room) in
      let all = e2 ∙ ap (λ l. l ++ characters kbd) e1 in
      let (r3, taken) = cons_take-contents k2.cons r2 in
      (
        (cons_take k2.cons).0,
        record k2 { cons = (cons_take k2.cons).1 },
        rw
            (
              console_getc,
              serial_intr_lem serial fuel k d ls gs,
              kbd_intr_lem kbd fuel k1 d' shift lk gk,
            )
            refl,
        r3,
        elim taken [
          | inl e ↦ inl (e ∙ all)
          | inr (e, f) ↦ inr (sym all ∙ e, ap (λ x. x.0) f, ap (λ x. contents x.1) f ∙ e)
        ],
      )
