-- ===== src/Pager/Fifo.antt =====
-- What the pager promises: the resident pages are a queue, the page loaded last first, and a fault on a
-- full memory unmaps the page loaded first.
use duke_operatingsystems.Pager.Handler.{Pager}
use duke_operatingsystems.Common.{
  Bool, List, Option, [], ap, arith, get_or, if◌then◌else◌, length, ltb, none, refl, some, suc,
  true, zero, ℕ, ◌-◌, ◌<◌, ◌∷◌, ◌≡◌, ◌≤◌,
}

abbrev pub take {ℓ} : {A : Type ℓ} → ℕ → List A → List A
take zero xs = []
take (suc n) [] = []
take (suc n) (x ∷ xs) = x ∷ take n xs

-- The queue after a fault on `page`.
unfoldable pub loaded : ℕ → ℕ → List ℕ → List ℕ
loaded max_pages page pages = take max_pages (page ∷ pages)

-- The page that makes room.
unfoldable pub victim : ℕ → List ℕ → Option ℕ
victim max_pages pages =
    if ltb (length pages) max_pages then none else some (get_or pages (max_pages - 1) 0)

pub length-take {ℓ} : {A : Type ℓ} (n : ℕ) (xs : List A) → n ≤ length xs → length (take n xs) ≡ n
length-take zero xs le = refl
length-take (suc n) [] le = absurd (omega arith)
length-take (suc n) (x ∷ xs) le = ap suc (length-take n xs (omega arith))

pub take-all {ℓ} : {A : Type ℓ} (n : ℕ) (xs : List A) → length xs ≤ n → take n xs ≡ xs
take-all zero [] le = refl
take-all zero (x ∷ xs) le = absurd (omega arith)
take-all (suc n) [] le = refl
take-all (suc n) (x ∷ xs) le = ap (λ t. x ∷ t) (take-all n xs (omega arith))

pub get_or-take {ℓ} :
    {A : Type ℓ} (n : ℕ) (xs : List A) (i : ℕ) (d : A)
    → i < n
    → get_or (take n xs) i d ≡ get_or xs i d
get_or-take zero xs i d lt = absurd (omega arith)
get_or-take (suc n) [] i d lt = refl
get_or-take (suc n) (x ∷ xs) zero d lt = refl
get_or-take (suc n) (x ∷ xs) (suc i) d lt = get_or-take n xs i d (omega arith)

-- The slots of the resident pages: `slot j` holds the page at position j of the queue, and the life of
-- a slot is the position of its page.
pub record Slots (life : ℕ → ℕ) (name : ℕ → Option ℕ) (pages : List ℕ) (slot : ℕ → ℕ) : Type 0 where
  pub slot-lt : (j : ℕ) → j < length pages → slot j < length pages
  pub life-lt : (i : ℕ) → i < length pages → life i < length pages
  pub life-slot : (j : ℕ) → j < length pages → life (slot j) ≡ j
  pub slot-life : (i : ℕ) → i < length pages → slot (life i) ≡ i
  pub named : (i : ℕ) → i < length pages → name i ≡ some (get_or pages (life i) 0)

-- The pages of the queue, no page twice, are the mapped ones.
pub record Resident (mapped : ℕ → Bool) (pages : List ℕ) : Type 0 where
  pub apart :
      (i j : ℕ) → i < length pages → j < length pages → get_or pages i 0 ≡ get_or pages j 0 → i ≡ j
  pub is_mapped : (j : ℕ) → j < length pages → mapped (get_or pages j 0) ≡ true
  pub is_listed : (p : ℕ) → mapped p ≡ true → (j : ℕ) × (j < length pages) × (get_or pages j 0 ≡ p)

-- The pager keeps the queue `pages`.
pub record Keeps (s : Pager) (pages : List ℕ) : Type 0 where
  pub fits : length pages ≤ s.max_pages
  pub filling : length pages < s.max_pages → s.totcount ≡ length pages
  pub full : length pages ≡ s.max_pages → s.max_pages ≤ s.totcount
  pub free : (i : ℕ) → length pages ≤ i → i < s.max_pages → s.namearr i ≡ none
  pub slot : ℕ → ℕ
  pub slots : Slots s.lifearr s.namearr pages slot
  pub resident : Resident s.mapped pages
