-- ===== src/Audit/Cutting.antt =====
-- tauceti_worker/audit_reader.py: cutting a text ends, and keeps every character.
use tau_ceti_worker.Prelude.{
  append_nil, append_assoc, ℕ, zero, suc, ◌+◌, ◌-◌, ◌<◌, ◌≤◌, leb, Bool, true, false, Option, none,
  some, List, [], ◌∷◌, ◌++◌, ◌≡◌, refl, arith, ap, sym, ◌∙◌, nat_eq, ◌==◌, if◌then◌else◌, length,
  drop,
}
use tau_ceti_worker.Audit.Pages.{
  empty_section, Text, Part, Section, width, take, after_newline, or_width, cut, section,
  with_first, sections_from, sections_of, sections_with, joined, all_sections,
}

abbrev pub text_or_empty : Option Text → Text
text_or_empty none = []
text_or_empty (some t) = t

-- The texts of sections, one after another.
unfoldable pub texts : List Section → Text
texts [] = []
texts (s ∷ ss) = text_or_empty s.text ++ texts ss

take_all : (n : ℕ) (xs : Text) → length xs ≤ n → take n xs ≡ xs
unfolding take
take_all zero [] h = refl
take_all zero (x ∷ xs) h = absurd (omega arith)
take_all (suc n) [] h = refl
take_all (suc n) (x ∷ xs) h = ap (λ ys. x ∷ ys) (take_all n xs (omega arith))

take-drop : (n : ℕ) (xs : Text) → take n xs ++ drop n xs ≡ xs
unfolding take
take-drop zero xs = refl
take-drop (suc n) [] = refl
take-drop (suc n) (x ∷ xs) = ap (λ ys. x ∷ ys) (take-drop n xs)

drop-nil : (n : ℕ) → drop {A = ℕ} n [] ≡ []
drop-nil zero = refl
drop-nil (suc n) = refl

suc_add : (m n : ℕ) → suc m + n ≡ suc (m + n)
suc_add m n = omega arith

drop-drop : (m n : ℕ) (xs : Text) → drop (m + n) xs ≡ drop n (drop m xs)
drop-drop zero n xs = ap (λ k. drop k xs) (omega arith)
drop-drop (suc m) n [] = drop-nil (suc m + n) ∙ sym (drop-nil n)
drop-drop (suc m) n (x ∷ xs) = step ∙ drop-drop m n xs
  where
    step : drop (suc m + n) (x ∷ xs) ≡ drop (suc (m + n)) (x ∷ xs)
    step = ap (λ k. drop k (x ∷ xs)) (suc_add m n)

length-drop : (n : ℕ) (xs : Text) → length (drop n xs) ≡ length xs - n
length-drop zero xs = omega arith
length-drop (suc n) [] = omega arith
length-drop (suc n) (x ∷ xs) = omega (arith, length-drop n xs)

or_width-positive : (n : ℕ) → 0 < or_width n
or_width-positive n = ground arith

other_positive :
    (b : Bool) (n k : ℕ) → ((if b then n else k) == n) ≡ false → 0 < k → 0 < (if b then n else k)
other_positive true n k h l = ground arith
other_positive false n k h l = l

-- A cut short of the end is not empty.
cut-positive : (xs : Text) → (cut xs == length xs) ≡ false → 0 < cut xs
unfolding cut
cut-positive xs h =
    other_positive (leb (length xs) width) (length xs) (or_width (after_newline (take width xs))) h
      (or_width-positive (after_newline (take width xs)))

cut-inside : (xs : Text) → (cut xs == length xs) ≡ false → 0 < length xs
unfolding cut
cut-inside xs h = ground arith

-- Sections that hold the text given.
abbrev pub Cuts : Option (List Section) → Text → Type 0
Cuts o t = (ss : List Section) × (o ≡ some ss) × (texts ss ≡ t)

last-Cuts :
    (p : Part) (whole : Text) (start n : ℕ)
    → (n == length (drop start whole)) ≡ true
    → Cuts (some (section p whole start n ∷ [])) (drop start whole)
unfolding texts section
last-Cuts p whole start n h = (
  section p whole start n ∷ [],
  refl,
  append_nil (take n (drop start whole)) ∙ take_all n (drop start whole) (ground arith),
)

first-Cuts :
    (p : Part) (whole : Text) (start n : ℕ) (o : Option (List Section))
    → Cuts o (drop (start + n) whole)
    → Cuts (with_first (section p whole start n) o) (drop start whole)
unfolding texts section
first-Cuts p whole start n o (ss, e, t) = (
  section p whole start n ∷ ss,
  ap (with_first (section p whole start n)) e,
  ap (λ y. take n (drop start whole) ++ y) (t ∙ drop-drop start n whole)
      ∙ take-drop n (drop start whole),
)

pub if_cases {ℓ κ} :
    {A : Type ℓ} (P : A → Type κ) (b : Bool) {x y : A}
    → (b ≡ true → P x)
    → (b ≡ false → P y)
    → P (if b then x else y)
if_cases P true f g = f refl
if_cases P false f g = g refl

sections_from-Cuts :
    (fuel : ℕ) (p : Part) (whole : Text) (start : ℕ)
    → length (drop start whole) < fuel
    → Cuts (sections_from fuel p whole start) (drop start whole)
unfolding sections_from
sections_from-Cuts zero p whole start h = absurd (omega arith)
sections_from-Cuts (suc fuel) p whole start h =
    if_cases (λ o. Cuts o (drop start whole)) (cut (drop start whole) == length (drop start whole))
      (λ e. last-Cuts p whole start (cut (drop start whole)) e)
      (λ e.
        first-Cuts p whole start (cut (drop start whole))
          (sections_from fuel p whole (start + cut (drop start whole)))
          (sections_from-Cuts fuel p whole (start + cut (drop start whole)) (shorter e)))
  where
    shorter :
        (cut (drop start whole) == length (drop start whole)) ≡ false
        → length (drop (start + cut (drop start whole)) whole) < fuel
    shorter e = omega (
      arith,
      cut-positive (drop start whole) e,
      cut-inside (drop start whole) e,
      length-drop start whole,
      length-drop (start + cut (drop start whole)) whole,
    )

-- The text of a part.
abbrev pub part_text : Part → Text
part_text p = text_or_empty p.text

abbrev pub part_texts : List Part → Text
part_texts [] = []
part_texts (p ∷ ps) = part_text p ++ part_texts ps

sections_with-Cuts : (p : Part) (t : Option Text) → Cuts (sections_with p t) (text_or_empty t)
unfolding texts
sections_with-Cuts p none = (empty_section p ∷ [], refl, refl)
sections_with-Cuts p (some whole) = sections_from-Cuts (suc (length whole)) p whole 0 (omega arith)

sections_of-Cuts : (p : Part) → Cuts (sections_of p) (part_text p)
unfolding sections_of
sections_of-Cuts p = sections_with-Cuts p p.text

texts-append : (ss ts : List Section) → texts (ss ++ ts) ≡ texts ss ++ texts ts
unfolding texts
texts-append [] ts = refl
texts-append (s ∷ ss) ts =
    ap (λ y. text_or_empty s.text ++ y) (texts-append ss ts)
    ∙ sym (append_assoc (text_or_empty s.text) (texts ss) (texts ts))

joined-Cuts :
    (o q : Option (List Section)) (t u : Text) → Cuts o t → Cuts q u → Cuts (joined o q) (t ++ u)
joined-Cuts o q t u (ss, e, h) (ts, f, k) = (
  ss ++ ts,
  ap (λ x. joined x q) e ∙ ap (joined (some ss)) f,
  texts-append ss ts ∙ ap (λ x. x ++ texts ts) h ∙ ap (λ x. t ++ x) k,
)

-- Cutting ends for whatever texts, within its fuel, and the sections hold the texts, one after
-- another, with every character.
pub all_sections-Cuts : (ps : List Part) → Cuts (all_sections ps) (part_texts ps)
unfolding all_sections texts
all_sections-Cuts [] = ([], refl, refl)
all_sections-Cuts (p ∷ ps) =
    joined-Cuts (sections_of p) (all_sections ps) (part_text p) (part_texts ps) (sections_of-Cuts p)
      (all_sections-Cuts ps)
