-- ===== src/Audit/Order.antt =====
-- tauceti_worker/audit_reader.py: consecutive pages.
use tau_ceti_worker.Prelude.{
  ℕ, zero, suc, ◌+◌, true, false, none, some, List, [], ◌∷◌, ◌++◌, contains, ltb, ◌≡◌, refl, arith,
  ◌<◌, ◌≤◌, nat_eq, if◌then◌else◌, ap, sym, ◌∙◌, all,
}
use tau_ceti_worker.Audit.Coverage.{not_in}
use tau_ceti_worker.Prelude.{filter, inl, inr, ◌⊎◌}
use tau_ceti_worker.Audit.Reader.{range, add_page, first_not_in, all_above, is_page}

-- n numbers from lo on.
unfoldable pub from : ℕ → ℕ → List ℕ
from lo zero = []
from lo (suc n) = lo ∷ from (suc lo) n

add_zero : (n : ℕ) → n + 0 ≡ n
add_zero n = omega arith

add_suc : (m n : ℕ) → suc m + n ≡ m + suc n
add_suc m n = omega arith

from-last : (lo n : ℕ) → from lo (suc n) ≡ from lo n ++ (lo + n) ∷ []
unfolding from
from-last lo zero = ap (λ k. k ∷ []) (sym (add_zero lo))
from-last lo (suc n) =
    ap (λ is. lo ∷ is) (from-last (suc lo) n ∙ ap (λ k. from (suc lo) n ++ k ∷ []) (add_suc lo n))

pub range-from : (n : ℕ) → range n ≡ from 0 n
unfolding range from
range-from zero = refl
range-from (suc n) =
    ap (λ is. is ++ n ∷ []) (range-from n)
    ∙ ap (λ k. from 0 n ++ k ∷ []) (zero_plus n)
    ∙ sym (from-last 0 n)
  where
    zero_plus : (k : ℕ) → k ≡ 0 + k
    zero_plus k = omega arith

-- The next page goes to the end.
pub add_page-next : (p lo n : ℕ) → p ≡ lo + n → add_page p (from lo n) ≡ from lo (suc n)
unfolding add_page from
add_page-next p lo zero h = ap (λ k. k ∷ []) (h ∙ add_zero lo)
add_page-next p lo (suc n) h = ground (arith, add_page-next p (suc lo) n (omega arith))

-- A page that was read stays where it is.
pub add_page-old : (p lo n : ℕ) → lo ≤ p → p < lo + n → add_page p (from lo n) ≡ from lo n
unfolding add_page from
add_page-old p lo zero h l = absurd (omega arith)
add_page-old p lo (suc n) h l =
    ground (arith, λ (k : suc lo ≤ p). add_page-old p (suc lo) n k (omega arith))

pub contains-from_below : (p lo n : ℕ) → p < lo → contains p (from lo n) ≡ false
unfolding from
contains-from_below p lo zero h = refl
contains-from_below p lo (suc n) h = ground (arith, contains-from_below p (suc lo) n (omega arith))

pub contains-from : (p lo n : ℕ) → lo ≤ p → contains p (from lo n) ≡ ltb p (lo + n)
unfolding from
contains-from p lo zero h = ground arith
contains-from p lo (suc n) h =
    ground
      (arith, contains-from_below p (suc lo) n, λ (k : suc lo ≤ p). contains-from p (suc lo) n k)

-- The first of the numbers from lo on that are not below k.
pub first_not_in-from :
    (k lo n : ℕ)
    → lo ≤ k
    → first_not_in (from 0 k) (from lo n) ≡ (if ltb k (lo + n) then some k else none)
unfolding from
first_not_in-from k lo zero h = ground arith
first_not_in-from k lo (suc n) h =
    ground (arith, contains-from lo 0 k, λ (l : suc lo ≤ k). first_not_in-from k (suc lo) n l)

pub all_above-from : (i lo n : ℕ) → i < lo → all_above i (from lo n) ≡ true
unfolding from
all_above-from i lo zero h = refl
all_above-from i lo (suc n) h = ground (arith, all_above-from lo (suc lo) n)

pub all-from : (count lo n : ℕ) → lo + n ≤ count → all (is_page count) (from lo n) ≡ true
unfolding from
all-from count lo zero h = refl
all-from count lo (suc n) h = ground (arith, all-from count (suc lo) n)

pub filter-from_above : (k lo n : ℕ) → k ≤ lo → filter (not_in (from 0 k)) (from lo n) ≡ from lo n
unfolding from
filter-from_above k lo zero h = refl
filter-from_above k lo (suc n) h =
    ground (arith, contains-from lo 0 k, filter-from_above k (suc lo) n (omega arith))

pub same_from : (a b m n : ℕ) → a ≡ b → m ≡ n → from a m ≡ from b n
same_from a b m n h l = ap (λ x. from x m) h ∙ ap (from b) l

here_or_later : (a b : ℕ) → a ≤ b → (a ≡ b) ⊎ (suc a ≤ b)
here_or_later a b h = omega arith

skips :
    (k lo n : ℕ)
    → suc lo ≤ k
    → filter (not_in (from 0 k)) (from lo (suc n)) ≡ filter (not_in (from 0 k)) (from (suc lo) n)
unfolding from
skips k lo n h = ground (arith, contains-from lo 0 k)

-- The pages that are not read.
pub filter-from :
    (k lo n m : ℕ) → lo + n ≡ k + m → lo ≤ k → filter (not_in (from 0 k)) (from lo n) ≡ from k m
filter-from k lo zero m h l =
    filter-from_above k lo zero (omega arith) ∙ same_from lo k zero m (omega arith) (omega arith)
filter-from k lo (suc n) m h l = elim (here_or_later lo k l) [
  | inl e ↦ filter-from_above k lo (suc n) (omega arith) ∙ same_from lo k (suc n) m e (omega arith)
  | inr g ↦ skips k lo n g ∙ filter-from k (suc lo) n m (omega arith) g
]
