-- ===== src/Audit/Counter.antt =====
-- tauceti_worker/audit_reader.py and audit_progress.py: the reader as a counter of pages.
use tau_ceti_worker.Prelude.{
  if_both, ℕ, suc, ◌+◌, String, Bool, true, false, not, ◌&&◌, ◌||◌, Option, none, some, [],
  contains, ltb, ◌≡◌, refl, arith, ◌<◌, ◌≤◌, nat_eq, string_eq, ◌==◌, if◌then◌else◌, ap, ◌∙◌, inl,
  inr, ◌⊎◌,
}
use tau_ceti_worker.Audit.Reader.{Response}
use tau_ceti_worker.Audit.Reader.{
  first_not_in, File, no_file, malformed, saved, Reader, range, add_page, next_unread, is_next,
  mark, request, read_chosen, chosen, is_page,
}
use tau_ceti_worker.Audit.Order.{
  from, range-from, add_page-next, add_page-old, contains-from, first_not_in-from,
}
use tau_ceti_worker.Audit.Reader.{no_file, malformed, saved}
use tau_ceti_worker.Prelude.{inl, inr, none, some}

-- The last page of k pages that were read in order.
abbrev pub IsLast : ℕ → Option ℕ → Type 0
IsLast k none = k ≡ 0
IsLast k (some p) = p < k

abbrev pub IsFiled : ℕ → String → File → Reader → Type 0
IsFiled count digest no_file r = r.seen ≡ []
IsFiled count digest malformed r = ⊥
IsFiled count digest (saved x) r =
    (x.input_digest ≡ digest)
    × (x.pages ≡ count)
    × (x.read ≡ r.seen)
    × (x.last_token ≡ r.token)
    × (x.last_page ≡ some r.last_page)
    × ((r.token == "") ≡ false)

-- The reader stands at the counter's value k: the pages below k are read.
pub record StandsAt (count : ℕ) (digest : String) (r : Reader) (k : ℕ) : Type 0 where
  pub pages_same : r.pages ≡ count
  pub digest_same : r.digest ≡ digest
  pub counted : r.seen ≡ from 0 k
  pub bounded : k ≤ count
  pub last : IsLast k r.last_page
  pub filed : IsFiled count digest r.file r

mark-StandsAt :
    (count : ℕ) (digest : String) (r : Reader) (k n page : ℕ) (fresh : String)
    → StandsAt count digest r k
    → add_page page r.seen ≡ from 0 n
    → n ≤ count
    → page < n
    → (fresh == "") ≡ false
    → StandsAt count digest (mark r page fresh) n
unfolding mark
mark-StandsAt count digest r k n page fresh s a b p f = record {
  pages_same = s.pages_same;
  digest_same = s.digest_same;
  counted = a;
  bounded = b;
  last = p;
  filed = (s.digest_same, s.pages_same, refl, refl, refl, f);
}

next_unread-from :
    (count : ℕ) (digest : String) (r : Reader) (k : ℕ)
    → StandsAt count digest r k
    → next_unread r.pages r.seen ≡ (if ltb k count then some k else none)
unfolding next_unread
next_unread-from count digest r k s =
    ap (λ x. first_not_in x (range r.pages)) s.counted
    ∙ ap (λ n. first_not_in (from 0 k) (range n)) s.pages_same
    ∙ ap (first_not_in (from 0 k)) (range-from count)
    ∙ first_not_in-from k 0 count (omega arith)
    ∙ ap (λ n. if ltb k n then some k else none) (zero_plus count)
  where
    zero_plus : (n : ℕ) → 0 + n ≡ n
    zero_plus n = omega arith

-- A page that may be read is a page that was read, or the k-th.
choice :
    (count : ℕ) (digest : String) (r : Reader) (k page : ℕ)
    → StandsAt count digest r k
    → (contains page r.seen || is_next (next_unread r.pages r.seen) page) ≡ true
    → (page < k) ⊎ ((page ≡ k) × (k < count))
choice count digest r k page s h = ground (
  arith,
  ap (contains page) s.counted,
  contains-from page 0 k,
  next_unread-from count digest r k s,
  ap (λ o. is_next o page) (next_unread-from count digest r k s),
)

-- The counter stays or goes on by one.
abbrev pub Moves : ℕ → String → ℕ → Reader → Type 0
Moves count digest k r = StandsAt count digest r k ⊎ StandsAt count digest r (suc k)

mark-Moves :
    (count : ℕ) (digest : String) (r : Reader) (k page : ℕ) (fresh : String)
    → StandsAt count digest r k
    → (page < k) ⊎ ((page ≡ k) × (k < count))
    → (fresh == "") ≡ false
    → Moves count digest k (mark r page fresh)
mark-Moves count digest r k page fresh s (inl l) f = inl (
    mark-StandsAt count digest r k k page fresh s
      (ap (add_page page) s.counted ∙ add_page-old page 0 k (omega arith) (omega arith)) s.bounded l
      f)
mark-Moves count digest r k page fresh s (inr (e, l)) f = inr (
    mark-StandsAt count digest r k (suc k) page fresh s
      (ap (add_page page) s.counted ∙ add_page-next page 0 k (omega arith)) (omega arith)
      (omega arith) f)

abbrev pub MovesAfter : ℕ → String → ℕ → Reader × Response → Type 0
MovesAfter count digest k a = Moves count digest k a.0

read_chosen-Moves :
    (fits : ℕ → Bool → Reader → Bool) (count : ℕ) (digest : String) (r : Reader) (k page : ℕ)
    (replayed : Bool) (fresh : String)
    → StandsAt count digest r k
    → (fresh == "") ≡ false
    → Moves count digest k (read_chosen fits r page replayed fresh).0
unfolding read_chosen
read_chosen-Moves fits count digest r k page replayed fresh s f =
    if_both (MovesAfter count digest k)
      (contains page r.seen || is_next (next_unread r.pages r.seen) page)
      (λ e. mark-Moves count digest r k page fresh s (choice count digest r k page s e) f)
      (λ e. inl s)

pub request-Moves :
    (fits : ℕ → Bool → Reader → Bool) (count : ℕ) (digest : String) (r : Reader) (k page : ℕ)
    (token fresh : String)
    → StandsAt count digest r k
    → (fresh == "") ≡ false
    → Moves count digest k (request fits r page token fresh).0
unfolding request
request-Moves fits count digest r k page token fresh s f =
    if_both (MovesAfter count digest k) (not (is_page r.pages page)) (λ e. inl s)
      (λ e.
        if_both (MovesAfter count digest k) (not (token == "") && not (token == r.token))
          (λ g. inl s)
          (λ g.
            read_chosen-Moves fits count digest r k (chosen r page token) (token == "") fresh s f))
