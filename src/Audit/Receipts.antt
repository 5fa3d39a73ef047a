-- ===== src/Audit/Receipts.antt =====
-- tauceti_worker/audit_progress.py: a reader's receipt is accepted as proof of its coverage.
use tau_ceti_worker.Prelude.{
  ℕ, zero, suc, ◌-◌, String, Bool, true, Option, none, some, List, [], ◌≡◌, refl, arith, ◌≤◌,
  nat_eq, string_eq, ◌==◌, if◌then◌else◌, ap, sym, ◌∙◌, filter, all,
}
use tau_ceti_worker.Audit.Reader.{
  Receipt, File, no_file, malformed, saved, Reader, range, is_page, is_sorted_set, is_kept,
}
use tau_ceti_worker.Audit.Coverage.{coverage, is_valid, Proof, not_in, stated_page}
use tau_ceti_worker.Audit.Order.{
  from, range-from, contains-from, all_above-from, all-from, filter-from, same_from,
}
use tau_ceti_worker.Audit.Counter.{StandsAt, IsFiled, IsLast}
use tau_ceti_worker.Audit.Standing.{Reach-StandsAt}
use tau_ceti_worker.Audit.Session.{Reach}

-- The pages below k are read, the others missing, in order.
abbrev pub Covers : ℕ → ℕ → Option Proof → Type 0
Covers count k o =
    (p : Proof) × (o ≡ some p) × (p.read ≡ from 0 k) × (p.missing ≡ from k (count - k))

is_sorted_set-from : (k : ℕ) → is_sorted_set (from 0 k) ≡ true
unfolding is_sorted_set from
is_sorted_set-from zero = refl
is_sorted_set-from (suc k) = all_above-from 0 1 k (omega arith)

is_kept-from : (k : ℕ) (last : Option ℕ) → IsLast k last → is_kept (from 0 k) last ≡ true
is_kept-from k none h = refl
is_kept-from k (some p) h = ground (arith, contains-from p 0 k)

from-empty : (k : ℕ) → from 0 k ≡ [] → k ≡ 0
unfolding from
from-empty zero h = refl
from-empty (suc k) h = absurd (cc)

is_valid-filed :
    (count : ℕ) (digest : String) (r : Reader) (k : ℕ) (x : Receipt)
    → StandsAt count digest r k
    → IsFiled count digest (saved x) r
    → is_valid count digest x ≡ true
unfolding is_valid
is_valid-filed count digest r k x s f = ground (
  arith,
  (string_eq.same_iff x.input_digest digest).1 f.0,
  (nat_eq.same_iff x.pages count).1 f.1,
  ap (all (is_page count)) (f.2 ∙ s.counted) ∙ all-from count 0 k (omega (arith, s.bounded)),
  ap is_sorted_set (f.2 ∙ s.counted) ∙ is_sorted_set-from k,
  ap (λ t. t == "") f.3 ∙ f.5,
  ap (λ y. is_kept x.read (stated_page y)) f.4
      ∙ ap (λ y. is_kept y r.last_page) (f.2 ∙ s.counted)
      ∙ is_kept-from k r.last_page s.last,
)

coverage-filed :
    (count : ℕ) (digest : String) (r : Reader) (k : ℕ) (f : File)
    → StandsAt count digest r k
    → IsFiled count digest f r
    → Covers count k (coverage count digest f)
unfolding coverage
coverage-filed count digest r k no_file s f =
    let zero = from-empty k (sym s.counted ∙ f) in
    (
      record { read = []; missing = range count; last_token = none },
      refl,
      sym f ∙ s.counted,
      range-from count ∙ same_from 0 k count (count - k) (sym zero) (omega (arith, zero)),
    )
coverage-filed count digest r k malformed s f = absurd f
coverage-filed count digest r k (saved x) s f =
    let same = f.2 ∙ s.counted in
    (
      record {
        read = x.read;
        missing = filter (not_in x.read) (range count);
        last_token = some x.last_token;
      },
      ap
          (λ b.
            if b
            then some (record {
              read = x.read;
              missing = filter (not_in x.read) (range count);
              last_token = some x.last_token;
            })
            else none)
          (is_valid-filed count digest r k x s f),
      same,
      ap (λ y. filter (not_in y) (range count)) same
          ∙ ap (filter (not_in (from 0 k))) (range-from count)
          ∙ filter-from k 0 count (count - k) (omega (arith, s.bounded)) (omega arith),
    )

-- The receipt that a reader leaves, whatever was requested of it, is accepted as proof of coverage:
-- of the pages in order up to some page, and of the others as missing.
pub coverage-Covers :
    (fits : ℕ → Bool → Reader → Bool) (count : ℕ) (digest : String) (r : Reader) (d : List ℕ)
    (k : List String)
    → Reach fits count digest r d k
    → (n : ℕ) × (n ≤ count) × Covers count n (coverage count digest r.file)
coverage-Covers fits count digest r d k g =
    let s = Reach-StandsAt fits count digest r d k g in
    (s.0, (s.1).bounded, coverage-filed count digest r s.0 r.file s.1 (s.1).filed)
