-- ===== src/Audit/Reader.antt =====
-- tauceti_worker/audit_reader.py: the reader of one audit. A page stands for its number; a JSON file
-- whose fields have other types than their own is malformed.
use tau_ceti_worker.Prelude.{
  zero, ℕ, suc, ◌-◌, ltb, String, Bool, true, false, not, ◌&&◌, ◌||◌, Option, none, some, List, [],
  ◌∷◌, ◌++◌, contains, nat_eq, string_eq, ◌==◌, if◌then◌else◌, length, all,
}

pub data Refusal : Type 0 where
  other_input invalid_receipt invalid_page_kept : Refusal
  no_such_page stale_token skips_ahead too_large : Refusal

-- The receipt file; `last_page` may be left out, or be null.
pub record Receipt : Type 0 where
  pub input_digest : String
  pub pages : ℕ
  pub read : List ℕ
  pub last_token : String
  pub last_page : Option (Option ℕ)

pub data File : Type 0 where
  no_file malformed : File
  saved : Receipt → File

-- The object, and the receipt file that it writes. `seen` is a set, listed in order.
pub record Reader : Type 0 where
  pub pages : ℕ
  pub digest : String
  pub seen : List ℕ
  pub token : String
  pub last_page : Option ℕ
  pub file : File

-- `list(range(n))`
unfoldable pub range : ℕ → List ℕ
range zero = []
range (suc n) = range n ++ n ∷ []

-- `sorted(set(xs)) == xs`
abbrev pub all_above : ℕ → List ℕ → Bool
all_above i [] = true
all_above i (j ∷ js) = ltb i j && all_above j js

unfoldable pub is_sorted_set : List ℕ → Bool
is_sorted_set [] = true
is_sorted_set (i ∷ is) = all_above i is

abbrev pub is_page : ℕ → ℕ → Bool
is_page count i = ltb i count

-- `max(seen) if seen else None`, of a list in order.
abbrev pub last_of : List ℕ → Option ℕ
last_of [] = none
last_of (i ∷ []) = some i
last_of (i ∷ j ∷ js) = last_of (j ∷ js)

abbrev pub kept_page : List ℕ → Option (Option ℕ) → Option ℕ
kept_page seen none = last_of seen
kept_page seen (some p) = p

abbrev pub is_kept : List ℕ → Option ℕ → Bool
is_kept seen none = true
is_kept seen (some p) = contains p seen

pub data Outcome {ℓ} (A : Type ℓ) : Type ℓ where
  refused : Refusal → Outcome A
  accepted : A → Outcome A

unfoldable pub resume : ℕ → String → Receipt → Outcome Reader
unfolding is_sorted_set
resume count digest r =
    if not (r.input_digest == digest) || not (r.pages == count)
    then refused other_input
    else if not (all (is_page count) r.read) || not (is_sorted_set r.read)
    then refused invalid_receipt
    else if not (is_kept r.read (kept_page r.read r.last_page))
    then refused invalid_page_kept
    else accepted (record {
      pages = count;
      digest = digest;
      seen = r.read;
      token = r.last_token;
      last_page = kept_page r.read r.last_page;
      file = saved r;
    })

-- `Reader(batch, receipt, token)`
unfoldable pub open_reader : ℕ → String → File → String → Outcome Reader
unfolding resume
open_reader count digest no_file token = accepted (record {
  pages = count;
  digest = digest;
  seen = [];
  token = token;
  last_page = none;
  file = no_file;
})
open_reader count digest malformed token = refused invalid_receipt
open_reader count digest (saved r) token = resume count digest r

abbrev pub first_not_in : List ℕ → List ℕ → Option ℕ
first_not_in seen [] = none
first_not_in seen (i ∷ is) = if contains i seen then first_not_in seen is else some i

-- `next((i for i in range(len(self.pages)) if i not in self.seen), None)`
unfoldable pub next_unread : ℕ → List ℕ → Option ℕ
unfolding range
next_unread count seen = first_not_in seen (range count)

-- `seen.add(page)`
unfoldable pub add_page : ℕ → List ℕ → List ℕ
add_page p [] = p ∷ []
add_page p (i ∷ is) =
    let rest = add_page p is in if p == i then i ∷ is else if ltb p i then p ∷ i ∷ is else i ∷ rest

-- What a request answers: an error, or a page with what follows it.
pub data Response : Type 0 where
  error : Refusal → Response
  delivered :
      (page : ℕ)
      → (replayed : Bool) → (next : Option ℕ) → (remaining : ℕ) → (token : String) → Response

abbrev pub is_next : Option ℕ → ℕ → Bool
is_next none page = false
is_next (some i) page = page == i

abbrev pub or_first : Option ℕ → ℕ
or_first none = 0
or_first (some p) = p

-- The page to deliver: an empty token replays the last one.
unfoldable pub chosen : Reader → ℕ → String → ℕ
chosen r page token = if token == "" then or_first r.last_page else page

-- The reader after a page is marked, and its receipt.
unfoldable pub mark : Reader → ℕ → String → Reader
unfolding add_page
mark r page fresh =
    let seen' = add_page page r.seen in
    record r {
      seen = seen';
      last_page = some page;
      token = fresh;
      file = saved (record {
        input_digest = r.digest;
        pages = r.pages;
        read = seen';
        last_token = fresh;
        last_page = some (some page);
      });
    }

-- `fits` is whether the response is within the client's output allowance.
module _ (fits : ℕ → Bool → Reader → Bool) where
  unfoldable pub deliver : Reader → ℕ → Bool → Response
  unfolding next_unread
  deliver r page replayed =
      if fits page replayed r
      then delivered page replayed (next_unread r.pages r.seen) (r.pages - length r.seen) r.token
      else error too_large

  unfoldable pub read_chosen : Reader → ℕ → Bool → String → Reader × Response
  unfolding deliver mark next_unread
  read_chosen r page replayed fresh =
      if contains page r.seen || is_next (next_unread r.pages r.seen) page
      then (mark r page fresh, deliver (mark r page fresh) page replayed)
      else (r, error skips_ahead)

  -- `request`, of the one tool
  unfoldable pub request : Reader → ℕ → String → String → Reader × Response
  unfolding read_chosen chosen
  request r page token fresh =
      if not (is_page r.pages page)
      then (r, error no_such_page)
      else if not (token == "") && not (token == r.token)
      then (r, error stale_token)
      else read_chosen r (chosen r page token) (token == "") fresh
