-- ===== src/Audit/Pages.antt =====
-- tauceti_worker/audit_reader.py: an audit's input cut into pages. A text is the list of its code
-- points; the encoded length of a section is JSON's, a parameter.
use tau_ceti_worker.Prelude.{
  ℕ, zero, suc, ◌+◌, ◌-◌, ltb, leb, min, String, Bool, true, false, ◌&&◌, Option, none, some, List,
  [], ◌∷◌, ◌++◌, nat_eq, ◌==◌, if◌then◌else◌, length, drop,
}

abbrev pub Text : Type 0
Text = List ℕ

pub data Field : Type 0 where
  before after diff : Field

-- One text of one file of a commit.
pub record Part : Type 0 where
  pub commit : String
  pub path : String
  pub field : Field
  pub text : Option Text

pub record Change : Type 0 where
  pub path : String
  pub before : Option Text
  pub after : Option Text
  pub diff : Option Text

pub record Commit : Type 0 where
  pub sha : String
  pub files : List Change

pub record Section : Type 0 where
  pub commit : String
  pub path : String
  pub field : Field
  pub start : ℕ
  pub total_chars : ℕ
  pub text : Option Text
  pub prefix : Text

abbrev pub page_bytes : ℕ
page_bytes = 98304

abbrev pub width : ℕ
width = 12288

abbrev pub newline : ℕ
newline = 10

unfoldable pub take : ℕ → Text → Text
take zero xs = []
take (suc n) [] = []
take (suc n) (x ∷ xs) = x ∷ take n xs

-- The length up to and with the last newline; 0 if there is none.
unfoldable pub after_newline : Text → ℕ
after_newline [] = 0
after_newline (x ∷ xs) =
    let rest = after_newline xs in if ltb 0 rest then suc rest else if x == newline then 1 else 0

abbrev pub or_width : ℕ → ℕ
or_width n = if ltb 0 n then n else width

-- `end - start`, of the text from `start` on.
unfoldable pub cut : Text → ℕ
unfolding after_newline take
cut xs = if leb (length xs) width then length xs else or_width (after_newline (take width xs))

unfoldable pub section : Part → Text → ℕ → ℕ → Section
unfolding take
section p whole start n = record {
  commit = p.commit;
  path = p.path;
  field = p.field;
  start = start;
  total_chars = length whole;
  text = some (take n (drop start whole));
  prefix = take (min start 256) (drop (start - 256) whole);
}

abbrev pub with_first : Section → Option (List Section) → Option (List Section)
with_first s none = none
with_first s (some ss) = some (s ∷ ss)

-- The `while` of one text, on fuel.
unfoldable pub sections_from : ℕ → Part → Text → ℕ → Option (List Section)
unfolding cut section
sections_from zero p whole start = none
sections_from (suc fuel) p whole start =
    let n = cut (drop start whole) in
    let rest = sections_from fuel p whole (start + n) in
    if n == length (drop start whole)
    then some (section p whole start n ∷ [])
    else with_first (section p whole start n) rest

abbrev pub empty_section : Part → Section
empty_section p = record {
  commit = p.commit;
  path = p.path;
  field = p.field;
  start = 0;
  total_chars = 0;
  text = none;
  prefix = [];
}

abbrev pub sections_with : Part → Option Text → Option (List Section)
sections_with p none = some (empty_section p ∷ [])
sections_with p (some whole) = sections_from (suc (length whole)) p whole 0

unfoldable pub sections_of : Part → Option (List Section)
unfolding sections_from
sections_of p = sections_with p p.text

abbrev pub joined : Option (List Section) → Option (List Section) → Option (List Section)
joined none t = none
joined (some ss) none = none
joined (some ss) (some ts) = some (ss ++ ts)

unfoldable pub all_sections : List Part → Option (List Section)
unfolding sections_of
all_sections [] = some []
all_sections (p ∷ ps) = joined (sections_of p) (all_sections ps)

unfoldable pub parts_of_files : String → List Change → List Part
parts_of_files sha [] = []
parts_of_files sha (f ∷ fs) =
    record { commit = sha; path = f.path; field = before; text = f.before }
    ∷ record { commit = sha; path = f.path; field = after; text = f.after }
    ∷ record { commit = sha; path = f.path; field = diff; text = f.diff }
    ∷ parts_of_files sha fs

unfoldable pub parts : List Commit → List Part
unfolding parts_of_files
parts [] = []
parts (c ∷ cs) = parts_of_files c.sha c.files ++ parts cs

-- `result`, `current` and `size`
pub record Packing : Type 0 where
  pub result : List (List Section)
  pub current : List Section
  pub size : ℕ

abbrev pub holds_some : List Section → Bool
holds_some [] = false
holds_some (s ∷ ss) = true

module _ (weight : Section → ℕ) where
  unfoldable pub put : Section → Packing → Packing
  put s k =
      if holds_some k.current && ltb page_bytes (k.size + weight s)
      then record { result = k.result ++ k.current ∷ []; current = s ∷ []; size = weight s }
      else record { result = k.result; current = k.current ++ s ∷ []; size = k.size + weight s }

  -- `none` is the refusal of a section that no page can hold.
  unfoldable pub pack : Packing → List Section → Option Packing
  unfolding put
  pack k [] = some k
  pack k (s ∷ ss) = let rest = pack (put s k) ss in if ltb page_bytes (weight s) then none else rest

  unfoldable pub close : Option Packing → Option (List (List Section))
  close none = none
  close (some k) = some (if holds_some k.current then k.result ++ k.current ∷ [] else k.result)

  abbrev pub packed : Option (List Section) → Option (List (List Section))
  packed none = none
  packed (some ss) = close (pack (record { result = []; current = []; size = 0 }) ss)

  -- `pages`
  unfoldable pub pages : List Commit → Option (List (List Section))
  unfolding close pack all_sections parts
  pages cs = packed (all_sections (parts cs))
