-- ===== src/Audit/Examples.antt =====
-- tauceti_worker/audit_reader.py: small runs.
use tau_ceti_worker.Prelude.{
  ℕ, String, arith, ◌≡◌, refl, true, false, Bool, none, some, List, [], ◌∷◌, inr, contains,
  string_eq, nat_eq,
}
use tau_ceti_worker.Audit.Pages.{
  before, after, diff, Commit, Section, pages, pack, put, close, all_sections, sections_of,
  sections_from, cut, section, take, parts, parts_of_files,
}
use tau_ceti_worker.Audit.Cutting.{Cuts, all_sections-Cuts, part_texts, texts}
use tau_ceti_worker.Audit.Packing.{FitsAll, concat, pages-FitsAll}
use tau_ceti_worker.Audit.Reader.{
  Reader, Response, no_file, accepted, open_reader, request, read_chosen, chosen, deliver, mark,
  add_page, next_unread, range,
}
use tau_ceti_worker.Audit.Coverage.{validate_reads, pass, reads_complete, is_complete}
use tau_ceti_worker.Audit.Session.{Reach, starts, requests, pages_after, tokens_after}
use tau_ceti_worker.Prelude.{◌≤◌}
use tau_ceti_worker.Audit.Coverage.{coverage}
use tau_ceti_worker.Audit.Receipts.{Covers, coverage-Covers}
use tau_ceti_worker.Audit.Delivery.{validate_reads-delivered}

abbrev input : List Commit
input =
    record {
      sha = "c1";
      files =
          record { path = "A.lean"; before = none; after = some (7 ∷ 10 ∷ 8 ∷ []); diff = some [] }
          ∷ [];
    }
    ∷ []

-- Each section takes the half of a page and a byte.
abbrev heavy : Section → ℕ
heavy s = 49153

abbrev paged : List (List Section)
paged =
    (record {
      commit = "c1";
      path = "A.lean";
      field = before;
      start = 0;
      total_chars = 0;
      text = none;
      prefix = [];
    }
      ∷ [])
    ∷ (record {
      commit = "c1";
      path = "A.lean";
      field = after;
      start = 0;
      total_chars = 3;
      text = some (7 ∷ 10 ∷ 8 ∷ []);
      prefix = [];
    }
        ∷ [])
    ∷ (record {
      commit = "c1";
      path = "A.lean";
      field = diff;
      start = 0;
      total_chars = 0;
      text = some [];
      prefix = [];
    }
        ∷ [])
    ∷ []

run_pages : pages heavy input ≡ some paged
unfolding pages close pack put all_sections parts parts_of_files sections_of sections_from cut
    section take
run_pages = refl

pages-FitsAll_example : FitsAll heavy paged × (texts (concat paged) ≡ part_texts (parts input))
pages-FitsAll_example = pages-FitsAll heavy input paged run_pages

all_sections-Cuts_example : Cuts (all_sections (parts input)) (part_texts (parts input))
all_sections-Cuts_example = all_sections-Cuts (parts input)

abbrev any_size : ℕ → Bool → Reader → Bool
any_size page replayed r = true

abbrev opened : Reader
opened = record {
  pages = 2;
  digest = "d";
  seen = [];
  token = "t0";
  last_page = none;
  file = no_file;
}

run_open : open_reader 2 "d" no_file "t0" ≡ accepted opened
unfolding open_reader
run_open = refl

-- The first page with the token of the prompt, and the second with the token after the first.
abbrev once : Reader × Response
once = request any_size opened 0 "t0" "t1"

abbrev twice : Reader × Response
twice = request any_size once.0 1 "t1" "t2"

abbrev pages_once : List ℕ
pages_once = pages_after once.1 []

abbrev tokens_once : List String
tokens_once = tokens_after once.1 ("t0" ∷ [])

run_tokens : contains "t1" tokens_once ≡ true
unfolding request read_chosen chosen deliver mark add_page next_unread range
run_tokens = refl

run_fresh : contains "t2" tokens_once ≡ false
unfolding request read_chosen chosen deliver mark add_page next_unread range
run_fresh = refl

reached :
    Reach any_size 2 "d" twice.0 (pages_after twice.1 pages_once) (tokens_after twice.1 tokens_once)
reached =
    requests once.0 pages_once tokens_once 1 "t1" "t2"
      (requests opened [] ("t0" ∷ []) 0 "t0" "t1" (starts "t0" opened run_open) (inr refl) refl
        refl)
      (inr run_tokens) run_fresh refl

run_known : contains "t2" (tokens_after twice.1 tokens_once) ≡ true
unfolding request read_chosen chosen deliver mark add_page next_unread range
run_known = refl

run_valid : validate_reads pass true 2 "d" (twice.0).file (some "t2") ≡ true
unfolding validate_reads reads_complete is_complete request read_chosen chosen deliver mark add_page
    next_unread range
run_valid = refl

validate_reads-delivered_example : contains 0 (pages_after twice.1 pages_once) ≡ true
validate_reads-delivered_example =
    validate_reads-delivered any_size 2 "d" twice.0 (pages_after twice.1 pages_once)
      (tokens_after twice.1 tokens_once) "t2" 0 reached run_known run_valid (omega arith)

coverage-Covers_example : (n : ℕ) × (n ≤ 2) × Covers 2 n (coverage 2 "d" (twice.0).file)
coverage-Covers_example =
    coverage-Covers any_size 2 "d" twice.0 (pages_after twice.1 pages_once)
      (tokens_after twice.1 tokens_once) reached
