-- ===== src/Recovery/Examples.antt =====
-- An index in which one source is registered.
use tau_ceti_worker.Recovery.Timely.{due-ready, due-early}
use tau_ceti_worker.Recovery.Due.{has_changed, due, Journal}
use tau_ceti_worker.Recovery.Verified.{find-register_all, register_all, find-remember}
use tau_ceti_worker.Recovery.Index.{remember, entry_for, find, Manifest, Index, Hashing, Entry}
use tau_ceti_worker.Prelude.{
  false, ap, ◌∙◌, sym, Bool-cases, ◌&&◌, string_eq, ◌==◌, eq_iff, if◌then◌else◌, arith, none, some,
  true, ◌≡◌, refl, String, inl, inr, [], ◌∷◌,
}

abbrev key_of : String → String → String
key_of r f = if r == "R" && f == "F" then "k" else "other"

abbrev hash : Hashing
hash = record {
  key = key_of;
  checksum = λ e. e.name;
  manifest_sum = λ m. m.fingerprint;
  size_of = λ e. 300;
  is_plain = λ name. name == "rec1";
}

abbrev manifest : Manifest
manifest = record { repository = "R"; fingerprint = "F" }

abbrev index_one : Index
index_one = remember hash [] "rec1" manifest true (some "ok") ""

abbrev entry : Entry
entry = entry_for hash "rec1" manifest true (some "ok") "F"

key_unique : (r f : String) → hash.key "R" "F" ≡ hash.key r f → ("R" ≡ r) × ("F" ≡ f)
key_unique r f h = elim (Bool-cases (r == "R" && f == "F")) [
  | inl t ↦ (sym ((eq_iff r "R").0 (ground arith)), sym ((eq_iff f "F").0 (ground arith)))
  | inr n ↦
      let clash : "k" ≡ "other" = h ∙ ap (λ b. if b then "k" else "other") n in
      absurd (ground (arith, eq_iff "k" "other"))
]

find-remember_example : find hash index_one "R" "F" ≡ some entry
find-remember_example = find-remember hash [] "rec1" manifest (some "ok") "" refl (omega arith)

find-register_all_example :
    find hash
      (register_all hash index_one
        (record { name = "rec2"; manifest = manifest; evidence = none; fingerprint = "" } ∷ []))
      "R"
      "F"
    ≡ some entry
find-register_all_example =
    find-register_all hash "R" "F" key_unique
      (record { name = "rec2"; manifest = manifest; evidence = none; fingerprint = "" } ∷ [])
      index_one entry (find-remember hash [] "rec1" manifest (some "ok") "" refl (omega arith))

abbrev waiting_record : Journal String
waiting_record = record {
  offered = false;
  receipt_changed = false;
  retry_at = 900;
  state = "retained";
  code = "invocation-failed";
  protocol = 3;
  mechanical_recheck_at = 0;
  selection = [];
  agent = "";
}

due-early_example : due false 500 0 none none (waiting_record ∷ []) ≡ false
unfolding has_changed
due-early_example = due-early false 500 0 none none (waiting_record ∷ []) refl

due-ready_example : due false 1000 0 none none (waiting_record ∷ []) ≡ true
due-ready_example = due-ready 1000 0 none none (waiting_record ∷ []) refl
