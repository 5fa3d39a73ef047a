-- ===== src/Audit/Standing.antt =====
-- tauceti_worker/audit_reader.py: a reader always stands at some value of the counter.
use tau_ceti_worker.Prelude.{
  ℕ, suc, String, Bool, some, List, ◌≡◌, refl, arith, nat_eq, string_eq, ◌==◌, ap, sym, subst, ◌∙◌,
  inl, inr,
}
use tau_ceti_worker.Audit.Reader.{Outcome, refused}
use tau_ceti_worker.Audit.Reader.{
  Receipt, File, no_file, malformed, saved, Reader, request, accepted, open_reader, resume,
  kept_page,
}
use tau_ceti_worker.Audit.Order.{from}
use tau_ceti_worker.Audit.Session.{Reach, starts, requests, restarts}
use tau_ceti_worker.Audit.Restart.{resume-kept}
use tau_ceti_worker.Audit.Reader.{no_file, malformed, saved, accepted}
use tau_ceti_worker.Audit.Session.{starts, requests, restarts}
use tau_ceti_worker.Prelude.{inl, inr, some}
use tau_ceti_worker.Audit.Counter.{IsLast, IsFiled, StandsAt, Moves, request-Moves}

abbrev StandsAtIf : ℕ → String → Outcome Reader → Type 0
StandsAtIf count digest (refused e) = Unit
StandsAtIf count digest (accepted r) = StandsAt count digest r 0

opened-StandsAt :
    (count : ℕ) (digest token : String) (r : Reader)
    → open_reader count digest no_file token ≡ accepted r
    → StandsAt count digest r 0
unfolding open_reader from
opened-StandsAt count digest token r h =
    subst (λ a. StandsAtIf count digest a) h
      (record {
        pages_same = refl;
        digest_same = refl;
        counted = refl;
        bounded = omega arith;
        last = refl;
        filed = refl;
      })

resume-same :
    (count : ℕ) (digest : String) (x : Receipt) (r : Reader)
    → resume count digest x ≡ accepted r
    → (r.pages ≡ count) × (r.digest ≡ digest)
unfolding resume
resume-same count digest x r h = ground arith

resumed-StandsAt :
    (count : ℕ) (digest : String) (r r' : Reader) (k : ℕ) (x : Receipt)
    → StandsAt count digest r k
    → IsFiled count digest (saved x) r
    → resume count digest x ≡ accepted r'
    → StandsAt count digest r' k
resumed-StandsAt count digest r r' k x s f h = record {
  pages_same = (resume-same count digest x r' h).0;
  digest_same = (resume-same count digest x r' h).1;
  counted = e.0 ∙ f.2 ∙ s.counted;
  bounded = s.bounded;
  last = subst (IsLast k) (sym same_last) s.last;
  filed =
      subst (λ y. IsFiled count digest y r') (sym e.3)
        (
          f.0,
          f.1,
          sym e.0,
          sym e.1,
          f.4 ∙ ap some (sym same_last),
          ap (λ t. t == "") (e.1 ∙ f.3) ∙ f.5,
        );
}
  where
    e :
        (r'.seen ≡ x.read)
        × (r'.token ≡ x.last_token)
        × (r'.last_page ≡ kept_page x.read x.last_page)
        × (r'.file ≡ saved x)
    e = resume-kept count digest x r' h

    same_last : r'.last_page ≡ r.last_page
    same_last = e.2 ∙ ap (kept_page x.read) f.4

restarted-StandsAt :
    (count : ℕ) (digest token : String) (r r' : Reader) (k : ℕ) (f : File)
    → StandsAt count digest r k
    → IsFiled count digest f r
    → open_reader count digest f token ≡ accepted r'
    → (n : ℕ) × StandsAt count digest r' n
unfolding open_reader
restarted-StandsAt count digest token r r' k no_file s f h =
    (0, opened-StandsAt count digest token r' h)
restarted-StandsAt count digest token r r' k malformed s f h = absurd f
restarted-StandsAt count digest token r r' k (saved x) s f h =
    (k, resumed-StandsAt count digest r r' k x s f h)

moved :
    (count : ℕ) (digest : String) (k : ℕ) (r : Reader)
    → Moves count digest k r
    → (n : ℕ) × StandsAt count digest r n
moved count digest k r (inl s) = (k, s)
moved count digest k r (inr s) = (suc k, s)

-- Whatever is requested, the reader stands at some value of the counter.
pub Reach-StandsAt :
    (fits : ℕ → Bool → Reader → Bool) (count : ℕ) (digest : String) (r : Reader) (d : List ℕ)
    (k : List String)
    → Reach fits count digest r d k
    → (n : ℕ) × StandsAt count digest r n
Reach-StandsAt fits count digest _ _ _ (starts token r h) =
    (0, opened-StandsAt count digest token r h)
Reach-StandsAt fits count digest _ _ _ (requests r d k page token fresh g t n m) =
    let s = Reach-StandsAt fits count digest r d k g in
    moved count digest s.0 (request fits r page token fresh).0
      (request-Moves fits count digest r s.0 page token fresh s.1 m)
Reach-StandsAt fits count digest _ _ _ (restarts r r' d k token g h n) =
    let s = Reach-StandsAt fits count digest r d k g in
    restarted-StandsAt count digest token r r' s.0 r.file s.1 (s.1).filed h
