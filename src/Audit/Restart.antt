-- ===== src/Audit/Restart.antt =====
-- tauceti_worker/audit_reader.py: a reader that goes on with the receipt of another, and all together.
use tau_ceti_worker.Prelude.{
  ◌∙◌, ℕ, String, Bool, true, false, ◌||◌, some, List, [], ◌∷◌, contains, ◌≡◌, arith, nat_eq,
  string_eq, ◌==◌, ◌⊎◌,
}
use tau_ceti_worker.Prelude.{ap, inl, inr, sym, subst}
use tau_ceti_worker.Audit.Reader.{
  Receipt, File, no_file, malformed, saved, Reader, accepted, open_reader, resume, kept_page,
}
use tau_ceti_worker.Audit.Session.{
  Reach, starts, requests, restarts, IsWritten, IsSafe, request-IsSafe,
}

pub resume-kept :
    (count : ℕ) (digest : String) (x : Receipt) (r : Reader)
    → resume count digest x ≡ accepted r
    → (r.seen ≡ x.read)
      × (r.token ≡ x.last_token)
      × (r.last_page ≡ kept_page x.read x.last_page)
      × (r.file ≡ saved x)
unfolding resume
resume-kept count digest x r h = ground arith

pub opened-new :
    (count : ℕ) (digest token : String) (r : Reader)
    → open_reader count digest no_file token ≡ accepted r
    → (r.seen ≡ []) × (r.file ≡ no_file)
unfolding open_reader
opened-new count digest token r h = ground arith

-- A reader that has read nothing is safe.
new-IsSafe :
    (r : Reader) (d : List ℕ) (k : List String) → r.seen ≡ [] → r.file ≡ no_file → IsSafe r d k
new-IsSafe r d k s f = record {
  but_last = λ p c. ground (arith, ap (contains p) s);
  known = λ p t c. ground (arith, ap (contains p) s);
  written = subst (λ x. IsWritten x r.seen r.token r.last_page) (sym f) s;
}

-- A reader that goes on with the receipt of a safe one is safe.
resumed-IsSafe :
    (r r' : Reader) (d : List ℕ) (k : List String) (x : Receipt) (token : String)
    → IsSafe r d k
    → IsWritten (saved x) r.seen r.token r.last_page
    → (r'.seen ≡ x.read)
      × (r'.token ≡ x.last_token)
      × (r'.last_page ≡ kept_page x.read x.last_page)
      × (r'.file ≡ saved x)
    → (r.token == token) ≡ false
    → IsSafe r' d (token ∷ k)
resumed-IsSafe r r' d k x token s w e n = record {
  but_last = λ p c. but p c;
  known = λ p t c.
      s.known p (ground (arith, ap (λ y. y == token || contains y k) same_token))
        (subst (λ y. contains p y ≡ true) same_seen c);
  written =
      subst (λ y. IsWritten y r'.seen r'.token r'.last_page) (sym e.3)
        (sym e.0, sym e.1, w.2 ∙ ap some (sym same_last));
}
  where
    same_seen : r'.seen ≡ r.seen
    same_seen = e.0 ∙ w.0

    same_token : r'.token ≡ r.token
    same_token = e.1 ∙ w.1

    same_last : r'.last_page ≡ r.last_page
    same_last = e.2 ∙ ap (kept_page x.read) w.2

    but : (p : ℕ) → contains p r'.seen ≡ true → (contains p d ≡ true) ⊎ (r'.last_page ≡ some p)
    but p c = elim (s.but_last p (subst (λ y. contains p y ≡ true) same_seen c)) [
      | inl a ↦ inl a
      | inr b ↦ inr (same_last ∙ b)
    ]

restart-IsSafe :
    (count : ℕ) (digest token : String) (r r' : Reader) (d : List ℕ) (k : List String) (f : File)
    → IsSafe r d k
    → IsWritten f r.seen r.token r.last_page
    → open_reader count digest f token ≡ accepted r'
    → (r.token == token) ≡ false
    → IsSafe r' d (token ∷ k)
unfolding open_reader
restart-IsSafe count digest token r r' d k no_file s w h n =
    let new = opened-new count digest token r' h in new-IsSafe r' d (token ∷ k) new.0 new.1
restart-IsSafe count digest token r r' d k malformed s w h n = absurd w
restart-IsSafe count digest token r r' d k (saved x) s w h n =
    resumed-IsSafe r r' d k x token s w (resume-kept count digest x r' h) n

-- Whatever the client asks and however often the reader starts again.
pub Reach-IsSafe :
    (fits : ℕ → Bool → Reader → Bool) (count : ℕ) (digest : String) (r : Reader) (d : List ℕ)
    (k : List String)
    → Reach fits count digest r d k
    → IsSafe r d k
Reach-IsSafe fits count digest _ _ _ (starts token r h) =
    let new = opened-new count digest token r h in new-IsSafe r [] (token ∷ []) new.0 new.1
Reach-IsSafe fits count digest _ _ _ (requests r d k page token fresh g t n m) =
    request-IsSafe fits r d k page token fresh (Reach-IsSafe fits count digest r d k g) t n
Reach-IsSafe fits count digest _ _ _ (restarts r r' d k token g h n) =
    let s = Reach-IsSafe fits count digest r d k g in
    restart-IsSafe count digest token r r' d k r.file s s.written h n
