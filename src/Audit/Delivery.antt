-- ===== src/Audit/Delivery.antt =====
-- tauceti_worker/security_audit.py: a pass stands on the delivery of every page.
use tau_ceti_worker.Prelude.{
  ℕ, zero, suc, String, Bool, true, ◌||◌, Option, some, List, [], ◌∷◌, ◌++◌, contains, ◌≡◌, refl,
  arith, ◌<◌, nat_eq, string_eq, sym, subst, ◌∙◌,
}
use tau_ceti_worker.Audit.Reader.{Receipt, File, no_file, malformed, saved, Reader, range}
use tau_ceti_worker.Audit.Coverage.{validate_reads, pass, reads_complete, is_complete, same_list}
use tau_ceti_worker.Audit.Session.{Reach, IsWritten}
use tau_ceti_worker.Audit.Restart.{Reach-IsSafe}

contains-append :
    (p : ℕ) (is js : List ℕ) → contains p (is ++ js) ≡ (contains p is || contains p js)
contains-append p [] js = refl
contains-append p (i ∷ is) js = ground (arith, contains-append p is js)

pub contains-range : (p n : ℕ) → p < n → contains p (range n) ≡ true
unfolding range
contains-range p zero h = absurd (omega arith)
contains-range p (suc n) h =
    ground (arith, contains-append p (range n) (n ∷ []), contains-range p n)

same_list-eq : (is js : List ℕ) → same_list is js ≡ true → is ≡ js
same_list-eq [] [] h = refl
same_list-eq [] (j ∷ js) h = absurd (ground arith)
same_list-eq (i ∷ is) [] h = absurd (ground arith)
same_list-eq (i ∷ is) (j ∷ js) h = ground (arith, same_list-eq is js)

-- What a complete receipt says.
is_complete-read :
    (count : ℕ) (digest token : String) (x : Receipt)
    → is_complete count digest x token ≡ true
    → (x.read ≡ range count) × (x.last_token ≡ token)
unfolding is_complete
is_complete-read count digest token x h =
    ground (arith, same_list-eq x.read (range count), string_eq.same_iff x.last_token token)

reads_complete-range :
    (count : ℕ) (digest token : String) (f : File) (seen : List ℕ) (present : String)
    (last : Option ℕ)
    → reads_complete count digest f (some token) ≡ true
    → IsWritten f seen present last
    → (seen ≡ range count) × (present ≡ token)
unfolding reads_complete
reads_complete-range count digest token no_file seen present last h w = absurd (ground arith)
reads_complete-range count digest token malformed seen present last h w = absurd w
reads_complete-range count digest token (saved x) seen present last h w =
    let e = is_complete-read count digest token x h in (sym w.0 ∙ e.0, sym w.1 ∙ e.1)

-- A pass on a paged input is accepted, with a token that the client was given, only if every page
-- was delivered to it in full, over whatever requests, replays and new readers.
pub validate_reads-delivered :
    (fits : ℕ → Bool → Reader → Bool) (count : ℕ) (digest : String) (r : Reader) (d : List ℕ)
    (k : List String) (token : String) (page : ℕ)
    → Reach fits count digest r d k
    → contains token k ≡ true
    → validate_reads pass true count digest r.file (some token) ≡ true
    → page < count
    → contains page d ≡ true
unfolding validate_reads
validate_reads-delivered fits count digest r d k token page g t v h =
    let s = Reach-IsSafe fits count digest r d k g in
    let e = reads_complete-range count digest token r.file r.seen r.token r.last_page v s.written in
    s.known page (subst (λ x. contains x k ≡ true) (sym e.1) t)
      (subst (λ x. contains page x ≡ true) (sym e.0) (contains-range page count h))
