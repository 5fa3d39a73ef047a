-- ===== src/Budget/Replay/Append.antt =====
-- A ledger that is replayed after `append`: the replay before, then the events of the new line.
use tau_ceti_worker.Prelude.{
  sym, ap, false, Bool-cases, ℕ, suc, ◌+◌, true, List, [], ◌∷◌, ◌++◌, string_eq, nat_eq, length,
  inl, inr, ◌≡◌, refl, ◌∙◌, arith,
}
use tau_ceti_worker.Budget.State.{Store, Result-cases, Result, ok, err, ◌>>=◌, Event, Record, State}
use tau_ceti_worker.Budget.Ledger.{
  append, current, records, initial, numbered, apply, apply_all, apply_record, replay_from,
}

-- Binding is associative.
bind_assoc :
    {A B C : Type 0} (r : Result A) (f : A → Result B) (g : B → Result C)
    → ((r >>= f) >>= g) ≡ (r >>= λ a. f a >>= g)
bind_assoc (ok a) f g = refl
bind_assoc (err e) f g = refl

pub apply_all-append :
    (t : ℕ) (st : State) (xs ys : List Event)
    → apply_all t st (xs ++ ys) ≡ (apply_all t st xs >>= λ st'. apply_all t st' ys)
unfolding apply_all
apply_all-append t st [] ys = refl
apply_all-append t st (x ∷ xs) ys = elim (Result-cases (apply t st x)) [
  | inl (st', e) ↦ rw e (apply_all-append t st' xs ys)
  | inr (e, h) ↦ rw h
]

replay_from-append :
    (st : State) (rs : List Record) (r : Record)
    → replay_from st (rs ++ r ∷ []) ≡ (replay_from st rs >>= λ st'. apply_record st' r)
unfolding replay_from
replay_from-append st [] r = elim (Result-cases (apply_record st r)) [
  | inl (st', e) ↦ rw e
  | inr (e, h) ↦ rw h
]
replay_from-append st (x ∷ rs) r = elim (Result-cases (apply_record st x)) [
  | inl (st', e) ↦ rw e (replay_from-append st' rs r)
  | inr (e, h) ↦ rw h
]

numbered-append :
    (n : ℕ) (rs : List Record) (r : Record)
    → numbered n rs ≡ true
    → r.seq ≡ n + length rs + 1
    → numbered n (rs ++ r ∷ []) ≡ true
unfolding numbered
numbered-append n [] r h e = ground arith
numbered-append n (x ∷ rs) r h e = ground (arith, numbered-append (suc n) rs r)

apply-seq : (t : ℕ) (st st' : State) (e : Event) → apply t st e ≡ ok st' → st'.seq ≡ st.seq
unfolding apply
apply-seq t st st' (Event.accrue a w) h = ground arith
apply-seq t st st' _ h = ground arith

apply_all-seq :
    (t : ℕ) (st st' : State) (es : List Event) → apply_all t st es ≡ ok st' → st'.seq ≡ st.seq
unfolding apply_all
apply_all-seq t st st' [] h = ground arith
apply_all-seq t st st' (e ∷ es) h = elim (Result-cases (apply t st e)) [
  | inl (mid, p) ↦ apply_all-seq t mid st' es (rw p at h) ∙ apply-seq t st mid e p
  | inr (x, p) ↦ ground arith
]

-- A numbered ledger leaves its state at the number of its lines.
replay_from-seq :
    (n : ℕ) (st st' : State) (rs : List Record)
    → st.seq ≡ n
    → numbered n rs ≡ true
    → replay_from st rs ≡ ok st'
    → st'.seq ≡ n + length rs
unfolding replay_from numbered apply_record
replay_from-seq n st st' [] e u h = ground arith
replay_from-seq n st st' (r ∷ rs) e u h = elim (Result-cases (apply_record st r)) [
  | inl (mid, p) ↦ ground (
    arith,
    apply_all-seq r.timestamp (record st { seq = r.seq }) mid r.events p,
    replay_from-seq (suc n) mid st' rs,
  )
  | inr (x, p) ↦ ground arith
]

-- What a store's ledger says, whether or not its last line is torn.
pub record Reads (s : Store) (st : State) : Type 0 where
  pub in_order : numbered 0 s.ledger ≡ true
  pub replayed : replay_from initial s.ledger ≡ ok st

pub Reads-current : (s : Store) (st : State) → current s ≡ ok st → Reads s st × (s.torn ≡ false)
unfolding current records
Reads-current s st h = elim (Bool-cases s.torn) [
  | inl torn ↦ ground arith
  | inr whole ↦ elim (Bool-cases (numbered 0 s.ledger)) [
    | inl good ↦ (record { in_order = good; replayed = ground arith }, whole)
    | inr bad ↦ ground arith
  ]
]

pub current-Reads : (s : Store) (st : State) → Reads s st → s.torn ≡ false → current s ≡ ok st
unfolding current records
current-Reads s st r whole = ground arith

-- A line appended after the state that was read is read back as its events.
pub Reads-append :
    (s : Store) (st st' : State) (now : ℕ) (es : List Event)
    → Reads s st
    → apply_all now (record st { seq = st.seq + 1 }) es ≡ ok st'
    → Reads (append s st now es) st'
unfolding append initial
Reads-append s st st' now es r h = record {
  in_order = numbered-append 0 s.ledger _ r.in_order (omega (arith, at_end));
  replayed =
      replay_from-append initial s.ledger _
      ∙ ap (λ x. x >>= λ y. apply_record y line) r.replayed
      ∙ (unfold apply_record in h);
}
  where
    line : Record
    line = record { seq = st.seq + 1; timestamp = now; events = es }

    at_end : st.seq ≡ 0 + length s.ledger
    at_end = replay_from-seq 0 initial st s.ledger refl r.in_order r.replayed

-- And conversely: what an appended line replays to comes from its events.
pub append-Reads :
    (s : Store) (st st' : State) (now : ℕ) (es : List Event)
    → Reads s st
    → Reads (append s st now es) st'
    → apply_all now (record st { seq = st.seq + 1 }) es ≡ ok st'
unfolding append apply_record
append-Reads s st st' now es r r' =
    sym (
      replay_from-append initial s.ledger
        (record { seq = st.seq + 1; timestamp = now; events = es })
      ∙ ap
          (λ x.
            x >>= λ y. apply_record y (record { seq = st.seq + 1; timestamp = now; events = es }))
          r.replayed)
    ∙ r'.replayed
