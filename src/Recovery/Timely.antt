-- ===== src/Recovery/Timely.antt =====
-- When `due` calls for a round, by the retry times of the records.
use tau_ceti_worker.Recovery.Due.{
  metadata_waits, migratable, retryable, local_waits, has_changed, terminal, is_rechecked,
  recovery_protocol, is_timely, is_due, due, Journal, turn,
}
use tau_ceti_worker.Prelude.{
  string_eq, nat_eq, ◌+◌, leb, Bool-cases, contains, arith, any, all, ◌||◌, ◌==◌, not, List, ◌&&◌,
  Dict, Eq, true, false, ◌≡◌, refl, ℕ, String, Option, Bool, inl, inr, [], ◌∷◌,
}

turn-early :
    (offered timely changed finished waits present migrates blocked : Bool)
    (rechecked allowance metadata moved roadmap local : Bool)
    → timely ≡ false
    → ((offered && changed) || (not present || (rechecked || moved))) ≡ false
    → turn offered timely changed finished waits present migrates blocked rechecked allowance
        metadata moved roadmap local
      ≡ false
unfolding turn
turn-early offered timely changed finished waits present migrates blocked rechecked allowance
      metadata moved roadmap local h x =
    ground arith

turn-ready :
    (offered timely changed finished waits present migrates blocked : Bool)
    (rechecked allowance metadata moved roadmap local : Bool)
    → (((present && not finished) && not blocked) && (not local && timely)) ≡ true
    → turn offered timely changed finished waits present migrates blocked rechecked allowance
        metadata moved roadmap local
      ≡ true
unfolding turn
turn-ready offered timely changed finished waits present migrates blocked rechecked allowance
      metadata moved roadmap local h =
    ground arith

module _ {ℓ} {V : Type ℓ} ⦃e : Eq V⦄ where
  -- A record that may be due before its retry time.
  abbrev pub is_exempt : ℕ → Option String → Option (String → Dict String V) → Journal V → Bool
  is_exempt now agent current j =
      (j.offered && j.receipt_changed)
      || (not (j.protocol == recovery_protocol)
          || (is_rechecked now j || has_changed agent current j))

  early :
      (now : ℕ) (metadata_due : Bool) (agent : Option String)
      (current : Option (String → Dict String V)) (j : Journal V)
      → is_timely now j ≡ false
      → is_exempt now agent current j ≡ false
      → is_due now metadata_due agent current j ≡ false
  unfolding is_due
  early now metadata_due agent current j h x =
      turn-early j.offered (is_timely now j) j.receipt_changed (contains j.state terminal)
        (contains j.code retryable) (j.protocol == recovery_protocol) (contains j.code migratable)
        (j.state == "blocked") (is_rechecked now j) (j.code == "content-allowance")
        (contains j.code metadata_waits && metadata_due) (has_changed agent current j)
        (j.code == "roadmap-policy" && metadata_due) (contains j.code local_waits) h x

  all_early :
      (now : ℕ) (metadata_due : Bool) (agent : Option String)
      (current : Option (String → Dict String V)) (js : List (Journal V))
      → all (λ j. not (is_timely now j) && not (is_exempt now agent current j)) js ≡ true
      → any (is_due now metadata_due agent current) js ≡ false
  all_early now metadata_due agent current [] h = refl
  all_early now metadata_due agent current (j ∷ js) h =
      let ahead : is_timely now j ≡ false = ground arith in
      let plain : is_exempt now agent current j ≡ false = ground arith in
      let rest = all_early now metadata_due agent current js (ground arith) in
      let this = early now metadata_due agent current j ahead plain in ground arith

  -- No round is due while every record's retry time is ahead, unless a record offers a changed
  -- source, has another protocol, reached its mechanical recheck, or was saved under a selection
  -- that changed.
  pub due-early :
      (off : Bool) (now blocked_probe_at : ℕ) (agent : Option String)
      (current : Option (String → Dict String V)) (js : List (Journal V))
      → all (λ j. not (is_timely now j) && not (is_exempt now agent current j)) js ≡ true
      → due off now blocked_probe_at agent current js ≡ false
  unfolding due
  due-early off now blocked_probe_at agent current js h =
      let rest = all_early now (leb (blocked_probe_at + 1800) now) agent current js h in
      ground arith

  -- A record of the present protocol whose retry time has come.
  abbrev pub is_ready : ℕ → Journal V → Bool
  is_ready now j =
      ((j.protocol == recovery_protocol && not (contains j.state terminal))
        && not (j.state == "blocked"))
      && (not (contains j.code local_waits) && is_timely now j)

  ready :
      (now : ℕ) (metadata_due : Bool) (agent : Option String)
      (current : Option (String → Dict String V)) (j : Journal V)
      → is_ready now j ≡ true
      → is_due now metadata_due agent current j ≡ true
  unfolding is_due
  ready now metadata_due agent current j h =
      turn-ready j.offered (is_timely now j) j.receipt_changed (contains j.state terminal)
        (contains j.code retryable) (j.protocol == recovery_protocol) (contains j.code migratable)
        (j.state == "blocked") (is_rechecked now j) (j.code == "content-allowance")
        (contains j.code metadata_waits && metadata_due) (has_changed agent current j)
        (j.code == "roadmap-policy" && metadata_due) (contains j.code local_waits) h

  one_ready :
      (now : ℕ) (metadata_due : Bool) (agent : Option String)
      (current : Option (String → Dict String V)) (js : List (Journal V))
      → any (is_ready now) js ≡ true
      → any (is_due now metadata_due agent current) js ≡ true
  one_ready now metadata_due agent current [] h = absurd (cc)
  one_ready now metadata_due agent current (j ∷ js) h = elim (Bool-cases (is_ready now j)) [
    | inl r ↦ let this = ready now metadata_due agent current j r in ground arith
    | inr n ↦ let rest = one_ready now metadata_due agent current js (ground arith) in ground arith
  ]

  -- Unless recovery is off, a round is due as soon as one record of the present protocol that is
  -- neither finished, blocked nor in a local wait reaches its retry time, whatever the other records.
  pub due-ready :
      (now blocked_probe_at : ℕ) (agent : Option String) (current : Option (String → Dict String V))
      (js : List (Journal V))
      → any (is_ready now) js ≡ true
      → due false now blocked_probe_at agent current js ≡ true
  unfolding due
  due-ready now blocked_probe_at agent current js h =
      one_ready now (leb (blocked_probe_at + 1800) now) agent current js h
