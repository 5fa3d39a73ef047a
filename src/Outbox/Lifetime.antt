-- ===== src/Outbox/Lifetime.antt =====
-- The life of one publication: a publication that takes the steps of Outbox/Steps stays sound.
use tau_ceti_worker.Outbox.Server.{Shows}
use tau_ceti_worker.Outbox.Classify.{finish}
use tau_ceti_worker.Outbox.Turns.{ran, idle, drain_one_safe, Turned, AnswersHonestly}
use tau_ceti_worker.Outbox.Once.{there, gone, finish_safe, disposed, count_le, count, IsSafeIntent}
use tau_ceti_worker.Outbox.Drain.{finish_attempt, abandon, drain_one, Turn, finished, Pass}
use tau_ceti_worker.Prelude.{
  ◌∙◌, true, suc, ap, Bool-cases, arith, ◌<◌, ◌+◌, length, ◌≤◌, sym, string_eq, subst, lookup, ℕ,
  none, some, false, Option, Bool, ◌∷◌, String, ◌≡◌, inl, inr, refl,
}
use tau_ceti_worker.Outbox.State.{
  write, begin_with, archive, is_unsent, start_send, is_update, begin_sending, Reply, Outbox,
  Intent, sending,
}
use tau_ceti_worker.Outbox.Steps.{
  effect, Step, Reach, begins, finishes, crashes, drains, interrupted, abandons, elsewhere, start,
  next,
}

module _ (mentions : String → String → Bool) (is_sha : String → Bool) (plain : String → String)
    (path : String) where
  abbrev IsSafe : Outbox → ℕ → Type 0
  IsSafe box n = IsSafeIntent (lookup path box.intents) n

  -- An intent whose first command runs cannot be sent.
  abbrev IsBusy : Option (Option Intent) → Type 0
  IsBusy none = Unit
  IsBusy (some none) = Unit
  IsBusy (some (some v)) = (is_unsent v.status ≡ false) × (is_update v.operation ≡ false)

  abbrev IsSound : Outbox → ℕ → Bool → Type 0
  IsSound box n false = IsSafe box n
  IsSound box n true = (n ≡ 0) × IsBusy (lookup path box.intents)

  ended : (o : Option (Option Intent)) (did : Bool) → IsBusy o → IsSafeIntent o (count did)
  ended none did busy = count_le did
  ended (some none) did busy = count_le did
  ended (some (some v)) did (s, u) = (count_le did, λ h. absurd (cc), u)

  finished-IsSafe :
      (now : ℕ) (o : Option (Option Intent)) (r : Reply) (did : Bool) (box : Outbox)
      → AnswersHonestly (some r) did
      → IsBusy o
      → lookup path box.intents ≡ o
      → IsSafe (finished mentions now path o r box) (count did)
  unfolding finished
  finished-IsSafe now none r did box honest busy e =
      subst (λ o. IsSafeIntent o (count did)) (sym e) (count_le did)
  finished-IsSafe now (some none) r did box honest busy e =
      subst (λ o. IsSafeIntent o (count did)) (sym e) (count_le did)
  finished-IsSafe now (some (some v)) r did box honest (s, u) e =
      disposed mentions path v (finish mentions now v r) did box
        (finish_safe mentions now v r did honest u)

  begun :
      (now : ℕ) (o : Option (Option Intent)) (box box' : Outbox) (n : ℕ)
      → IsSafeIntent o n
      → begin_with now path o box ≡ some box'
      → IsSound box' n true
  unfolding begin_with start_send
  begun now none box box' n safe h = absurd (cc)
  begun now (some none) box box' n safe h = absurd (cc)
  begun now (some (some v)) box box' n safe h = elim (Bool-cases (is_unsent v.status)) [
    | inr busy ↦ absurd (ground arith)
    | inl unsent ↦
        let w = record v { status = sending; updated = some now } in
        let here : lookup path (write path w box).intents ≡ some (some w) =
          unfold write in there path (some w) box.intents in
        let done : write path w box ≡ box' = ground arith in
        (
          safe.1 unsent,
          subst (λ b. IsBusy (lookup path b.intents)) done (subst IsBusy (sym here) (refl, safe.2)),
        )
  ]

  -- A second attempt does not begin while the first runs.
  busy_refused :
      (now : ℕ) (o : Option (Option Intent)) (box box' : Outbox)
      → IsBusy o
      → begin_with now path o box ≡ some box'
      → ⊥
  unfolding begin_with start_send
  busy_refused now none box box' busy h = absurd (cc)
  busy_refused now (some none) box box' busy h = absurd (cc)
  busy_refused now (some (some v)) box box' (s, u) h = absurd (ground arith)

  begin_sending-IsSound :
      (now : ℕ) (running : Bool) (box box' : Outbox) (n : ℕ)
      → IsSound box n running
      → begin_sending now path box ≡ some box'
      → IsSound box' n true
  unfolding begin_sending
  begin_sending-IsSound now false box box' n safe h =
      begun now (lookup path box.intents) box box' n safe h
  begin_sending-IsSound now true box box' n (none_yet, busy) h =
      absurd (busy_refused now (lookup path box.intents) box box' busy h)

  effect-same : (p p' : Pass) (did : Bool) → p'.executed ≡ p.executed → effect p p' did ≡ 0
  effect-same p p' did h =
      let lengths : length p'.executed ≡ length p.executed = ap (λ x. length x) h in ground arith

  effect-more :
      (p p' : Pass) (did : Bool) → p'.executed ≡ path ∷ p.executed → effect p p' did ≡ count did
  effect-more p p' did h =
      let lengths : length p'.executed ≡ suc (length p.executed) = ap (λ x. length x) h in
      ground arith

  turned :
      (did : Bool) (n : ℕ) (p p' : Pass)
      → Turned path did n p p'
      → IsSafe p'.box (n + effect p p' did)
  turned did n p p' (idle same safe) =
      subst (λ m. IsSafe p'.box m) (omega (arith, effect-same p p' did same)) safe
  turned did n p p' (ran more safe) =
      subst (λ m. IsSafe p'.box (n + m)) (sym (effect-more p p' did more)) safe

  safe_le : (o : Option (Option Intent)) (n : ℕ) → IsSafeIntent o n → n ≤ 1
  safe_le none n h = h
  safe_le (some none) n h = h
  safe_le (some (some v)) n h = h.0

  abandoned : (v : Intent) (box : Outbox) (n : ℕ) → n ≤ 1 → IsSafe (abandon path v box) n
  unfolding abandon archive
  abandoned v box n h = rw (gone path box.intents) h

  abandoned-IsSound :
      (v : Intent) (running : Bool) (box : Outbox) (n : ℕ)
      → IsSound box n running
      → IsSound (abandon path v box) n running
  abandoned-IsSound v false box n safe = abandoned v box n (safe_le _ n safe)
  abandoned-IsSound v true box n (none_yet, busy) =
      (none_yet, unfold abandon archive in subst IsBusy (sym (gone path box.intents)) tt)

  unmoved :
      (running : Bool) (box box' : Outbox) (n : ℕ)
      → lookup path box'.intents ≡ lookup path box.intents
      → IsSound box n running
      → IsSound box' n running
  unmoved false box box' n same safe = subst (λ o. IsSafeIntent o n) (sym same) safe
  unmoved true box box' n same (none_yet, busy) = (none_yet, subst IsBusy (sym same) busy)

  drain_one-IsSafe :
      (t : Turn) (did : Bool) (p : Pass) (n : ℕ)
      → AnswersHonestly t.reply did
      → ((v : Intent)
          → lookup path p.box.intents ≡ some (some v)
          → 0 < n
          → Shows is_sha plain v.operation v t.evidence)
      → IsSafe p.box n
      → IsSafe
          (drain_one mentions is_sha plain t path p).box
          (n + effect p (drain_one mentions is_sha plain t path p) did)
  drain_one-IsSafe t did p n honest shows safe =
      turned did n p _ (drain_one_safe mentions is_sha plain t path did n p honest shows safe)

  relaunched :
      (v : Intent) (box : Outbox) (n : ℕ)
      → lookup path box.intents ≡ some (some v)
      → IsSafe box n
      → IsSafe (write path (record v { status = sending }) box) n
  unfolding write
  relaunched v box n at safe =
      let (few, none_yet, u) = subst (λ o. IsSafeIntent o n) at safe in
      subst (λ o. IsSafeIntent o n)
        (sym (there path (some (record v { status = sending })) box.intents))
        (few, λ h. absurd (cc), u)

  Step-IsSound :
      {box box' : Outbox} {n n' : ℕ} {running running' : Bool}
      → Step mentions is_sha plain path box n running box' n' running'
      → IsSound box n running
      → IsSound box' n' running'
  Step-IsSound {box} {box'} {n} {n'} {running} {running'} (begins now h same runs) safe =
      subst (λ m. IsSound box' m running') (sym same)
        (subst (λ b. IsSound box' n b) (sym runs)
          (begin_sending-IsSound now running box box' n safe h))
  Step-IsSound {box} {box'} {n} {n'} {running} {running'} (finishes now r did honest ran' h e over)
        safe =
      let (none_yet, busy) = subst (λ b. IsSound box n b) ran' safe in
      let total : count did ≡ n' = omega arith in
      let after : IsSafe (finish_attempt mentions now path r box) (count did) =
        unfold finish_attempt in finished-IsSafe now _ r did box honest busy refl in
      subst (λ b. IsSound box' n' b) (sym over)
        (subst (λ m. IsSafe box' m) total (subst (λ b. IsSafe b (count did)) (sym h) after))
  Step-IsSound {box} {box'} {n} {n'} {running} {running'} (crashes did ran' h e over) safe =
      let (none_yet, busy) = subst (λ b. IsSound box n b) ran' safe in
      let total : count did ≡ n' = omega arith in
      subst (λ b. IsSound box' n' b) (sym over)
        (subst (λ m. IsSafe box' m) total
          (subst (λ b. IsSafe b (count did)) (sym h) (ended _ did busy)))
  Step-IsSound {box} {box'} {n} {n'} {running} {running'}
        (drains t did p honest rests same shows here there' e) safe =
      let safe' : IsSafe p.box n =
        subst (λ b. IsSafe b n) (sym here) (subst (λ b. IsSound box n b) rests safe) in
      let after =
        drain_one-IsSafe t did p n honest
          (λ v at. shows v (subst (λ b. lookup path b.intents ≡ some (some v)) here at)) safe' in
      subst (λ b. IsSound box' n' b) (sym (same ∙ rests))
        (subst (λ m. IsSafe box' m) (sym e)
          (subst (λ b. IsSafe b (n + effect p (drain_one mentions is_sha plain t path p) did))
            there' after))
  Step-IsSound {box} {box'} {n} {n'} {running} {running'}
        (interrupted t did p v silent rests same shows here ran' at e total) safe =
      let safe' : IsSafe p.box n =
        subst (λ b. IsSafe b n) (sym here) (subst (λ b. IsSound box n b) rests safe) in
      let after =
        drain_one-IsSafe t did p n (subst (λ r. AnswersHonestly r did) (sym silent) tt)
          (λ w found. shows w (subst (λ b. lookup path b.intents ≡ some (some w)) here found))
          safe' in
      subst (λ b. IsSound box' n' b) (sym (same ∙ rests))
        (subst (λ m. IsSafe box' m) (sym total)
          (subst (λ b. IsSafe b (n + effect p (drain_one mentions is_sha plain t path p) did))
            (sym e) (relaunched v _ _ at after)))
  Step-IsSound {box} {box'} {n} {n'} {running} {running'} (abandons v here e same keeps) safe =
      subst (λ b. IsSound box' n' b) (sym keeps)
        (subst (λ m. IsSound box' m running) (sym same)
          (subst (λ b. IsSound b n running) (sym e) (abandoned-IsSound v running box n safe)))
  Step-IsSound {box} {box'} {n} {n'} {running} {running'} (elsewhere same e keeps) safe =
      subst (λ b. IsSound box' n' b) (sym keeps)
        (subst (λ m. IsSound box' m running) (sym e) (unmoved running box box' n same safe))

  Reach-IsSound :
      (v : Intent) (box : Outbox) (n : ℕ) (running : Bool)
      → is_update v.operation ≡ false
      → Reach mentions is_sha plain path v box n running
      → IsSound box n running
  Reach-IsSound v box n running u (start b here status) =
      subst (λ o. IsSafeIntent o 0) (sym here) (omega arith, λ h. refl, u)
  Reach-IsSound v box n running u (next r s) = Step-IsSound s (Reach-IsSound v _ _ _ u r)

  sound_le : (box : Outbox) (n : ℕ) (running : Bool) → IsSound box n running → n ≤ 1
  sound_le box n false safe = safe_le _ n safe
  sound_le box n true (none_yet, busy) = omega arith

  -- A publication that is no plain update takes effect at most once, whatever attempts, crashes,
  -- passes and changes elsewhere follow its preparation, if no pass takes the intent up while the
  -- command of a first attempt runs, replies are honest, the reads show what took effect, and the
  -- operator forces no retry.
  pub Reach-once :
      (v : Intent) (box : Outbox) (n : ℕ) (running : Bool)
      → is_update v.operation ≡ false
      → Reach mentions is_sha plain path v box n running
      → n ≤ 1
  Reach-once v box n running u r = sound_le box n running (Reach-IsSound v box n running u r)
