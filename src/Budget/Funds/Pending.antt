-- ===== src/Budget/Funds/Pending.antt =====
-- The reservations of a state as a sum over its sessions.
use tau_ceti_worker.Prelude.{
  String, true, [], ◌∷◌, Dict, values, filter, ◌≡◌, refl, arith, if◌then◌else◌,
}
use tau_ceti_worker.Prelude.Int.{ℤ, pos, zero_add}
use tau_ceti_worker.Prelude.Sums.{sum_by}
use tau_ceti_worker.Budget.State.{Session, State}
use tau_ceti_worker.Budget.Estimate.{is_settled, every, selected, sessions}
use tau_ceti_worker.Budget.Admission.{held, total_held, pending}

-- What a session holds back: nothing once it is settled.
abbrev pub weight : Session → ℤ
weight s = if is_settled s.status then pos 0 else held s

total_held-filter :
    (d : Dict String Session)
    → total_held (filter (selected (record every { active = true })) (values d)) ≡ sum_by weight d
unfolding total_held selected sum_by
total_held-filter [] = refl
total_held-filter ((k, s) ∷ d) = ground (arith, total_held-filter d, zero_add (sum_by weight d))

pub pending-eq-sum : (st : State) → pending st ≡ sum_by weight st.sessions
unfolding pending sessions
pending-eq-sum st = total_held-filter st.sessions
