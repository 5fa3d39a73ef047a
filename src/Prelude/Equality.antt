-- ===== src/Prelude/Equality.antt =====
-- Python's `==` for the types that the program compares: numbers and texts.
use Prim.Native.Nat.{ℕ}
use Prim.Native.String.{String}
use mathlib.Core.Path.{◌≡◌, refl}
use mathlib.Core.Logic.{◌↔◌}
use mathlib.Core.Bool.{Bool, true, false, ◌||◌}
use mathlib.Core.List.{List, [], ◌∷◌}
use text.Mathlib.Text.{◌==◌ as str_eq}
use text.Mathlib.TextEquality.{eq_iff}
use tau_ceti_worker.Prelude.Tests.{◌==◌ as nat_beq, ==_iff}

-- A test that decides equality.
pub record Eq {κ} (K : Type κ) : Type κ where
  pub same : K → K → Bool
  pub same_iff : (j k : K) → (same j k ≡ true) ↔ (j ≡ k)

instance abbrev pub string_eq : Eq String
string_eq = record { same = str_eq; same_iff = eq_iff }

infix 50 ◌==◌
abbrev pub ◌==◌ {κ} : {K : Type κ} ⦃test : Eq K⦄ → K → K → Bool
◌==◌ ⦃test⦄ j k = test.same j k

-- `k in ks`
abbrev pub contains {κ} : {K : Type κ} ⦃test : Eq K⦄ → K → List K → Bool
contains k [] = false
contains k (j ∷ ks) = k == j || contains k ks

pub beq_refl {κ} : {K : Type κ} ⦃test : Eq K⦄ (k : K) → (k == k) ≡ true
beq_refl ⦃test⦄ k = (test.same_iff k k).1 refl

instance abbrev pub nat_eq : Eq ℕ
nat_eq = record { same = nat_beq; same_iff = ==_iff }
