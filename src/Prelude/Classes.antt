-- ===== src/Prelude/Classes.antt =====
-- Types whose values a Boolean test tells apart, with the instances for texts and numbers.
use Prim.Native.Nat.{ℕ}
use Prim.Native.String.{String}
use mathlib.Core.Path.{◌≡◌, refl}
use mathlib.Core.Logic.{◌↔◌}
use mathlib.Core.Bool.{Bool, true}
use text.Mathlib.Text.{◌==◌ as same_text}
use text.Mathlib.TextEquality.{eq_iff}
use notify_hub.Prelude.Tests.{nat_beq, nat_beq_iff}

-- Go's comparable: what `==` may be asked of.
pub record Comparable {ℓ} (K : Type ℓ) : Type ℓ where
  pub same : K → K → Bool
  pub same_iff : (x y : K) → (same x y ≡ true) ↔ (x ≡ y)

instance abbrev pub string_eq : Comparable String
string_eq = record { same = same_text; same_iff = eq_iff }

instance abbrev pub nat_eq : Comparable ℕ
nat_eq = record { same = nat_beq; same_iff = nat_beq_iff }

infix 50 ◌==◌
abbrev pub ◌==◌ {ℓ} : {K : Type ℓ} ⦃c : Comparable K⦄ → K → K → Bool
◌==◌ ⦃c⦄ x y = c.same x y

pub beq_refl {ℓ} : {K : Type ℓ} ⦃c : Comparable K⦄ (x : K) → (x == x) ≡ true
beq_refl ⦃c⦄ x = (c.same_iff x x).1 refl
