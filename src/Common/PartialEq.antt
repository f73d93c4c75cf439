-- ===== src/Common/PartialEq.antt =====
-- Rust's `PartialEq` on the key types that the models compare, as an instance argument.
use Prim.Native.Nat.{ℕ}
use Prim.Native.String.{String}
use text.Mathlib.Text
use text.Mathlib.TextEquality
use mathlib.Core.Path.{◌≡◌, refl}
use mathlib.Core.Logic.{◌↔◌}
use mathlib.Core.Bool.{Bool, true, false}
use mathlib.Core.List.{List, [], ◌∷◌}
use hyperspot.Common.Tests.{nat_beq, nat_beq_iff, if◌then◌else◌}

pub record PartialEq {ℓ} (K : Type ℓ) : Type ℓ where
  pub agrees : K → K → Bool
  pub agrees_iff : (j k : K) → (agrees j k ≡ true) ↔ (j ≡ k)

module _ {ℓ} {K : Type ℓ} ⦃key : PartialEq K⦄ where
  infix 50 ◌==◌
  abbrev pub ◌==◌ : K → K → Bool
  ◌==◌ = key.agrees

  pub ==_refl : (k : K) → (k == k) ≡ true
  ==_refl k = (key.agrees_iff k k).1 refl

  pub ==→≡ : (j k : K) → (j == k) ≡ true → j ≡ k
  ==→≡ j k = (key.agrees_iff j k).0

  -- `contains` on a slice.
  abbrev pub contains : K → List K → Bool
  contains k [] = false
  contains k (j ∷ js) = if j == k then true else contains k js

instance abbrev pub string_key : PartialEq String
string_key = record { agrees_iff = TextEquality.eq_iff; agrees = Text.◌==◌ }

instance abbrev pub nat_key : PartialEq ℕ
nat_key = record { agrees_iff = nat_beq_iff; agrees = nat_beq }
