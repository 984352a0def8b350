-- ===== src/Prelude/Maps.antt =====
-- `HashMap` and `HashSet`: association lists and lists without repetition, over keys with a
-- decidable equality.
use Prim.Native.Nat.{ℕ}
use mathlib.Core.Path.{◌≡◌, refl}
use mathlib.Core.Logic.{◌↔◌}
use mathlib.Core.Bool.{Bool, true, false, ◌||◌}
use mathlib.Core.Option.{Option, none, some}
use mathlib.Core.List.{List, [], ◌∷◌, ◌++◌}
use native.Mathlib.Omega.{arith}
use sentinel_kv.Prelude.Tests.{nat_beq, nat_beq_iff, if◌then◌else◌}
use sentinel_kv.Prelude.Strings.{Text, text_beq, text_beq_iff}

-- A key type whose equality the program can test.
pub record Eq {κ} (K : Type κ) : Type κ where
  pub same : K → K → Bool
  pub same_iff : (j k : K) → (same j k ≡ true) ↔ (j ≡ k)

-- Allocation ids are compared as numbers, the ids and classes of conditions as texts.
instance abbrev pub text_eq : Eq Text
text_eq = record { same = text_beq; same_iff = text_beq_iff }

instance abbrev pub nat_eq : Eq ℕ
nat_eq = record { same = nat_beq; same_iff = nat_beq_iff }

abbrev pub Map : Type 0 → Type 0 → Type 0
Map K V = List (K × V)

infix 50 ◌==◌
abbrev pub ◌==◌ {κ} : {K : Type κ} ⦃keys : Eq K⦄ → K → K → Bool
◌==◌ ⦃keys⦄ j k = keys.same j k

module _ {K V : Type 0} ⦃keys : Eq K⦄ where
  unfoldable pub get : K → Map K V → Option V
  get k [] = none
  get k ((j, v) ∷ m) = if j == k then some v else get k m

  -- A new binding hides the older ones of its key.
  unfoldable pub insert : K → V → Map K V → Map K V
  insert k v m = (k, v) ∷ m

  pub get-insert :
      (k j : K) (v : V) (m : Map K V) → get j (insert k v m) ≡ (if k == j then some v else get j m)
  unfolding get insert
  get-insert k j v m = refl

module _ {A : Type 0} ⦃keys : Eq A⦄ where
  unfoldable pub contains : A → List A → Bool
  contains a [] = false
  contains a (x ∷ xs) = x == a || contains a xs

  -- `HashSet::insert`: the new set
  unfoldable pub add : A → List A → List A
  unfolding contains
  add a s = if contains a s then s else s ++ a ∷ []

  pub contains-append :
      (a : A) (xs ys : List A) → contains a (xs ++ ys) ≡ (contains a xs || contains a ys)
  unfolding contains
  contains-append a [] ys = refl
  contains-append a (x ∷ xs) ys = ground (arith, contains-append a xs ys)

  pub contains-add : (a b : A) (s : List A) → contains b (add a s) ≡ (a == b || contains b s)
  unfolding add contains
  contains-add a b s = ground (arith, contains-append b s (a ∷ []), keys.same_iff a b)
