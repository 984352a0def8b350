-- ===== src/Layout/Fuel.antt =====
-- The fuel of `resolve_named_type` and `type_size`.
use sentinel_kv.Prelude.{>>=-eq-some, ℕ, zero, suc, ◌≤◌, ◌≡◌, Option, none, some, arith}
use sentinel_kv.Ir.{
  Ty, Tys, integer_type, pointer_type, array_type, struct_type, named_struct_type, other_type,
  NamedStructDef, opaque, defined, Module,
}
use sentinel_kv.Layout.Size.{
  checked_add, resolve_named_type, struct_size, size_of_resolved, type_size,
}

-- the second computation answers whatever the first answers
abbrev pub Extends : {A : Type 0} → (A → Option ℕ) → (A → Option ℕ) → Type 0
Extends {A} f g = (a : A) (n : ℕ) → f a ≡ some n → g a ≡ some n

resolve_defined :
    (f g : ℕ) (m : Module) (o : Option NamedStructDef) (r : Ty)
    → ((ty : Ty) → resolve_named_type f m ty ≡ some r → resolve_named_type g m ty ≡ some r)
    → elim o [ some (defined inner) ↦ resolve_named_type f m inner | _ ↦ none ] ≡ some r
    → elim o [ some (defined inner) ↦ resolve_named_type g m inner | _ ↦ none ] ≡ some r
resolve_defined f g m (some (defined inner)) r more h = more inner h
resolve_defined f g m (some opaque) r more h = h
resolve_defined f g m none r more h = h

pub resolve_named_type-fuel :
    (f g : ℕ) (m : Module) (ty r : Ty)
    → f ≤ g
    → resolve_named_type f m ty ≡ some r
    → resolve_named_type g m ty ≡ some r
unfolding resolve_named_type
resolve_named_type-fuel zero g m ty r le h = cc
resolve_named_type-fuel (suc f) zero m ty r le h = absurd (omega arith)
resolve_named_type-fuel (suc f) (suc g) m (named_struct_type n) r le h =
    resolve_defined f g m (m.named_struct_def n) r
      (λ ty. resolve_named_type-fuel f g m ty r (omega arith)) h
resolve_named_type-fuel (suc f) (suc g) m (integer_type b) r le h = h
resolve_named_type-fuel (suc f) (suc g) m pointer_type r le h = h
resolve_named_type-fuel (suc f) (suc g) m (array_type e n) r le h = h
resolve_named_type-fuel (suc f) (suc g) m (struct_type l) r le h = h
resolve_named_type-fuel (suc f) (suc g) m other_type r le h = h

pub struct_size-Extends :
    (f g : Ty → Option ℕ) (total : ℕ) (l : Tys) (n : ℕ)
    → Extends f g
    → struct_size f total l ≡ some n
    → struct_size g total l ≡ some n
unfolding struct_size
struct_size-Extends f g total Tys.nil n e h = h
struct_size-Extends f g total (Tys.cons ty l) n e h =
    let (s, hs, h1) = >>=-eq-some (f ty) _ h in
    let (t, ht, h2) = >>=-eq-some (checked_add total s) _ h1 in
    rw (e ty s hs) (rw ht (struct_size-Extends f g t l n e h2))

pub size_of_resolved-Extends :
    (f g : Ty → Option ℕ) → Extends f g → Extends (size_of_resolved f) (size_of_resolved g)
unfolding size_of_resolved
size_of_resolved-Extends f g e (array_type ty k) n h =
    let (s, hs, h1) = >>=-eq-some (f ty) _ h in rw (e ty s hs) h1
size_of_resolved-Extends f g e (struct_type l) n h = struct_size-Extends f g 0 l n e h
size_of_resolved-Extends f g e (integer_type b) n h = h
size_of_resolved-Extends f g e pointer_type n h = h
size_of_resolved-Extends f g e (named_struct_type s) n h = h
size_of_resolved-Extends f g e other_type n h = h

-- A size that `type_size` finds does not depend on the fuel: with more of it the size is the same.
pub type_size-fuel :
    (f g : ℕ) (m : Module) (ty : Ty) (n : ℕ)
    → f ≤ g
    → type_size f m ty ≡ some n
    → type_size g m ty ≡ some n
unfolding type_size
type_size-fuel zero g m ty n le h = cc
type_size-fuel (suc f) zero m ty n le h = absurd (omega arith)
type_size-fuel (suc f) (suc g) m ty n le h =
    let (r, hr, h1) = >>=-eq-some (resolve_named_type f m ty) _ h in
    let below : f ≤ g = omega arith in
    rw (resolve_named_type-fuel f g m ty r below hr) (
      size_of_resolved-Extends (type_size f m) (type_size g m)
        (λ ty' k. type_size-fuel f g m ty' k below) r n h1)
