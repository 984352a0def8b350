-- ===== src/Layout/Meaning.antt =====
-- The size of a type, apart from how `type_size` of skv-analyzer/src/main.rs finds it.
use sentinel_kv.Prelude.{
  some-injective, >>=-eq-some, ℕ, zero, suc, ◌+◌, ◌*◌, ◌/◌, ◌%◌, ◌<◌, ◌≡◌, refl, subst, Option,
  none, some, Text, arith,
}
use sentinel_kv.Ir.{
  Ty, Tys, integer_type, pointer_type, array_type, struct_type, named_struct_type, other_type,
  NamedStructDef, opaque, defined, Module,
}
use sentinel_kv.Layout.Size.{
  u64_size, checked_add, resolve_named_type, struct_size, size_of_resolved, type_size,
}

-- The bytes of a type: an integer takes its bits rounded up, a pointer 8, an array the product, which
-- wraps in 64 bits, a struct the sum of its fields if that fits in 64 bits, a named struct what its
-- definition takes. An opaque or unknown struct and every other type have no size.
mutual
  pub data HasSize (m : Module) : Ty → ℕ → Type 0 where
    integer : (bits : ℕ) → HasSize m (integer_type bits) ((bits + 7) / 8)
    pointer : HasSize m pointer_type 8
    array :
        {elem : Ty} {s : ℕ} (n : ℕ)
        → HasSize m elem s
        → HasSize m (array_type elem n) (s * n % u64_size)
    struct :
        {elems : Tys} {total : ℕ}
        → HaveSizes m elems total
        → total < u64_size
        → HasSize m (struct_type elems) total
    named :
        {s : Text} {inner : Ty} {n : ℕ}
        → m.named_struct_def s ≡ some (defined inner)
        → HasSize m inner n
        → HasSize m (named_struct_type s) n

  pub data HaveSizes (m : Module) : Tys → ℕ → Type 0 where
    no_fields : HaveSizes m Tys.nil 0
    field :
        {elem : Ty} {rest : Tys} {s total : ℕ}
        → HasSize m elem s
        → HaveSizes m rest total
        → HaveSizes m (Tys.cons elem rest) (s + total)

checked_add-eq-some : (a b t : ℕ) → checked_add a b ≡ some t → (t ≡ a + b) × (a + b < u64_size)
unfolding checked_add
checked_add-eq-some a b t h = ground arith

module _ (m : Module) where
  resolve_defined-HasSize :
      (f : ℕ) (s : Text) (o : Option NamedStructDef) (r : Ty) (n : ℕ)
      → m.named_struct_def s ≡ o
      → ((inner : Ty) → resolve_named_type f m inner ≡ some r → HasSize m inner n)
      → elim o [ some (defined inner) ↦ resolve_named_type f m inner | _ ↦ none ] ≡ some r
      → HasSize m (named_struct_type s) n
  resolve_defined-HasSize f s (some (defined inner)) r n e below h = named e (below inner h)
  resolve_defined-HasSize f s (some opaque) r n e below h = cc
  resolve_defined-HasSize f s none r n e below h = cc

  -- what a type resolves to has its size
  resolve_named_type-HasSize :
      (f : ℕ) (ty r : Ty) (n : ℕ)
      → resolve_named_type f m ty ≡ some r
      → HasSize m r n
      → HasSize m ty n
  unfolding resolve_named_type
  resolve_named_type-HasSize zero ty r n h z = cc
  resolve_named_type-HasSize (suc f) (named_struct_type s) r n h z =
      resolve_defined-HasSize f s (m.named_struct_def s) r n refl
        (λ inner e. resolve_named_type-HasSize f inner r n e z) h
  resolve_named_type-HasSize (suc f) (integer_type b) r n h z = rw (some-injective h) z
  resolve_named_type-HasSize (suc f) pointer_type r n h z = rw (some-injective h) z
  resolve_named_type-HasSize (suc f) (array_type t k) r n h z = rw (some-injective h) z
  resolve_named_type-HasSize (suc f) (struct_type l) r n h z = rw (some-injective h) z
  resolve_named_type-HasSize (suc f) other_type r n h z = rw (some-injective h) z

  -- what a loop over fields adds to the running total
  struct_size-HaveSizes :
      (size : Ty → Option ℕ)
      → ((ty : Ty) (n : ℕ) → size ty ≡ some n → HasSize m ty n)
      → (total : ℕ) (l : Tys) (n : ℕ) → total < u64_size
      → struct_size size total l ≡ some n
      → (sum : ℕ) × (n ≡ total + sum) × (n < u64_size) × HaveSizes m l sum
  unfolding struct_size
  struct_size-HaveSizes size right total Tys.nil n fits h =
      let e = some-injective h in (0, omega arith, omega arith, no_fields)
  struct_size-HaveSizes size right total (Tys.cons elem rest) n fits h =
      let (s, found, h1) = >>=-eq-some (size elem) _ h in
      let (t, added, h2) = >>=-eq-some (checked_add total s) _ h1 in
      let (e, low) = checked_add-eq-some total s t added in
      let (sum, e', fits', have) = struct_size-HaveSizes size right t rest n (omega arith) h2 in
      (s + sum, omega arith, fits', field (right elem s found) have)

  size_of_resolved-HasSize :
      (size : Ty → Option ℕ)
      → ((ty : Ty) (n : ℕ) → size ty ≡ some n → HasSize m ty n)
      → (ty : Ty) (n : ℕ) → size_of_resolved size ty ≡ some n
      → HasSize m ty n
  unfolding size_of_resolved
  size_of_resolved-HasSize size right (integer_type b) n h = rw (← some-injective h) (integer b)
  size_of_resolved-HasSize size right pointer_type n h = rw (← some-injective h) pointer
  size_of_resolved-HasSize size right (array_type elem k) n h =
      let (s, found, h1) = >>=-eq-some (size elem) _ h in
      rw (← some-injective h1) (array k (right elem s found))
  size_of_resolved-HasSize size right (struct_type l) n h =
      let (sum, e, fits, have) = struct_size-HaveSizes size right 0 l n (omega arith) h in
      subst (λ k. HasSize m (struct_type l) k) (omega arith) (struct have (omega arith))
  size_of_resolved-HasSize size right (named_struct_type s) n h = cc
  size_of_resolved-HasSize size right other_type n h = cc

  -- a size that is found is the size
  pub type_size-HasSize : (f : ℕ) (ty : Ty) (n : ℕ) → type_size f m ty ≡ some n → HasSize m ty n
  unfolding type_size
  type_size-HasSize zero ty n h = cc
  type_size-HasSize (suc f) ty n h =
      let (r, resolved, h1) = >>=-eq-some (resolve_named_type f m ty) _ h in
      resolve_named_type-HasSize f ty r n resolved
        (size_of_resolved-HasSize (type_size f m) (type_size-HasSize f) r n h1)
