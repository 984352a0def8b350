-- ===== src/Layout/Depth.antt =====
-- How much fuel `resolve_named_type` and `type_size` need: more than the height of the type, where
-- named structs do not hold themselves.
use sentinel_kv.Prelude.{
  some-injective, ℕ, zero, suc, ◌≤◌, ◌<◌, ◌≡◌, refl, Option, none, some, Text, ◌>>=◌, ◌*◌, ◌%◌,
  arith,
}
use Prim.Native.Nat.{max}
use sentinel_kv.Ir.{
  Ty, Tys, integer_type, pointer_type, array_type, struct_type, named_struct_type, other_type,
  NamedStructDef, opaque, defined, Module,
}
use sentinel_kv.Layout.Size.{
  checked_add, resolve_named_type, struct_size, size_of_resolved, type_size, u64_size,
}

-- the height of a type, given those of the named structs
unfoldable mutual
  pub height : (Text → ℕ) → Ty → ℕ
  height rank (integer_type b) = 1
  height rank pointer_type = 1
  height rank (array_type e n) = suc (height rank e)
  height rank (struct_type l) = suc (height_fields rank l)
  height rank (named_struct_type s) = suc (rank s)
  height rank other_type = 1

  pub height_fields : (Text → ℕ) → Tys → ℕ
  height_fields rank Tys.nil = 0
  height_fields rank (Tys.cons e l) = max (height rank e) (height_fields rank l)

-- The definition of each named struct is no higher than its rank, so that no struct holds itself.
abbrev pub IsRanked : Module → (Text → ℕ) → Type 0
IsRanked m rank =
    (s : Text) (ty : Ty) → m.named_struct_def s ≡ some (defined ty) → height rank ty ≤ rank s

no_height : (rank : Text → ℕ) (ty : Ty) → ¬ (height rank ty ≤ 0)
unfolding height
no_height rank (integer_type b) h = omega arith
no_height rank pointer_type h = omega arith
no_height rank (array_type e n) h = omega arith
no_height rank (struct_type l) h = omega arith
no_height rank (named_struct_type s) h = omega arith
no_height rank other_type h = omega arith

same_height : (rank : Text → ℕ) (ty r : Ty) → some ty ≡ some r → height rank r ≤ height rank ty
same_height rank ty r e = rw (some-injective e) (omega arith)

module _ (m : Module) (rank : Text → ℕ) (ranked : IsRanked m rank) where
  resolve_defined-enough :
      (f g : ℕ) (o : Option NamedStructDef)
      → ((ty : Ty) → o ≡ some (defined ty) → resolve_named_type f m ty ≡ resolve_named_type g m ty)
      → ◌≡◌ {A = Option Ty}
          (elim o [ some (defined inner) ↦ resolve_named_type f m inner | _ ↦ none ])
          (elim o [ some (defined inner) ↦ resolve_named_type g m inner | _ ↦ none ])
  resolve_defined-enough f g (some (defined inner)) h = h inner refl
  resolve_defined-enough f g (some opaque) h = refl
  resolve_defined-enough f g none h = refl

  resolve_named_type-enough :
      (f g : ℕ) (ty : Ty)
      → height rank ty ≤ f
      → height rank ty ≤ g
      → resolve_named_type f m ty ≡ resolve_named_type g m ty
  unfolding resolve_named_type height
  resolve_named_type-enough zero g ty hf hg = absurd (no_height rank ty hf)
  resolve_named_type-enough (suc f) zero ty hf hg = absurd (no_height rank ty hg)
  resolve_named_type-enough (suc f) (suc g) (named_struct_type s) hf hg =
      resolve_defined-enough f g (m.named_struct_def s) λ ty e.
        let below = ranked s ty e in resolve_named_type-enough f g ty (omega arith) (omega arith)
  resolve_named_type-enough (suc f) (suc g) (integer_type b) hf hg = refl
  resolve_named_type-enough (suc f) (suc g) pointer_type hf hg = refl
  resolve_named_type-enough (suc f) (suc g) (array_type e n) hf hg = refl
  resolve_named_type-enough (suc f) (suc g) (struct_type l) hf hg = refl
  resolve_named_type-enough (suc f) (suc g) other_type hf hg = refl

  named_height :
      (s : Text) (ty r : Ty)
      → height rank ty ≤ rank s
      → height rank r ≤ height rank ty
      → height rank r ≤ height rank (named_struct_type s)
  unfolding height
  named_height s ty r a b = omega arith

  resolve_defined-height :
      (f : ℕ) (o : Option NamedStructDef) (r : Ty) (k : ℕ)
      → ((ty : Ty) → o ≡ some (defined ty) → resolve_named_type f m ty ≡ some r → height rank r ≤ k)
      → elim o [ some (defined inner) ↦ resolve_named_type f m inner | _ ↦ none ] ≡ some r
      → height rank r ≤ k
  resolve_defined-height f (some (defined inner)) r k h e = h inner refl e
  resolve_defined-height f (some opaque) r k h e = cc
  resolve_defined-height f none r k h e = cc

  -- what a type resolves to is no higher
  resolve_named_type-height :
      (f : ℕ) (ty r : Ty) → resolve_named_type f m ty ≡ some r → height rank r ≤ height rank ty
  unfolding resolve_named_type
  resolve_named_type-height zero ty r e = cc
  resolve_named_type-height (suc f) (named_struct_type s) r e =
      resolve_defined-height f (m.named_struct_def s) r _
        (λ ty d e'. named_height s ty r (ranked s ty d) (resolve_named_type-height f ty r e')) e
  resolve_named_type-height (suc f) (integer_type b) r e = same_height rank (integer_type b) r e
  resolve_named_type-height (suc f) pointer_type r e = same_height rank pointer_type r e
  resolve_named_type-height (suc f) (array_type t n) r e = same_height rank (array_type t n) r e
  resolve_named_type-height (suc f) (struct_type l) r e = same_height rank (struct_type l) r e
  resolve_named_type-height (suc f) other_type r e = same_height rank other_type r e

  after_size :
      (f g : Ty → Option ℕ) (l : Tys)
      → ((t : ℕ) → struct_size f t l ≡ struct_size g t l)
      → (o : Option ℕ) → (o >>= λ t. struct_size f t l) ≡ (o >>= λ t. struct_size g t l)
  after_size f g l same none = refl
  after_size f g l same (some t) = same t

  after_field :
      (f g : Ty → Option ℕ) (l : Tys) (total : ℕ)
      → ((t : ℕ) → struct_size f t l ≡ struct_size g t l)
      → (o : Option ℕ)
      → (do s ← o; t ← checked_add total s; struct_size f t l)
        ≡ (do s ← o; t ← checked_add total s; struct_size g t l)
  after_field f g l total same none = refl
  after_field f g l total same (some s) = after_size f g l same (checked_add total s)

  -- two ways to size the parts agree on a struct if they do on all that is lower than it
  struct_size-enough :
      (f g : Ty → Option ℕ) (total : ℕ) (l : Tys) (k : ℕ)
      → ((ty : Ty) → height rank ty < k → f ty ≡ g ty)
      → height_fields rank l < k
      → struct_size f total l ≡ struct_size g total l
  unfolding struct_size height
  struct_size-enough f g total Tys.nil k same lt = refl
  struct_size-enough f g total (Tys.cons e l) k same lt =
      rw (same e (omega arith))
        (after_field f g l total (λ t. struct_size-enough f g t l k same (omega arith)) (g e))

  array_after :
      (n : ℕ) {a b : Option ℕ}
      → a ≡ b
      → (do s ← a; some (s * n % u64_size)) ≡ (do s ← b; some (s * n % u64_size))
  array_after n e = rw e

  size_of_resolved-enough :
      (f g : Ty → Option ℕ) (ty : Ty) (k : ℕ)
      → ((part : Ty) → height rank part < k → f part ≡ g part)
      → height rank ty ≤ k
      → size_of_resolved f ty ≡ size_of_resolved g ty
  unfolding size_of_resolved height
  size_of_resolved-enough f g (integer_type b) k same le = refl
  size_of_resolved-enough f g pointer_type k same le = refl
  size_of_resolved-enough f g (array_type e n) k same le = array_after n (same e (omega arith))
  size_of_resolved-enough f g (struct_type l) k same le =
      struct_size-enough f g 0 l k same (omega arith)
  size_of_resolved-enough f g (named_struct_type s) k same le = refl
  size_of_resolved-enough f g other_type k same le = refl

  resolved-enough :
      (f g : Ty → Option ℕ) (o : Option Ty) (k : ℕ)
      → ((part : Ty) → height rank part < k → f part ≡ g part)
      → ((r : Ty) → o ≡ some r → height rank r ≤ k)
      → (do r ← o; size_of_resolved f r) ≡ (do r ← o; size_of_resolved g r)
  resolved-enough f g none k same le = refl
  resolved-enough f g (some r) k same le = size_of_resolved-enough f g r k same (le r refl)

  -- Where no named struct holds itself, every fuel above the height of a type makes `type_size` give
  -- the same answer: more fuel changes nothing.
  pub type_size-enough :
      (f g : ℕ) (ty : Ty)
      → height rank ty < f
      → height rank ty < g
      → type_size f m ty ≡ type_size g m ty
  unfolding type_size
  type_size-enough zero g ty hf hg = absurd (omega arith)
  type_size-enough (suc f) zero ty hf hg = absurd (omega arith)
  type_size-enough (suc f) (suc g) ty hf hg =
      rw (resolve_named_type-enough f g ty (omega arith) (omega arith)) (
        resolved-enough (type_size f m) (type_size g m) (resolve_named_type g m ty) (height rank ty)
          (λ part lt. type_size-enough f g part (omega arith) (omega arith))
          (λ r e. resolve_named_type-height g ty r e))
