-- ===== src/Layout/Exact.antt =====
-- `type_size` of skv-analyzer/src/main.rs finds every size, and with fuel above the height of a type
-- no other answer.
use sentinel_kv.Prelude.{
  >>=-eq-some, ℕ, zero, suc, ◌+◌, ◌*◌, ◌/◌, ◌%◌, ◌<◌, ◌≡◌, ◌↔◌, refl, ap, ◌∙◌, subst, some, Text,
  arith,
}
use sentinel_kv.Ir.{
  Ty, Tys, integer_type, pointer_type, array_type, struct_type, named_struct_type, defined, Module,
}
use sentinel_kv.Layout.Size.{
  u64_size, checked_add, resolve_named_type, struct_size, size_of_resolved, type_size,
}
use sentinel_kv.Layout.Fuel.{struct_size-Extends, size_of_resolved-Extends, type_size-fuel}
use sentinel_kv.Layout.Depth.{height, IsRanked, type_size-enough}
use sentinel_kv.Layout.Meaning.{
  HasSize, integer, pointer, array, struct, named, HaveSizes, no_fields, field, type_size-HasSize,
}

checked_add_fits : (a b : ℕ) → a + b < u64_size → checked_add a b ≡ some (a + b)
unfolding checked_add
checked_add_fits a b h = ground arith

module _ (m : Module) where
  -- some fuel finds this size
  abbrev IsFound : Ty → ℕ → Type 0
  IsFound ty n = (f : ℕ) × (type_size f m ty ≡ some n)

  -- some fuel lets the loop over the fields add this sum
  abbrev AreSummed : Tys → ℕ → Type 0
  AreSummed l sum =
      (f : ℕ) × ((total : ℕ)
        → total + sum < u64_size
        → struct_size (type_size f m) total l ≡ some (total + sum))

  integer-IsFound : (bits : ℕ) → IsFound (integer_type bits) ((bits + 7) / 8)
  unfolding type_size resolve_named_type size_of_resolved
  integer-IsFound bits = (2, refl)

  pointer-IsFound : IsFound pointer_type 8
  unfolding type_size resolve_named_type size_of_resolved
  pointer-IsFound = (2, refl)

  array-IsFound :
      (elem : Ty) (s n : ℕ) → IsFound elem s → IsFound (array_type elem n) (s * n % u64_size)
  unfolding type_size resolve_named_type size_of_resolved
  array-IsFound elem s n (f, h) =
      (suc (suc f), rw (type_size-fuel f (suc f) m elem s (omega arith) h) refl)

  struct-IsFound :
      (elems : Tys) (total : ℕ)
      → AreSummed elems total
      → total < u64_size
      → IsFound (struct_type elems) total
  unfolding type_size resolve_named_type size_of_resolved
  struct-IsFound elems total (f, h) fits = (
    suc (suc f),
    struct_size-Extends (type_size f m) (type_size (suc f) m) 0 elems total
        (λ ty n. type_size-fuel f (suc f) m ty n (omega arith))
        (subst (λ k. struct_size (type_size f m) 0 elems ≡ some k) (omega arith)
          (h 0 (omega arith))),
  )

  resolve_named :
      (f : ℕ) (s : Text) (inner : Ty)
      → m.named_struct_def s ≡ some (defined inner)
      → resolve_named_type (suc f) m (named_struct_type s) ≡ resolve_named_type f m inner
  unfolding resolve_named_type
  resolve_named f s inner e = rw (resolve_named_type, e) refl

  named-IsFound :
      (s : Text) (inner : Ty) (n : ℕ)
      → m.named_struct_def s ≡ some (defined inner)
      → IsFound inner n
      → IsFound (named_struct_type s) n
  unfolding type_size
  named-IsFound s inner n e (zero, h) = cc
  named-IsFound s inner n e (suc f, h) =
      let (r, resolved, h1) = >>=-eq-some (resolve_named_type f m inner) _ h in
      let step = resolve_named f s inner e ∙ resolved in
      (
        suc (suc f),
        rw step (
            size_of_resolved-Extends (type_size f m) (type_size (suc f) m)
              (λ ty k. type_size-fuel f (suc f) m ty k (omega arith)) r n h1),
      )

  no_fields-AreSummed : AreSummed Tys.nil 0
  unfolding struct_size
  no_fields-AreSummed = (0, λ total fits. ap some (omega arith))

  field-AreSummed :
      (elem : Ty) (rest : Tys) (s sum : ℕ)
      → IsFound elem s
      → AreSummed rest sum
      → AreSummed (Tys.cons elem rest) (s + sum)
  unfolding struct_size
  field-AreSummed elem rest s sum (f, h) (g, more) = (
    f + g,
    λ total fits.
        let size = type_size-fuel f (f + g) m elem s (omega arith) h in
        let added = checked_add_fits total s (omega arith) in
        let summed =
          struct_size-Extends (type_size g m) (type_size (f + g) m) (total + s) rest _
            (λ ty n. type_size-fuel g (f + g) m ty n (omega arith))
            (more (total + s) (omega arith)) in
        rw (size, added)
          (subst (λ k. struct_size (type_size (f + g) m) (total + s) rest ≡ some k) (omega arith)
            summed),
  )

  mutual
    HasSize-IsFound : {ty : Ty} {n : ℕ} → HasSize m ty n → IsFound ty n
    HasSize-IsFound (integer bits) = integer-IsFound bits
    HasSize-IsFound pointer = pointer-IsFound
    HasSize-IsFound (array {elem} {s} n z) = array-IsFound elem s n (HasSize-IsFound z)
    HasSize-IsFound (struct {elems} {total} z fits) =
        struct-IsFound elems total (HaveSizes-AreSummed z) fits
    HasSize-IsFound (named {s} {inner} {n} e z) = named-IsFound s inner n e (HasSize-IsFound z)

    HaveSizes-AreSummed : {l : Tys} {sum : ℕ} → HaveSizes m l sum → AreSummed l sum
    HaveSizes-AreSummed no_fields = no_fields-AreSummed
    HaveSizes-AreSummed (field {elem} {rest} {s} {total} z more) =
        field-AreSummed elem rest s total (HasSize-IsFound z) (HaveSizes-AreSummed more)

  -- Where no named struct holds itself, `type_size` with any fuel above the height of a type finds
  -- exactly the size that the type has: it answers with it where there is one, and where it answers
  -- nothing there is none.
  pub type_size-exact :
      (rank : Text → ℕ) (f : ℕ) (ty : Ty) (n : ℕ)
      → IsRanked m rank
      → height rank ty < f
      → (type_size f m ty ≡ some n) ↔ HasSize m ty n
  type_size-exact rank f ty n ranked deep = (
    type_size-HasSize m f ty n,
    (λ z.
        let (g, found) = HasSize-IsFound z in
        type_size-enough m rank ranked f (f + g) ty deep (omega arith)
        ∙ type_size-fuel g (f + g) m ty n (omega arith) found),
  )
