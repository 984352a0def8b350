-- ===== src/Emission/Sets.antt =====
-- The lists of `emit_hitl_vcs` as sets.
use sentinel_kv.Prelude.{
  ◌≡◌, refl, ◌∙◌, Bool, true, not, ◌&&◌, ◌||◌, List, [], ◌∷◌, Text, text_beq, text_beq_iff, text_eq,
  contains, arith,
}
use sentinel_kv.Emission.{text_leb, insert_sorted, sort, dedup_from, dedup, sorted_set}

contains-insert_sorted :
    (t x : Text) (l : List Text) → contains t (insert_sorted x l) ≡ (text_beq x t || contains t l)
unfolding insert_sorted contains
contains-insert_sorted t x [] = refl
contains-insert_sorted t x (y ∷ l) = ground (arith, contains-insert_sorted t x l)

contains-sort : (t : Text) (l : List Text) → contains t (sort l) ≡ contains t l
unfolding sort contains
contains-sort t [] = refl
contains-sort t (x ∷ l) = contains-insert_sorted t x (sort l) ∙ rw (contains-sort t l) refl

contains-dedup_from :
    (t x : Text) (l : List Text) → contains t (dedup_from x l) ≡ (text_beq x t || contains t l)
unfolding dedup_from contains
contains-dedup_from t x [] = refl
contains-dedup_from t x (y ∷ l) =
    ground (arith, contains-dedup_from t y l, text_beq_iff x y, text_beq_iff x t, text_beq_iff y t)

contains-dedup : (t : Text) (l : List Text) → contains t (dedup l) ≡ contains t l
unfolding dedup contains
contains-dedup t [] = refl
contains-dedup t (x ∷ l) = contains-dedup_from t x l

pub contains-sorted_set : (t : Text) (l : List Text) → contains t (sorted_set l) ≡ contains t l
unfolding sorted_set
contains-sorted_set t l = contains-dedup t (sort l) ∙ contains-sort t l

-- strictly before
abbrev pub text_ltb : Text → Text → Bool
text_ltb s t = text_leb s t && not (text_beq s t)

text_leb_total : (s t : Text) → (text_leb s t || text_leb t s) ≡ true
unfolding text_leb
text_leb_total [] t = refl
text_leb_total (x ∷ s) [] = refl
text_leb_total (x ∷ s) (y ∷ t) = ground (arith, text_leb_total s t)

pub text_leb_trans :
    (s t u : Text) → text_leb s t ≡ true → text_leb t u ≡ true → text_leb s u ≡ true
unfolding text_leb
text_leb_trans [] t u h k = refl
text_leb_trans (x ∷ s) [] u h k = cc
text_leb_trans (x ∷ s) (y ∷ t) [] h k = cc
text_leb_trans (x ∷ s) (y ∷ t) (z ∷ u) h k = ground (arith, text_leb_trans s t u)

pub text_leb_antisymm : (s t : Text) → text_leb s t ≡ true → text_leb t s ≡ true → s ≡ t
unfolding text_leb
text_leb_antisymm [] [] h k = refl
text_leb_antisymm [] (y ∷ t) h k = cc
text_leb_antisymm (x ∷ s) [] h k = cc
text_leb_antisymm (x ∷ s) (y ∷ t) h k = ground (arith, text_leb_antisymm s t)

-- each text of the list is at least `x`
abbrev pub at_least : Text → List Text → Bool
at_least x [] = true
at_least x (y ∷ l) = text_leb x y && at_least x l

abbrev pub is_sorted : List Text → Bool
is_sorted [] = true
is_sorted (x ∷ l) = at_least x l && is_sorted l

pub at_least_trans :
    (x y : Text) (l : List Text) → text_leb x y ≡ true → at_least y l ≡ true → at_least x l ≡ true
at_least_trans x y [] h k = refl
at_least_trans x y (z ∷ l) h k = ground (arith, text_leb_trans x y z, at_least_trans x y l h)

at_least-insert_sorted :
    (x y : Text) (l : List Text) → at_least x (insert_sorted y l) ≡ (text_leb x y && at_least x l)
unfolding insert_sorted
at_least-insert_sorted x y [] = refl
at_least-insert_sorted x y (z ∷ l) = ground (arith, at_least-insert_sorted x y l)

insert_sorted-sorted :
    (x : Text) (l : List Text) → is_sorted l ≡ true → is_sorted (insert_sorted x l) ≡ true
unfolding insert_sorted
insert_sorted-sorted x [] h = refl
insert_sorted-sorted x (y ∷ l) h = ground (
  arith,
  insert_sorted-sorted x l,
  at_least-insert_sorted y x l,
  text_leb_total x y,
  at_least_trans x y l,
)

pub sort-sorted : (l : List Text) → is_sorted (sort l) ≡ true
unfolding sort
sort-sorted [] = refl
sort-sorted (x ∷ l) = insert_sorted-sorted x (sort l) (sort-sorted l)
