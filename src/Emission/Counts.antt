-- ===== src/Emission/Counts.antt =====
-- The counts of `emit_hitl_vcs` beside those of the verdict.
use sentinel_kv.Prelude.{
  ◌+◌, ◌≡◌, refl, Bool, true, false, not, ◌&&◌, ◌||◌, List, [], ◌∷◌, ◌++◌, Text, text_beq,
  text_beq_iff, text_eq, contains, contains-append, contains-add, add, length, if◌then◌else◌, arith,
}
use sentinel_kv.Analyzer.Run.{distinct, count_distinct}
use sentinel_kv.Emission.{text_leb, sort, dedup_from, dedup, sorted_set}
use sentinel_kv.Emission.Sets.{
  is_sorted, at_least, text_leb_trans, sort-sorted, text_leb_antisymm, contains-sorted_set,
}

-- Each text stands strictly before all that follow it.
abbrev pub before_all : Text → List Text → Bool
before_all x [] = true
before_all x (y ∷ l) = (text_leb x y && not (text_beq x y)) && before_all x l

abbrev pub is_strict : List Text → Bool
is_strict [] = true
is_strict (x ∷ l) = before_all x l && is_strict l

-- no text twice
abbrev is_nodup : List Text → Bool
is_nodup [] = true
is_nodup (x ∷ l) = not (contains x l) && is_nodup l

-- strictly before `x`, and `x` is at most `z`
before_trans :
    (w x z : Text)
    → text_leb w x ≡ true
    → text_beq w x ≡ false
    → text_leb x z ≡ true
    → (text_leb w z && not (text_beq w z)) ≡ true
before_trans w x z h n k =
    ground (
      arith,
      text_leb_trans w x z,
      text_beq_iff w z,
      text_beq_iff w x,
      text_leb_antisymm w x,
      same x,
    )
  where
    same : (y : Text) → w ≡ z → text_leb y z ≡ true → text_leb y w ≡ true
    same y e l = rw e l

before_all-dedup_from :
    (w x : Text) (l : List Text)
    → text_leb w x ≡ true
    → text_beq w x ≡ false
    → at_least x l ≡ true
    → is_sorted l ≡ true
    → before_all w (dedup_from x l) ≡ true
unfolding dedup_from
before_all-dedup_from w x [] h n k s = ground arith
before_all-dedup_from w x (y ∷ l) h n k s =
    ground (arith, before_all-dedup_from w y l, before_trans w x y h n)

is_strict-dedup_from :
    (x : Text) (l : List Text)
    → at_least x l ≡ true
    → is_sorted l ≡ true
    → is_strict (dedup_from x l) ≡ true
unfolding dedup_from
is_strict-dedup_from x [] k s = refl
is_strict-dedup_from x (y ∷ l) k s =
    ground (arith, is_strict-dedup_from y l, before_all-dedup_from x y l)

is_strict-sorted_set : (l : List Text) → is_strict (sorted_set l) ≡ true
unfolding sorted_set dedup
is_strict-sorted_set l = go (sort l) (sort-sorted l)
  where
    go : (m : List Text) → is_sorted m ≡ true → is_strict (dedup m) ≡ true
    go [] h = refl
    go (x ∷ m) h = ground (arith, is_strict-dedup_from x m)

contains-before_all : (x : Text) (l : List Text) → before_all x l ≡ true → contains x l ≡ false
unfolding contains
contains-before_all x [] h = refl
contains-before_all x (y ∷ l) h =
    ground (arith, contains-before_all x l, text_beq_iff x y, text_beq_iff y x)

nodup_of_strict : (l : List Text) → is_strict l ≡ true → is_nodup l ≡ true
nodup_of_strict [] h = refl
nodup_of_strict (x ∷ l) h = ground (arith, nodup_of_strict l, contains-before_all x l)

remove : Text → List Text → List Text
remove x [] = []
remove x (y ∷ l) = let rest = remove x l in if text_beq y x then l else y ∷ rest

length-remove :
    (x : Text) (l : List Text) → contains x l ≡ true → length l ≡ length (remove x l) + 1
unfolding remove contains
length-remove x [] h = cc
length-remove x (y ∷ l) h = ground (arith, length-remove x l)

contains-remove :
    (t x : Text) (l : List Text)
    → is_nodup l ≡ true
    → contains t (remove x l) ≡ (contains t l && not (text_beq x t))
unfolding remove contains
contains-remove t x [] h = refl
contains-remove t x (y ∷ l) h =
    ground (arith, contains-remove t x l, text_beq_iff y x, text_beq_iff x t, text_beq_iff y t)

is_nodup-remove : (x : Text) (l : List Text) → is_nodup l ≡ true → is_nodup (remove x l) ≡ true
unfolding remove
is_nodup-remove x [] h = refl
is_nodup-remove x (y ∷ l) h = ground (arith, is_nodup-remove x l, contains-remove y x l)

-- lists without repetition and with the same members are equally long
length_of_same :
    (a b : List Text)
    → is_nodup a ≡ true
    → is_nodup b ≡ true
    → ((t : Text) → contains t a ≡ contains t b)
    → length a ≡ length b
unfolding contains
length_of_same [] [] h k same = refl
length_of_same [] (y ∷ b) h k same = absurd (ground (arith, same y, text_beq_iff y y))
length_of_same (x ∷ a) b h k same =
    let here : contains x b ≡ true = ground (arith, same x, text_beq_iff x x) in
    let ih =
      length_of_same a (remove x b) (ground arith) (is_nodup-remove x b k)
        λ t. ground (arith, same t, contains-remove t x b, text_beq_iff x t) in
    omega (arith, length-remove x b here, ih)

is_nodup-append :
    (x : Text) (l : List Text)
    → is_nodup l ≡ true
    → contains x l ≡ false
    → is_nodup (l ++ x ∷ []) ≡ true
unfolding contains
is_nodup-append x [] h n = refl
is_nodup-append x (y ∷ l) h n =
    ground
      (arith, is_nodup-append x l, contains-append y l (x ∷ []), text_beq_iff x y, text_beq_iff y x)

is_nodup-add : (x : Text) (l : List Text) → is_nodup l ≡ true → is_nodup (add x l) ≡ true
unfolding add
is_nodup-add x l h = ground (arith, is_nodup-append x l h)

is_nodup-distinct : (xs out : List Text) → is_nodup out ≡ true → is_nodup (distinct xs out) ≡ true
unfolding distinct
is_nodup-distinct [] out h = h
is_nodup-distinct (x ∷ xs) out h = is_nodup-distinct xs (add x out) (is_nodup-add x out h)

contains-distinct :
    (t : Text) (xs out : List Text)
    → contains t (distinct xs out) ≡ (contains t xs || contains t out)
unfolding distinct contains
contains-distinct t [] out = refl
contains-distinct t (x ∷ xs) out =
    ground (arith, contains-distinct t xs (add x out), contains-add x t out)

-- The list that is emitted is strictly increasing, holds the same conditions, and is as long as the
-- verdict counts them.
pub sorted_set-counts :
    (l : List Text)
    → (is_strict (sorted_set l) ≡ true)
      × ((t : Text) → contains t (sorted_set l) ≡ contains t l)
      × (length (sorted_set l) ≡ count_distinct l)
unfolding count_distinct contains
sorted_set-counts l = (
  is_strict-sorted_set l,
  (λ t. contains-sorted_set t l),
  length_of_same (sorted_set l) (distinct l []) (nodup_of_strict _ (is_strict-sorted_set l))
      (is_nodup-distinct l [] refl)
      (λ t. ground (arith, contains-sorted_set t l, contains-distinct t l [])),
)
