-- ===== src/Emission/Valid.antt =====
-- The line of `emit_hitl_vcs`, as a JSON document.
use sentinel_kv.Prelude.{is_digit, ends}
use sentinel_kv.Prelude.{
  ℕ, ◌+◌, ◌≡◌, refl, ◌∙◌, Bool, true, not, ◌&&◌, List, [], ◌∷◌, ◌++◌, Text, text, replace, length,
  ltb, arith, all,
}
use sentinel_kv.Prelude.{some}
use mathlib.Core.List.{append_assoc}
use sentinel_kv.Policy.{hitl_label}
use sentinel_kv.Gate.{HitlGate}
use sentinel_kv.Json.{
  Json, number, string, array, object, Items, nil, cons, end, field, escape_char, escape, quoted,
  print, print_items, print_more, is_printable, is_writable, is_writable_items, size,
}
use sentinel_kv.Json.Reader.{read}
use sentinel_kv.Json.Tokens.{and-true}
use sentinel_kv.Json.RoundTrip.{read-print}
use sentinel_kv.Report.Valid.{escape_plain, hitl_label_plain, printable_plain}
use sentinel_kv.Emission.{
  insert_sorted, sort, dedup_from, dedup, sorted_set, escaped_item, array_items, json_array,
  emission,
}

-- no control character at all
unfoldable pub is_clean : Text → Bool
is_clean [] = true
is_clean (c ∷ s) = not (ltb c 32) && is_clean s

-- without line feeds the two replacements are the escapes of one pass
escaped_item-escape : (s rest : Text) → is_clean s ≡ true → escaped_item s ++ rest ≡ escape s rest
unfolding escaped_item escape escape_char replace is_clean
escaped_item-escape [] rest h = refl
escaped_item-escape (c ∷ s) rest h = ground (arith, escaped_item-escape s rest)

printable_clean : (s : Text) → is_clean s ≡ true → is_printable s ≡ true
unfolding is_printable is_clean
printable_clean [] h = refl
printable_clean (c ∷ s) h = ground (arith, printable_clean s)

abbrev pub strings : List Text → Items
strings [] = nil
strings (s ∷ l) = cons (string s) (strings l)

-- one item between its quotes
array_item :
    (out s rest : Text)
    → is_clean s ≡ true
    → (((out ++ b'"' ∷ []) ++ escaped_item s) ++ b'"' ∷ []) ++ rest ≡ out ++ quoted s rest
unfolding quoted
array_item out s rest h = simp (append_assoc, escaped_item-escape s (b'"' ∷ rest) h)

-- the loop behind the first item
array_items-more :
    (idx : ℕ) (l : List Text) (out rest : Text)
    → ltb 0 idx ≡ true
    → all is_clean l ≡ true
    → array_items idx l out ++ (b']' ∷ rest) ≡ out ++ print_more (strings l) rest
unfolding array_items print_more print all
array_items-more idx [] out rest n h = refl
array_items-more idx (s ∷ l) out rest n h =
    let (hs, hl) = and-true (is_clean s) _ h in
    rw n (
      array_items-more (idx + 1) l _ rest (ground arith) hl
      ∙ array_item (out ++ b',' ∷ []) s (print_more (strings l) rest) hs
      ∙ append_assoc out (b',' ∷ []) (quoted s (print_more (strings l) rest)))

json_array-print :
    (l : List Text) (rest : Text)
    → all is_clean l ≡ true
    → json_array l ++ rest ≡ print (array (strings l)) rest
unfolding json_array print all
json_array-print [] rest h = unfold array_items print_items in refl
json_array-print (s ∷ l) rest h =
    let (hs, hl) = and-true (is_clean s) _ h in
    append_assoc (array_items 0 (s ∷ l) (b'[' ∷ [])) (b']' ∷ []) rest
    ∙ (unfold array_items print_items in
        array_items-more 1 l _ rest refl hl
        ∙ array_item (b'[' ∷ []) s (print_more (strings l) rest) hs)

module _ (p : Text → Bool) where
  all-insert_sorted : (x : Text) (l : List Text) → all p (insert_sorted x l) ≡ (p x && all p l)
  unfolding all insert_sorted
  all-insert_sorted x [] = refl
  all-insert_sorted x (y ∷ l) = ground (arith, all-insert_sorted x l)

  all-sort : (l : List Text) → all p (sort l) ≡ all p l
  unfolding all sort
  all-sort [] = refl
  all-sort (x ∷ l) = all-insert_sorted x (sort l) ∙ rw (all-sort l) refl

  all-dedup_from :
      (x : Text) (l : List Text) → (p x && all p l) ≡ true → all p (dedup_from x l) ≡ true
  unfolding all dedup_from
  all-dedup_from x [] h = h
  all-dedup_from x (y ∷ l) h = ground (arith, all-dedup_from y l)

  all-dedup : (l : List Text) → all p l ≡ true → all p (dedup l) ≡ true
  unfolding dedup all
  all-dedup [] h = h
  all-dedup (x ∷ l) h = all-dedup_from x l h

  all-sorted_set : (l : List Text) → all p l ≡ true → all p (sorted_set l) ≡ true
  unfolding sorted_set
  all-sorted_set l h = all-dedup (sort l) (all-sort l ∙ h)

writable_strings : (l : List Text) → all is_clean l ≡ true → is_writable_items (strings l) ≡ true
unfolding all is_writable
writable_strings [] h = refl
writable_strings (s ∷ l) h =
    let (hs, hl) = and-true (is_clean s) _ h in rw (printable_clean s hs) (writable_strings l hl)

-- The document that the emitted line stands for.
unfoldable pub emission_document : HitlGate → Json
unfolding text
emission_document g = object (
    field (text "hitl_mode") (string (hitl_label g.mode)) (
      field (text "seen_count") (number (length (sorted_set g.seen))) (
        field (text "blocked_count") (number (length (sorted_set g.blocked))) (
          field (text "seen_class_count") (number (length (sorted_set g.seen_classes))) (
            field (text "blocked_class_count") (number (length (sorted_set g.blocked_classes))) (
              field (text "seen_vcs") (array (strings (sorted_set g.seen))) (
                field (text "blocked_vcs") (array (strings (sorted_set g.blocked))) (
                  field (text "seen_classes") (array (strings (sorted_set g.seen_classes))) (
                    field (text "blocked_classes") (array (strings (sorted_set g.blocked_classes)))
                      end)))))))))

-- No condition that was asked for holds a control character.
pub record IsCleanGate (g : HitlGate) : Type 0 where
  pub seen : all is_clean g.seen ≡ true
  pub blocked : all is_clean g.blocked ≡ true
  pub seen_classes : all is_clean g.seen_classes ≡ true
  pub blocked_classes : all is_clean g.blocked_classes ≡ true

emission-eq-print :
    (g : HitlGate) → IsCleanGate g → emission g ≡ print (emission_document g) (b'\n' ∷ [])
unfolding emission print quoted emission_document text escape escape_char
emission-eq-print g c = simp (
  λ (rest : Text). escape_plain (hitl_label g.mode) rest (hitl_label_plain g.mode),
  λ (rest : Text).
      json_array-print (sorted_set g.seen) rest (all-sorted_set is_clean g.seen c.seen),
  λ (rest : Text).
      json_array-print (sorted_set g.blocked) rest (all-sorted_set is_clean g.blocked c.blocked),
  λ (rest : Text).
      json_array-print (sorted_set g.seen_classes) rest
        (all-sorted_set is_clean g.seen_classes c.seen_classes),
  λ (rest : Text).
      json_array-print (sorted_set g.blocked_classes) rest
        (all-sorted_set is_clean g.blocked_classes c.blocked_classes),
)

emission_document-writable :
    (g : HitlGate) → IsCleanGate g → is_writable (emission_document g) ≡ true
unfolding emission_document is_writable is_printable text
emission_document-writable g c = simp (
  printable_plain (hitl_label g.mode) (hitl_label_plain g.mode),
  writable_strings _ (all-sorted_set is_clean g.seen c.seen),
  writable_strings _ (all-sorted_set is_clean g.blocked c.blocked),
  writable_strings _ (all-sorted_set is_clean g.seen_classes c.seen_classes),
  writable_strings _ (all-sorted_set is_clean g.blocked_classes c.blocked_classes),
)

-- If no condition holds a control character, the line that is emitted is read back, up to its line
-- feed, as the document with the mode, the four counts and the four sorted lists.
pub emission-read :
    (g : HitlGate)
    → IsCleanGate g
    → read (size (emission_document g)) (emission g) ≡ some (emission_document g, b'\n' ∷ [])
emission-read g c = rw (emission-eq-print g c) (
    read-print (emission_document g) (size (emission_document g)) (b'\n' ∷ []) (omega arith)
      (emission_document-writable g c) (unfold ends is_digit in refl))
