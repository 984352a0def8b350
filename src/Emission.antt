-- ===== src/Emission.antt =====
-- `emit_hitl_vcs` of skv-analyzer/src/main.rs: the conditions that were asked for and blocked, each
-- list sorted and without repetition, as one JSON line.
pub mod Sets
pub mod Counts
pub mod Valid
use sentinel_kv.Prelude.{
  ℕ, ◌+◌, Bool, true, false, ◌&&◌, ◌||◌, List, [], ◌∷◌, ◌++◌, Text, text, text_beq, decimal,
  replace, length, nat_beq, ltb, if◌then◌else◌,
}
use sentinel_kv.Policy.{hitl_label}
use sentinel_kv.Gate.{HitlGate}
use sentinel_kv.Host.{Host, Result, ok, err}
use sentinel_kv.Files.{Written, write_output_file}

-- The order of `String`: by bytes, which is that of the code points.
unfoldable pub text_leb : Text → Text → Bool
text_leb [] t = true
text_leb (x ∷ s) [] = false
text_leb (x ∷ s) (y ∷ t) = ltb x y || nat_beq x y && text_leb s t

unfoldable pub insert_sorted : Text → List Text → List Text
unfolding text_leb
insert_sorted x [] = x ∷ []
insert_sorted x (y ∷ l) =
    let rest = insert_sorted x l in if text_leb x y then x ∷ y ∷ l else y ∷ rest

-- `sort`: equal texts cannot be told apart, so that each sort gives this list
unfoldable pub sort : List Text → List Text
unfolding insert_sorted
sort [] = []
sort (x ∷ l) = insert_sorted x (sort l)

-- `x` and what follows it, with no two equal texts side by side
unfoldable pub dedup_from : Text → List Text → List Text
dedup_from x [] = x ∷ []
dedup_from x (y ∷ l) = let rest = dedup_from y l in if text_beq x y then rest else x ∷ rest

unfoldable pub dedup : List Text → List Text
unfolding dedup_from
dedup [] = []
dedup (x ∷ l) = dedup_from x l

-- `clone`, `sort` and `dedup`
unfoldable pub sorted_set : List Text → List Text
unfolding sort dedup
sorted_set l = dedup (sort l)

unfoldable pub escaped_item : Text → Text
unfolding replace
escaped_item item = replace b'"' (b'\\' ∷ b'"' ∷ []) (replace b'\\' (b'\\' ∷ b'\\' ∷ []) item)

-- the loop of `json_array`; a comma stands before each item but the first
unfoldable pub array_items : ℕ → List Text → Text → Text
unfolding escaped_item
array_items idx [] out = out
array_items idx (item ∷ items) out =
    let before = if ltb 0 idx then out ++ (b',' ∷ []) else out in
    array_items (idx + 1) items (((before ++ (b'"' ∷ [])) ++ escaped_item item) ++ (b'"' ∷ []))

unfoldable pub json_array : List Text → Text
unfolding array_items
json_array items = array_items 0 items (b'[' ∷ []) ++ (b']' ∷ [])

-- the content of the file
unfoldable pub emission : HitlGate → Text
unfolding text sorted_set json_array
emission gate =
    text "{\"hitl_mode\":\""
    ++ (hitl_label gate.mode
        ++ (text "\",\"seen_count\":"
            ++ (decimal (length (sorted_set gate.seen))
                ++ (text ",\"blocked_count\":"
                    ++ (decimal (length (sorted_set gate.blocked))
                        ++ (text ",\"seen_class_count\":"
                            ++ (decimal (length (sorted_set gate.seen_classes))
                                ++ (text ",\"blocked_class_count\":"
                                    ++ (decimal (length (sorted_set gate.blocked_classes))
                                        ++ (text ",\"seen_vcs\":"
                                            ++ (json_array (sorted_set gate.seen)
                                                ++ (text ",\"blocked_vcs\":"
                                                    ++ (json_array (sorted_set gate.blocked)
                                                        ++ (text ",\"seen_classes\":"
                                                            ++ (json_array
                                                            (sorted_set gate.seen_classes)
                                                            ++ (text ",\"blocked_classes\":"
                                                            ++ (json_array
                                                            (sorted_set gate.blocked_classes)
                                                            ++ text "}\n")))))))))))))))))

-- `.with_context(|| message)` on a result: the context stands in front of the error
unfoldable pub in_context : {A : Type 0} → Text → Result A → Result A
in_context message (ok a) = ok a
in_context message (err e) = err message

unfoldable pub emit_hitl_vcs : Host → Text → HitlGate → Result Written
unfolding in_context emission
emit_hitl_vcs host path gate =
    in_context (text "Failed to write VC emission file: " ++ path)
      (write_output_file host path (emission gate))
