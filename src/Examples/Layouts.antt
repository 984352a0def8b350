-- ===== src/Examples/Layouts.antt =====
-- Types, handlers and DMA mappings at concrete inputs.
use sentinel_kv.Prelude.{
  ℕ, ◌*◌, Text, ◌≡◌, ◌<◌, ◌↔◌, refl, true, some, none, [], ◌∷◌, text, contains, text_eq, nat_eq,
  arith,
}
use sentinel_kv.Ir.{
  GetElementPtr, number, Ty, Tys, integer_type, array_type, struct_type, named_struct_type, defined,
  Module, Instruction, call, global_reference, constant_operand, name,
}
use sentinel_kv.Layout.Size.{type_size}
use sentinel_kv.Layout.Depth.{height, IsRanked}
use sentinel_kv.Layout.Bounds.{u64_max, infer_gep_offset_bounds}
use sentinel_kv.Layout.Meaning.{HasSize}
use sentinel_kv.Layout.Exact.{type_size-exact}
use sentinel_kv.Layout.Size.{infer_gep_offset}
use sentinel_kv.Prelude.Int.{pos, ◌+ℤ◌, ◌≤ℤ◌}
use sentinel_kv.Irq.{scan_irq_handlers}
use sentinel_kv.Irq.Handlers.{is_freeing_handler, scan_irq_handlers_iff}
use sentinel_kv.Policy.{pass, require_iommu}
use sentinel_kv.Analyzer.Run.{Setup, analyze, analyzed}
use sentinel_kv.Analyzer.Iommu.{IsComplete, require_iommu-pass}
use sentinel_kv.Examples.Sample.{setup, open_gate, driver, callee, const, pointer, type_of, free_0}
use sentinel_kv.Examples.Computed.{computed}

-- { i32, [3 x i8] }, by its name
unfoldable frame : Module
unfolding driver
frame = record (driver []) {
  named_struct_def = λ n. some (
      defined (
        struct_type
          (Tys.cons (integer_type 32) (Tys.cons (array_type (integer_type 8) 3) Tys.nil))));
}

frame_size : type_size 4 frame (named_struct_type []) ≡ some 7
unfolding frame computed
frame_size = refl

unfoldable request_irq : Instruction
unfolding text
request_irq = call (record {
  function = callee (text "request_irq");
  arguments = const 1 ∷ constant_operand (global_reference (name (text "handler"))) ∷ [];
  dest = none;
})

unfoldable irq_driver : Module
unfolding text request_irq free_0 type_of
irq_driver = record {
  functions =
      record { name = text "probe"; basic_blocks = record { instrs = request_irq ∷ [] } ∷ [] }
      ∷ record { name = text "handler"; basic_blocks = record { instrs = free_0 ∷ [] } ∷ [] }
      ∷ [];
  type_of = type_of;
  named_struct_def = λ n. none;
}

handler_found : contains (text "handler") (scan_irq_handlers irq_driver) ≡ true
unfolding irq_driver computed
handler_found = refl

scan_irq_handlers_iff_example :
    contains (text "handler") (scan_irq_handlers irq_driver)
    ≡ is_freeing_handler (text "handler") irq_driver
scan_irq_handlers_iff_example = scan_irq_handlers_iff irq_driver (text "handler")

unfoldable iommu_setup : Setup
unfolding setup
iommu_setup = record setup { dma_policy = require_iommu }

unfoldable dma_driver : Module
unfolding driver text
dma_driver = driver (
    call (record {
      function = callee (text "dma_alloc_coherent");
      arguments = const 0 ∷ const 64 ∷ [];
      dest = none;
    })
    ∷ call (record { function = callee (text "iommu_map"); arguments = []; dest = none })
    ∷ [])

dma_driver-pass : (analyze iommu_setup dma_driver open_gate).0.result ≡ pass
unfolding iommu_setup dma_driver computed
dma_driver-pass = refl

same_order : IsComplete iommu_setup.iteration
unfolding iommu_setup
same_order ids id h = h

require_iommu-pass_example :
    contains 0 (analyzed iommu_setup dma_driver open_gate).iommu_mapped_in_func ≡ true
unfolding iommu_setup dma_driver computed
require_iommu-pass_example =
    require_iommu-pass iommu_setup dma_driver open_gate 0 same_order refl dma_driver-pass refl

-- the second of the bytes behind %0
unfoldable second_byte : GetElementPtr
second_byte = record {
  address = pointer 0;
  indices = const 1 ∷ [];
  dest = number 1;
  source_element_type = integer_type 8;
}

-- its offset comes out as 8
second_byte-offset : infer_gep_offset 8 frame second_byte (pos 0) ≡ some (pos 8)
unfolding frame second_byte computed type_of
second_byte-offset = refl

infer_gep_offset_bounds_example : (pos 0 ≤ℤ pos 8) × (pos 8 ≤ℤ pos 0 +ℤ pos (1 * u64_max))
unfolding second_byte
infer_gep_offset_bounds_example =
    infer_gep_offset_bounds 8 frame second_byte (pos 0) (pos 8) second_byte-offset

-- each named struct of the frame is three levels high
abbrev three : Text → ℕ
three s = 3

frame-IsRanked : IsRanked frame three
unfolding frame height
frame-IsRanked s ty e = rw (same_definition e) (omega arith)
  where
    same_definition : {a b : Ty} → some (defined a) ≡ some (defined b) → b ≡ a
    same_definition h = cc

three_fit : height three (named_struct_type []) < 5
unfolding height
three_fit = omega arith

type_size-exact_example :
    (type_size 5 frame (named_struct_type []) ≡ some 7) ↔ HasSize frame (named_struct_type []) 7
type_size-exact_example =
    type_size-exact frame three 5 (named_struct_type []) 7 frame-IsRanked three_fit
