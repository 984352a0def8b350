-- ===== src/Irq.antt =====
-- `scan_irq_handlers` of skv-analyzer/src/main.rs: the functions that are registered by
-- `request_irq` and call `kfree`.
pub mod Handlers
use sentinel_kv.Prelude.{
  Bool, false, Option, none, some, List, [], ◌∷◌, Text, text, text_beq, text_eq, contains, add,
  get_elem?, if◌then◌else◌,
}
use sentinel_kv.Ir.{
  name, Operand, constant_operand, global_reference, Instruction, call, BasicBlock, Function,
  Module, Call, function_name_of_call,
}

-- `function_name_of_call(call) == Some(wanted)`
unfoldable pub calls : Text → Call → Bool
calls wanted c = elim (function_name_of_call c) [ none ↦ false | some s ↦ text_beq s wanted ]

-- a constant operand that names a global
unfoldable pub global_name : Option Operand → Option Text
global_name (some (constant_operand (global_reference (name s)))) = some s
global_name _ = none

-- the handler that an instruction registers
unfoldable pub registered : Instruction → Option Text
unfolding calls global_name
registered (call c) =
    if calls (text "request_irq") c then global_name (get_elem? c.arguments 1) else none
registered _ = none

unfoldable pub insert_handler : Option Text → List Text → List Text
insert_handler none names = names
insert_handler (some h) names = add h names

-- phase 1: the loops over instructions, blocks and functions
unfoldable pub handlers_instrs : List Instruction → List Text → List Text
unfolding registered insert_handler
handlers_instrs [] names = names
handlers_instrs (i ∷ is) names = handlers_instrs is (insert_handler (registered i) names)

unfoldable pub handlers_blocks : List BasicBlock → List Text → List Text
unfolding handlers_instrs
handlers_blocks [] names = names
handlers_blocks (bb ∷ bbs) names = handlers_blocks bbs (handlers_instrs bb.instrs names)

unfoldable pub handler_names : List Function → List Text → List Text
unfolding handlers_blocks
handler_names [] names = names
handler_names (f ∷ fs) names = handler_names fs (handlers_blocks f.basic_blocks names)

unfoldable pub is_free : Instruction → Bool
unfolding calls
is_free (call c) = calls (text "kfree") c
is_free _ = false

-- phase 2: the loops over the blocks of one handler
unfoldable pub frees_instrs : Text → List Instruction → List Text → List Text
unfolding is_free
frees_instrs fname [] out = out
frees_instrs fname (i ∷ is) out = frees_instrs fname is (if is_free i then add fname out else out)

unfoldable pub frees_blocks : Text → List BasicBlock → List Text → List Text
unfolding frees_instrs
frees_blocks fname [] out = out
frees_blocks fname (bb ∷ bbs) out = frees_blocks fname bbs (frees_instrs fname bb.instrs out)

unfoldable pub frees_functions : List Text → List Function → List Text → List Text
unfolding frees_blocks
frees_functions names [] out = out
frees_functions names (f ∷ fs) out =
    frees_functions names fs
      (if contains f.name names then frees_blocks f.name f.basic_blocks out else out)

unfoldable pub scan_irq_handlers : Module → List Text
unfolding handler_names frees_functions
scan_irq_handlers m = frees_functions (handler_names m.functions []) m.functions []
