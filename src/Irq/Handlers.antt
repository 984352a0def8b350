-- ===== src/Irq/Handlers.antt =====
-- What `scan_irq_handlers` finds, said without its loops.
use sentinel_kv.Prelude.{
  ◌≡◌, refl, Bool, false, ◌||◌, ◌&&◌, Option, none, some, List, [], ◌∷◌, Text, text_beq,
  text_beq_iff, text_eq, contains, add, contains-add, arith, any, if◌then◌else◌, Bool-cases, inl,
  inr,
}
use sentinel_kv.Ir.{Instruction, BasicBlock, Function, Module}
use sentinel_kv.Irq.{
  registered, insert_handler, handlers_instrs, handlers_blocks, handler_names, is_free,
  frees_instrs, frees_blocks, frees_functions, scan_irq_handlers,
}

-- the instruction registers `h` as a handler
unfoldable pub registers : Text → Instruction → Bool
registers h i = elim (registered i) [ none ↦ false | some s ↦ text_beq s h ]

abbrev pub function_registers : Text → Function → Bool
function_registers h f = any (λ bb. any (registers h) bb.instrs) f.basic_blocks

abbrev pub function_frees : Function → Bool
function_frees f = any (λ bb. any is_free bb.instrs) f.basic_blocks

-- Some function of the module registers `h`, and some function named `h` calls `kfree`.
abbrev pub is_freeing_handler : Text → Module → Bool
is_freeing_handler h m =
    any (function_registers h) m.functions
    && any (λ f. text_beq f.name h && function_frees f) m.functions

insert_handler_lem :
    (h : Text) (o : Option Text) (names : List Text)
    → contains h (insert_handler o names)
      ≡ (elim o [ none ↦ false | some s ↦ text_beq s h ] || contains h names)
unfolding insert_handler contains
insert_handler_lem h none names = refl
insert_handler_lem h (some s) names = contains-add s h names

handlers_instrs_lem :
    (h : Text) (l : List Instruction) (names : List Text)
    → contains h (handlers_instrs l names) ≡ (any (registers h) l || contains h names)
unfolding handlers_instrs registers contains
handlers_instrs_lem h [] names = refl
handlers_instrs_lem h (i ∷ l) names = ground (
  arith,
  handlers_instrs_lem h l (insert_handler (registered i) names),
  insert_handler_lem h (registered i) names,
)

handlers_blocks_lem :
    (h : Text) (l : List BasicBlock) (names : List Text)
    → contains h (handlers_blocks l names)
      ≡ (any (λ bb. any (registers h) bb.instrs) l || contains h names)
unfolding handlers_blocks contains
handlers_blocks_lem h [] names = refl
handlers_blocks_lem h (bb ∷ l) names = ground (
  arith,
  handlers_blocks_lem h l (handlers_instrs bb.instrs names),
  handlers_instrs_lem h bb.instrs names,
)

handler_names_lem :
    (h : Text) (l : List Function) (names : List Text)
    → contains h (handler_names l names) ≡ (any (function_registers h) l || contains h names)
unfolding handler_names contains
handler_names_lem h [] names = refl
handler_names_lem h (f ∷ l) names = ground (
  arith,
  handler_names_lem h l (handlers_blocks f.basic_blocks names),
  handlers_blocks_lem h f.basic_blocks names,
)

frees_instrs_lem :
    (n h : Text) (l : List Instruction) (out : List Text)
    → contains h (frees_instrs n l out) ≡ (text_beq n h && any is_free l || contains h out)
unfolding frees_instrs contains
frees_instrs_lem n h [] out = ground arith
frees_instrs_lem n h (i ∷ l) out =
    ground
      (arith, frees_instrs_lem n h l (if is_free i then add n out else out), contains-add n h out)

frees_blocks_lem :
    (n h : Text) (l : List BasicBlock) (out : List Text)
    → contains h (frees_blocks n l out)
      ≡ (text_beq n h && any (λ bb. any is_free bb.instrs) l || contains h out)
unfolding frees_blocks contains
frees_blocks_lem n h [] out = ground arith
frees_blocks_lem n h (bb ∷ l) out = ground (
  arith,
  frees_blocks_lem n h l (frees_instrs n bb.instrs out),
  frees_instrs_lem n h bb.instrs out,
)

-- a name that equals `h` is among the names exactly if `h` is
contains-same :
    (n h : Text) (names : List Text)
    → (text_beq n h && contains n names) ≡ (text_beq n h && contains h names)
contains-same n h names = elim (Bool-cases (text_beq n h)) [
  | inl e ↦ rw ((text_beq_iff n h).0 e) refl
  | inr e ↦ rw e refl
]

frees_functions_lem :
    (h : Text) (names : List Text) (l : List Function) (out : List Text)
    → contains h (frees_functions names l out)
      ≡ (contains h names && any (λ f. text_beq f.name h && function_frees f) l || contains h out)
unfolding frees_functions contains
frees_functions_lem h names [] out = ground arith
frees_functions_lem h names (f ∷ l) out = ground (
  arith,
  frees_functions_lem h names l
      (if contains f.name names then frees_blocks f.name f.basic_blocks out else out),
  frees_blocks_lem f.name h f.basic_blocks out,
  contains-same f.name h names,
)

-- A name is in the result of `scan_irq_handlers` exactly if an instruction of the module registers
-- it with `request_irq` and a function of that name calls `kfree`, in whatever order they stand.
pub scan_irq_handlers_iff :
    (m : Module) (h : Text) → contains h (scan_irq_handlers m) ≡ is_freeing_handler h m
unfolding scan_irq_handlers contains
scan_irq_handlers_iff m h = ground (
  arith,
  frees_functions_lem h (handler_names m.functions []) m.functions [],
  handler_names_lem h m.functions [],
)
