-- ===== src/Ir.antt =====
-- The LLVM IR that the analyzer walks (skv-analyzer/llvm-ir-patched/src: name.rs, types.rs,
-- constant.rs, operand.rs, instruction.rs, basicblock.rs, function.rs, module.rs), as far as
-- skv-analyzer/src/main.rs reads it. What the analyzer never tells apart is one constructor,
-- `other_type`, `other_constant` or `other_instruction`; fields that it never reads are left out.
use sentinel_kv.Prelude.{
  ℕ, ◌≡◌, ◌↔◌, Bool, true, false, Option, none, some, List, arith, Text, text_beq, text_beq_iff,
  nat_beq, nat_beq_iff, Eq,
}

pub data Name : Type 0 where
  name : Text → Name
  number : ℕ → Name

abbrev pub name_beq : Name → Name → Bool
name_beq (name s) (name t) = text_beq s t
name_beq (name s) (number n) = false
name_beq (number m) (name t) = false
name_beq (number m) (number n) = nat_beq m n

pub name_beq_iff : (a b : Name) → (name_beq a b ≡ true) ↔ (a ≡ b)
name_beq_iff (name s) (name t) = ground (arith, text_beq_iff s t)
name_beq_iff (name s) (number n) = ground arith
name_beq_iff (number m) (name t) = ground arith
name_beq_iff (number m) (number n) = ground (arith, nat_beq_iff m n)

instance abbrev pub name_eq : Eq Name
name_eq = record { same = name_beq; same_iff = name_beq_iff }

mutual
  pub data Ty : Type 0 where
    integer_type : ℕ → Ty
    pointer_type : Ty
    array_type : Ty → ℕ → Ty
    struct_type : Tys → Ty
    named_struct_type : Text → Ty
    other_type : Ty

  pub data Tys : Type 0 where
    nil : Tys
    cons : Ty → Tys → Tys

pub data NamedStructDef : Type 0 where
  opaque : NamedStructDef
  defined : Ty → NamedStructDef

-- `int bits value`; the value is a u64
pub data Constant : Type 0 where
  int : ℕ → ℕ → Constant
  global_reference : Name → Constant
  other_constant : Constant

pub data Operand : Type 0 where
  local_operand : Name → Ty → Operand
  constant_operand : Constant → Operand
  metadata_operand : Operand

-- `Either<InlineAssembly, Operand>`
pub data Target : Type 0 where
  inline_assembly : Text → Target
  operand : Operand → Target

pub record Call : Type 0 where
  pub function : Target
  pub arguments : List Operand
  pub dest : Option Name

pub record GetElementPtr : Type 0 where
  pub address : Operand
  pub indices : List Operand
  pub dest : Name
  pub source_element_type : Ty

-- `alloca dest`, `ptr_to_int operand dest`, `add operand0 operand1 dest`, `store address value`,
-- `load address dest loaded_ty`
pub data Instruction : Type 0 where
  alloca : Name → Instruction
  call : Call → Instruction
  get_element_ptr : GetElementPtr → Instruction
  ptr_to_int int_to_ptr bit_cast : Operand → Name → Instruction
  add sub : Operand → Operand → Name → Instruction
  store : Operand → Operand → Instruction
  load : Operand → Name → Ty → Instruction
  other_instruction : Instruction

pub record BasicBlock : Type 0 where
  pub instrs : List Instruction

pub record Function : Type 0 where
  pub name : Text
  pub basic_blocks : List BasicBlock

-- A parsed module, with the two lookups that the analyzer calls on it: `module.type_of(operand)` and
-- `module.types.named_struct_def(name)`.
pub record Module : Type 0 where
  pub functions : List Function
  pub type_of : Operand → Ty
  pub named_struct_def : Text → Option NamedStructDef

-- `function_name_of_call`
unfoldable pub function_name_of_call : Call → Option Text
function_name_of_call c = elim c.function [
  | operand (constant_operand (global_reference (name s))) ↦ some s
  | _ ↦ none
]

unfoldable pub operand_const_u64 : Operand → Option ℕ
operand_const_u64 (constant_operand (int bits value)) = some value
operand_const_u64 _ = none

unfoldable pub operand_local_name : Operand → Option Name
operand_local_name (local_operand n ty) = some n
operand_local_name _ = none
