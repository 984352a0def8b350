-- ===== src/Analyzer/Provenance.antt =====
-- The allocations behind the tracked pointers of `analyze` (skv-analyzer/src/main.rs).
use sentinel_kv.Prelude.{
  ℕ, ◌+◌, ◌≡◌, subst, ◌<◌, ◌++◌, [], ◌∷◌, Bool, true, false, Option, none, some, Map, get, insert,
  get-insert, add, nat_eq, is_some, arith, if◌then◌else◌, List,
}
use sentinel_kv.Prelude.Int.{ℤ}
use sentinel_kv.Ir.{Name, name_eq, name_beq}
use sentinel_kv.Analyzer.State.{
  State, PtrVal, kmalloc, dma_alloc, IntVal, ptr_offset, set_ptr, set_int, set_dest, fresh_alloc,
}

-- the allocation of a pointer is one of the first `n`
abbrev pub PtrBelow : ℕ → PtrVal → Type 0
PtrBelow n (kmalloc id offset) = id < n
PtrBelow n (dma_alloc id offset) = id < n
PtrBelow n PtrVal.unknown = Unit

abbrev pub IntBelow : ℕ → IntVal → Type 0
IntBelow n (ptr_offset id offset) = id < n
IntBelow n IntVal.unknown = Unit

-- `P` of what a map holds at every key
abbrev pub Everywhere : {K V : Type 0} → (V → Type 0) → Map K V → Type 0
Everywhere P [] = Unit
Everywhere P ((k, v) ∷ m) = P v × Everywhere P m

-- every id below `n` has a size
abbrev pub HasSizes : ℕ → Map ℕ ℤ → Type 0
HasSizes n sizes = (id : ℕ) → id < n → is_some (get id sizes) ≡ true

abbrev pub AllBelow : ℕ → List ℕ → Type 0
AllBelow n [] = Unit
AllBelow n (x ∷ xs) = (x < n) × AllBelow n xs

pub record IsTracked (ptrs : Map Name PtrVal) (ints : Map Name IntVal) (spilled : Map Name PtrVal)
    (sizes : Map ℕ ℤ) (freed dma : List ℕ) (n : ℕ) : Type 0 where
  pub ptrs_below : Everywhere (PtrBelow n) ptrs
  pub ints_below : Everywhere (IntBelow n) ints
  pub spilled_below : Everywhere (PtrBelow n) spilled
  pub has_sizes : HasSizes n sizes
  pub freed_below : AllBelow n freed
  pub dma_below : AllBelow n dma

-- The bookkeeping of a state: each id that it mentions was handed out, and has a size.
abbrev pub IsWellFormed : State → Type 0
IsWellFormed s =
    IsTracked s.ptr_env s.int_env s.alloca_store_map s.alloc_sizes s.freed_allocs
      s.dma_allocs_in_func s.alloc_counter

module _ {K V : Type 0} {P Q : V → Type 0} where
  Everywhere-map : (m : Map K V) → ((v : V) → P v → Q v) → Everywhere P m → Everywhere Q m
  Everywhere-map [] f h = tt
  Everywhere-map ((k, v) ∷ m) f h = (f v h.0, Everywhere-map m f h.1)

PtrBelow-suc : (n : ℕ) (p : PtrVal) → PtrBelow n p → PtrBelow (n + 1) p
PtrBelow-suc n p h = ground arith

IntBelow-suc : (n : ℕ) (p : IntVal) → IntBelow n p → IntBelow (n + 1) p
IntBelow-suc n p h = ground arith

AllBelow-suc : (n : ℕ) (l : List ℕ) → AllBelow n l → AllBelow (n + 1) l
AllBelow-suc n [] h = tt
AllBelow-suc n (x ∷ l) h = (omega arith, AllBelow-suc n l h.1)

AllBelow-append : (n x : ℕ) (l : List ℕ) → x < n → AllBelow n l → AllBelow n (l ++ x ∷ [])
AllBelow-append n x [] hx h = (hx, tt)
AllBelow-append n x (y ∷ l) hx h = (h.0, AllBelow-append n x l hx h.1)

AllBelow-add : (n x : ℕ) (l : List ℕ) → x < n → AllBelow n l → AllBelow n (add x l)
unfolding add
AllBelow-add n x l hx h = ground (arith, AllBelow-append n x l hx h)

HasSizes-insert :
    (n : ℕ) (size : ℤ) (sizes : Map ℕ ℤ) → HasSizes n sizes → HasSizes (n + 1) (insert n size sizes)
HasSizes-insert n size sizes h id below = rw get-insert (ground (arith, h id))

if_some :
    {V : Type 0} (P : V → Type 0) (b : Bool) (w : V) (o : Option V) (v : V)
    → P w
    → (o ≡ some v → P v)
    → (if b then some w else o) ≡ some v
    → P v
if_some P true w o v hw ho e = let q : w ≡ v = cc in subst P q hw
if_some P false w o v hw ho e = ho e

Everywhere-get :
    {V : Type 0} (P : V → Type 0) (k : Name) (m : Map Name V) (v : V)
    → Everywhere P m
    → get k m ≡ some v
    → P v
unfolding get
Everywhere-get P k [] v h e = cc
Everywhere-get P k ((j, w) ∷ m) v h e =
    if_some P (name_beq j k) w (get k m) v h.0 (Everywhere-get P k m v h.1) e

module _ (s : State) (h : IsWellFormed s) where
  -- what the maps hold is in range
  pub ptr_at : (n : Name) (p : PtrVal) → get n s.ptr_env ≡ some p → PtrBelow s.alloc_counter p
  ptr_at n p = Everywhere-get (PtrBelow s.alloc_counter) n s.ptr_env p h.ptrs_below

  pub spilled_at :
      (n : Name) (p : PtrVal) → get n s.alloca_store_map ≡ some p → PtrBelow s.alloc_counter p
  spilled_at n p = Everywhere-get (PtrBelow s.alloc_counter) n s.alloca_store_map p h.spilled_below

  pub int_at : (n : Name) (p : IntVal) → get n s.int_env ≡ some p → IntBelow s.alloc_counter p
  int_at n p = Everywhere-get (IntBelow s.alloc_counter) n s.int_env p h.ints_below

  pub set_ptr-IsWellFormed :
      (n : Name) (p : PtrVal) → PtrBelow s.alloc_counter p → IsWellFormed (set_ptr n p s)
  unfolding set_ptr insert
  set_ptr-IsWellFormed n p below = record {
    ptrs_below = (below, h.ptrs_below);
    ints_below = h.ints_below;
    spilled_below = h.spilled_below;
    has_sizes = h.has_sizes;
    freed_below = h.freed_below;
    dma_below = h.dma_below;
  }

  pub set_int-IsWellFormed :
      (n : Name) (p : IntVal) → IntBelow s.alloc_counter p → IsWellFormed (set_int n p s)
  unfolding set_int insert
  set_int-IsWellFormed n p below = record {
    ptrs_below = h.ptrs_below;
    ints_below = (below, h.ints_below);
    spilled_below = h.spilled_below;
    has_sizes = h.has_sizes;
    freed_below = h.freed_below;
    dma_below = h.dma_below;
  }

  pub fresh_alloc-IsWellFormed : (size : ℕ) → IsWellFormed (fresh_alloc size s)
  unfolding fresh_alloc
  fresh_alloc-IsWellFormed size = record {
    ptrs_below = Everywhere-map s.ptr_env (PtrBelow-suc s.alloc_counter) h.ptrs_below;
    ints_below = Everywhere-map s.int_env (IntBelow-suc s.alloc_counter) h.ints_below;
    spilled_below =
        Everywhere-map s.alloca_store_map (PtrBelow-suc s.alloc_counter) h.spilled_below;
    has_sizes = HasSizes-insert s.alloc_counter _ s.alloc_sizes h.has_sizes;
    freed_below = AllBelow-suc s.alloc_counter s.freed_allocs h.freed_below;
    dma_below = AllBelow-suc s.alloc_counter s.dma_allocs_in_func h.dma_below;
  }

  pub set_dest-IsWellFormed :
      (d : Option Name) (p : PtrVal) → PtrBelow s.alloc_counter p → IsWellFormed (set_dest d p s)
  unfolding set_dest
  set_dest-IsWellFormed none p below = h
  set_dest-IsWellFormed (some n) p below = set_ptr-IsWellFormed n p below

  pub spill_to-IsWellFormed :
      (n : Name) (p : PtrVal)
      → PtrBelow s.alloc_counter p
      → IsWellFormed (record s { alloca_store_map = insert n p s.alloca_store_map })
  unfolding insert
  spill_to-IsWellFormed n p below = record {
    ptrs_below = h.ptrs_below;
    ints_below = h.ints_below;
    spilled_below = (below, h.spilled_below);
    has_sizes = h.has_sizes;
    freed_below = h.freed_below;
    dma_below = h.dma_below;
  }

  pub free-IsWellFormed :
      (id : ℕ)
      → id < s.alloc_counter
      → IsWellFormed (record s { freed_allocs = add id s.freed_allocs })
  free-IsWellFormed id below = record {
    ptrs_below = h.ptrs_below;
    ints_below = h.ints_below;
    spilled_below = h.spilled_below;
    has_sizes = h.has_sizes;
    freed_below = AllBelow-add _ id _ below h.freed_below;
    dma_below = h.dma_below;
  }

  pub dma-IsWellFormed :
      (id : ℕ)
      → id < s.alloc_counter
      → IsWellFormed (record s { dma_allocs_in_func = add id s.dma_allocs_in_func })
  dma-IsWellFormed id below = record {
    ptrs_below = h.ptrs_below;
    ints_below = h.ints_below;
    spilled_below = h.spilled_below;
    has_sizes = h.has_sizes;
    freed_below = h.freed_below;
    dma_below = AllBelow-add _ id _ below h.dma_below;
  }
