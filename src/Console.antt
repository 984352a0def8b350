-- ===== src/Console.antt =====
-- What a run of skv-analyzer does to the outside: lines on the console and files, in their order.
-- A step of the program takes what was done so far and gives its result with what is done behind it.
use sentinel_kv.Prelude.{Option, none, some, List, [], ◌∷◌, ◌++◌, Text}
use sentinel_kv.Host.{Host, Result, ok, err}
use sentinel_kv.Files.{Written}

pub data Effect : Type 0 where
  -- a line on the standard output, and one on the standard error
  printed warned : Text → Effect
  wrote : Written → Effect

-- The outside as it is when the effects so far have happened: it may change with them, and by itself.
abbrev pub World : Type 0
World = List Effect → Host

abbrev pub Action : Type 0 → Type 0
Action A = List Effect → Result A × List Effect

unfoldable pub and_then :
    {A B : Type 0} → Result A × List Effect → (A → Action B) → Result B × List Effect
and_then (ok a, log) f = f a log
and_then (err e, log) f = (err e, log)

infixl 5 ◌>>=◌ ◌>>◌
abbrev pub ◌>>=◌ : {A B : Type 0} → Action A → (A → Action B) → Action B
◌>>=◌ act f log = and_then (act log) f

abbrev pub ◌>>◌ : {B : Type 0} → Action (Unit {0}) → Action B → Action B
◌>>◌ act after log = and_then (act log) (λ _. after)

abbrev pub return : {A : Type 0} → A → Action A
return a log = (ok a, log)

-- `println!`
abbrev pub println : Text → Action (Unit {0})
println line log = (ok tt, log ++ printed line ∷ [])

-- some lines, one behind the other
unfoldable pub println_all : List Text → Action (Unit {0})
println_all [] log = (ok tt, log)
println_all (line ∷ lines) log = println_all lines (log ++ printed line ∷ [])

-- a step that only asks the outside
abbrev pub asking : {A : Type 0} → World → (Host → Result A) → Action A
asking world ask log = (ask (world log), log)

unfoldable pub record_write : Result Written × List Effect → Result (Unit {0}) × List Effect
record_write (ok w, log) = (ok tt, log ++ wrote w ∷ [])
record_write (err e, log) = (err e, log)

-- a step that writes a file, with the context of its failure
unfoldable pub writing : World → (Host → Result Written) → Action (Unit {0})
unfolding record_write
writing world write log = record_write (write (world log), log)

-- `if let Some(a) = o { … }`
unfoldable pub if_some : {A : Type 0} → Option A → (A → Action (Unit {0})) → Action (Unit {0})
if_some none f log = (ok tt, log)
if_some (some a) f log = f a log
