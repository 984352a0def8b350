-- ===== src/Build.antt =====
-- skv-analyzer/build.rs, which chooses the attestation bridge that is linked in. The compilers are
-- parameters.
use sentinel_kv.Prelude.{
  ◌≡◌, refl, Bool, true, false, Option, none, some, List, [], ◌∷◌, ◌++◌, Text, text, text_beq, map,
  to_lower, if◌then◌else◌, arith,
}

-- What a build finds: the environment, the ends of `zig version` and `zig build-lib`, if they start,
-- and the panic of the C compiler's driver, if it does not take the source.
pub record BuildWorld : Type 0 where
  pub var : Text → Option Text
  pub zig_version : Option Bool
  pub zig_build_lib : Option Bool
  pub cc_error : Option Text

pub data Backend : Type 0 where
  c zig : Backend

-- How the script ends: with a bridge to link, or by a panic.
pub data Built : Type 0 where
  links : Backend → Built
  panics : Text → Built

-- `str::eq_ignore_ascii_case`
unfoldable pub eq_ignore_ascii_case : Text → Text → Bool
unfolding text_beq to_lower
eq_ignore_ascii_case a b = text_beq (map to_lower a) (map to_lower b)

-- `status().is_ok_and(|s| s.success())`
unfoldable pub has_zig : BuildWorld → Bool
has_zig w = elim w.zig_version [ none ↦ false | some success ↦ success ]

unfoldable pub compile_c : BuildWorld → List Text → List Text × Built
compile_c w lines = (lines, elim w.cc_error [ none ↦ links c | some message ↦ panics message ])

-- the exit status of `zig build-lib`
unfoldable pub after_zig : Text → Option Bool → List Text → List Text × Built
unfolding text
after_zig out_dir none lines = (lines, panics (text "failed to invoke zig"))
after_zig out_dir (some false) lines = (lines, panics (text "zig backend compilation failed"))
after_zig out_dir (some true) lines = (
  lines
      ++ (text "cargo:rustc-link-search=native=" ++ out_dir)
        ∷ text "cargo:rustc-link-lib=static=attestation_bridge"
        ∷ [],
  links zig,
)

unfoldable pub compile_zig : BuildWorld → List Text → List Text × Built
unfolding text after_zig
compile_zig w lines = elim (w.var (text "OUT_DIR")) [
  | none ↦ (lines, panics (text "OUT_DIR is required"))
  | some out_dir ↦ after_zig out_dir w.zig_build_lib lines
]

unfoldable pub rerun_lines : List Text
unfolding text
rerun_lines =
    text "cargo:rerun-if-env-changed=SKV_ATTESTATION_IMPL"
    ∷ text "cargo:rerun-if-changed=src/c/attestation_bridge.c"
    ∷ text "cargo:rerun-if-changed=src/c/attestation_bridge.h"
    ∷ text "cargo:rerun-if-changed=src/zig/attestation_bridge.zig"
    ∷ []

unfoldable pub fallback_warning : Text
unfolding text
fallback_warning =
    text
      "cargo:warning=SKV_ATTESTATION_IMPL=zig requested, but `zig` not found; falling back to C backend"

-- the bridge that is asked for, C if none is
unfoldable pub requested : BuildWorld → Text
unfolding text
requested w = elim (w.var (text "SKV_ATTESTATION_IMPL")) [
  | none ↦ text "c"
  | some backend ↦ backend
]

-- `main` of the script: the lines that it prints for cargo, and how it ends
unfoldable pub build : BuildWorld → List Text × Built
build w =
    if eq_ignore_ascii_case (requested w) (text "zig")
    then if has_zig w
      then compile_zig w rerun_lines
      else compile_c w (rerun_lines ++ fallback_warning ∷ [])
    else compile_c w rerun_lines

-- What was found, by what is linked.
pub data Chosen (w : BuildWorld) : Built → Type 0 where
  by_default :
      eq_ignore_ascii_case (requested w) (text "zig") ≡ false
      → w.cc_error ≡ none
      → Chosen w (links c)
  fallen_back :
      eq_ignore_ascii_case (requested w) (text "zig") ≡ true
      → has_zig w ≡ false
      → w.cc_error ≡ none
      → Chosen w (links c)
  as_asked :
      (out_dir : Text)
      → eq_ignore_ascii_case (requested w) (text "zig") ≡ true
      → w.zig_version ≡ some true
      → w.var (text "OUT_DIR") ≡ some out_dir
      → w.zig_build_lib ≡ some true
      → Chosen w (links zig)
  broken : (message : Text) → Chosen w (panics message)

has_zig-version : (w : BuildWorld) → has_zig w ≡ true → w.zig_version ≡ some true
unfolding has_zig
has_zig-version w h = ground arith

module _ (w : BuildWorld) where
  compile_c-Chosen :
      (lines : List Text)
      → (w.cc_error ≡ none → Chosen w (links c))
      → Chosen w (compile_c w lines).1
  unfolding compile_c
  compile_c-Chosen lines h = go w.cc_error h
    where
      go :
          (o : Option Text)
          → (o ≡ none → Chosen w (links c))
          → Chosen w (elim o [ none ↦ links c | some message ↦ panics message ])
      go none h = h refl
      go (some message) h = broken message

  after_zig-Chosen :
      (out_dir : Text) (o : Option Bool) (lines : List Text)
      → (o ≡ some true → Chosen w (links zig))
      → Chosen w (after_zig out_dir o lines).1
  unfolding after_zig
  after_zig-Chosen out_dir none lines h = broken _
  after_zig-Chosen out_dir (some false) lines h = broken _
  after_zig-Chosen out_dir (some true) lines h = h refl

  compile_zig-Chosen :
      (lines : List Text)
      → eq_ignore_ascii_case (requested w) (text "zig") ≡ true
      → has_zig w ≡ true
      → Chosen w (compile_zig w lines).1
  unfolding compile_zig
  compile_zig-Chosen lines asked there = go (w.var (text "OUT_DIR")) refl
    where
      go :
          (o : Option Text)
          → w.var (text "OUT_DIR") ≡ o
          → Chosen w (
              let r : List Text × Built = elim o [
                | none ↦ (lines, panics (text "OUT_DIR is required"))
                | some out_dir ↦ after_zig out_dir w.zig_build_lib lines
              ] in
              r.1)
      go none e = broken _
      go (some out_dir) e =
          after_zig-Chosen out_dir w.zig_build_lib lines
            (as_asked out_dir asked (has_zig-version w there) e)

  -- The script links the C bridge only where Zig is not asked for or not installed, and the Zig bridge
  -- only where it is asked for, installed and compiled.
  pub build-Chosen : Chosen w (build w).1
  unfolding build
  build-Chosen = go (eq_ignore_ascii_case (requested w) (text "zig")) (has_zig w) refl refl
    where
      go :
          (asked there : Bool)
          → eq_ignore_ascii_case (requested w) (text "zig") ≡ asked
          → has_zig w ≡ there
          → Chosen w (
              let r : List Text × Built =
                if asked
                then if there
                  then compile_zig w rerun_lines
                  else compile_c w (rerun_lines ++ fallback_warning ∷ [])
                else compile_c w rerun_lines in
              r.1)
      go false there a t = compile_c-Chosen rerun_lines (by_default a)
      go true false a t = compile_c-Chosen _ (fallen_back a t)
      go true true a t = compile_zig-Chosen rerun_lines a t
