-- ===== src/Examples/Builds.antt =====
-- The build script on some environments.
use sentinel_kv.Prelude.{
  ◌≡◌, refl, true, false, Option, none, some, [], ◌∷◌, ◌++◌, Text, text, text_beq, to_lower,
  if◌then◌else◌,
}
use sentinel_kv.Build.{
  BuildWorld, links, c, zig, panics, eq_ignore_ascii_case, has_zig, compile_c, after_zig,
  compile_zig, rerun_lines, fallback_warning, requested, build,
}

-- Zig is asked for
abbrev asks_for_zig : Text → Option Text
asks_for_zig name =
    if text_beq name (text "SKV_ATTESTATION_IMPL") then some (text "Zig") else some (text "out")

abbrev with_zig : BuildWorld
with_zig = record {
  var = asks_for_zig;
  zig_version = some true;
  zig_build_lib = some true;
  cc_error = none;
}

zig_linked : build with_zig ≡ (
  rerun_lines
      ++ text "cargo:rustc-link-search=native=out"
        ∷ text "cargo:rustc-link-lib=static=attestation_bridge"
        ∷ [],
  links zig,
)
unfolding text text_beq to_lower eq_ignore_ascii_case has_zig after_zig compile_zig rerun_lines
    requested build
zig_linked = refl

no_zig_found :
    build (record with_zig { zig_version = none }) ≡ (rerun_lines ++ fallback_warning ∷ [], links c)
unfolding text text_beq to_lower eq_ignore_ascii_case has_zig compile_c rerun_lines fallback_warning
    requested build
no_zig_found = refl

zig_fails :
    build (record with_zig { zig_build_lib = some false })
    ≡ (rerun_lines, panics (text "zig backend compilation failed"))
unfolding text text_beq to_lower eq_ignore_ascii_case has_zig after_zig compile_zig rerun_lines
    requested build
zig_fails = refl

nothing_asked : build (record with_zig { var = λ name. none }) ≡ (rerun_lines, links c)
unfolding text text_beq to_lower eq_ignore_ascii_case compile_c rerun_lines requested build
nothing_asked = refl
