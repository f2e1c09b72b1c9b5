-- ===== src/Caps/Registers.antt =====
-- The probe can always register its expectations (src/caps.rs with src/correlate.rs).
use qwertty.Caps.Bundle.{
  ProbeBundle, must_register, expected, register_modes, register_bundle, ProbeMode, probe_modes,
  graphics_probe_image_id, CapabilityField,
}
use qwertty.Correlate.{Correlator, Slot, Registered, register, register_scan, mint}
use qwertty.Correlate.Matcher.{Expectation, distinguishes}
use qwertty.Prelude.{ℕ, ◌≡◌, refl, Bool, true, false, Option, none, some, List, [], ◌∷◌, arith}
use qwertty.Report.{OscColorKind}

abbrev is_accepted : Option Registered → Bool
is_accepted (some (Registered.ambiguous id)) = false
is_accepted _ = true

scan_accepts : (e : Expectation) (slots : List Slot) → is_accepted (register_scan e slots).1 ≡ true
unfolding register_scan distinguishes
scan_accepts e [] = refl
scan_accepts e (slot ∷ slots) = ground (arith, scan_accepts e slots)

-- A registration is never refused.
accepted :
    (c : Correlator) (e : Expectation) (scan : List Slot × Option Registered)
    → is_accepted scan.1 ≡ true
    → (c' : Correlator) × (id : ℕ) × (expected (mint c e scan) ≡ some (c', id))
accepted c e (slots, none) h = (_, _, refl)
accepted c e (slots, some (Registered.ok id)) h = (_, _, refl)
accepted c e (slots, some (Registered.ambiguous id)) h = absurd (ground arith)

pub must_register-some :
    (c : Correlator) (e : Expectation)
    → (c' : Correlator) × (id : ℕ) × (must_register c e ≡ some (c', id))
unfolding register
must_register-some c e = accepted c e (register_scan e c.slots) (scan_accepts e c.slots)

register_modes-some :
    (c : Correlator) (probes : List ProbeMode)
    → (c' : Correlator) × (modes : List (ℕ × CapabilityField)) × (register_modes c probes
        ≡ some (c', modes))
unfolding register_modes
register_modes-some c [] = (c, [], refl)
register_modes-some c (probe ∷ probes) =
    let (c1, id, e) = must_register-some c (Expectation.dec_private_mode probe.mode) in
    let (c2, modes, k) = register_modes-some c1 probes in
    (c2, (id, probe.field) ∷ modes, rw (e, k) refl)

-- The probe registers its twelve expectations with every correlator, whatever waits there.
pub register_bundle-some :
    (c : Correlator)
    → (c' : Correlator) × (bundle : ProbeBundle) × (register_bundle c ≡ some (c', bundle))
unfolding register_bundle
register_bundle-some c =
    let (c1, i1, e1) = must_register-some c Expectation.xt_version in
    let (c2, i2, e2) = must_register-some c1 Expectation.kitty_keyboard_flags in
    let (c3, i3, e3) = must_register-some c2 (Expectation.kitty_graphics graphics_probe_image_id) in
    let (c4, i4, e4) = must_register-some c3 Expectation.text_area_pixels in
    let (c5, i5, e5) = must_register-some c4 Expectation.cell_size in
    let (c6, i6, e6) = must_register-some c5 (Expectation.osc_color OscColorKind.foreground) in
    let (c7, i7, e7) = must_register-some c6 (Expectation.osc_color OscColorKind.background) in
    let (c8, modes, e8) = register_modes-some c7 probe_modes in
    let (c9, i9, e9) = must_register-some c8 Expectation.primary_device_attributes in
    let bundle : ProbeBundle = record {
      fence = some i9;
      xtversion = some i1;
      kitty = some i2;
      graphics = some i3;
      text_area_pixels = some i4;
      cell_size = some i5;
      foreground = some i6;
      background = some i7;
      modes = modes;
    } in
    (c9, bundle, rw (e1, e2, e3, e4, e5, e6, e7, e8, e9) refl)
