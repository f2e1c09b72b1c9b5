-- ===== src/Async/Bundle/Room.antt =====
-- The registrations of the probe (src/caps.rs) and the counters of the correlator (src/correlate.rs).
use qwertty.Caps.Bundle.{
  ProbeBundle, ProbeMode, CapabilityField, expected, must_register, register_modes, register_bundle,
  probe_modes, graphics_probe_image_id,
}
use qwertty.Correlate.{Correlator, Slot, Registered, register, register_scan, mint, find_slot}
use qwertty.Correlate.Contract.{IsValid, HasRoom, Updates}
use qwertty.Correlate.Matcher.{Expectation}
use qwertty.Correlate.Pending.{Registers, register-Sound}
use qwertty.Prelude.{
  ℕ, suc, ◌+◌, ◌^◌, ◌<◌, ◌≤◌, ◌≡◌, refl, sym, ap, ◌∙◌, subst, Option, none, some, List, [], ◌∷◌,
  length, ◌==◌, Bool-cases, inl, inr, arith,
}
use qwertty.Report.{OscColorKind}

-- So many more registrations wrap no counter around.
abbrev pub Room : ℕ → Correlator → Type 0
Room k c =
    (c.next_id + k < 2 ^ 64)
    × (k < 2 ^ 32)
    × ((id : ℕ) (slot : Slot) → find_slot id c.slots ≡ some slot → slot.outstanding + k < 2 ^ 32)

mint-next_id :
    (c : Correlator) (e : Expectation) (scan : List Slot × Option Registered)
    → (mint c e scan).0.next_id ≤ c.next_id + 1
mint-next_id c e (slots, none) = omega arith
mint-next_id c e (slots, some registered) = omega arith

-- A slot behind a registration is one from before it, has a waiter more than one, or is new.
registered-outstanding :
    (c c' : Correlator) (e : Expectation) (r : Registered) (id : ℕ) (slot : Slot) (k : ℕ)
    → Registers c e c' r
    → Room (suc k) c
    → find_slot id c'.slots ≡ some slot
    → slot.outstanding + k < 2 ^ 32
unfolding Registers Updates
registered-outstanding c c' e (Registered.ambiguous conflicting) id slot k sound room found = cc
registered-outstanding c c' e (Registered.ok key) id slot k (inl (old, same, (was, now, others)))
      (next, few, most) found =
    elim (Bool-cases (id == key)) [
      | inl here ↦
          (let at_key : id ≡ key = ground arith in
            let bound = most key old was in
            let taken : some (record old { outstanding = old.outstanding + 1 }) ≡ some slot =
              sym now ∙ ap (λ i. find_slot i c'.slots) (sym at_key) ∙ found in
            let count : old.outstanding + 1 ≡ slot.outstanding = cc in omega arith)
      | inr away ↦
          (let bound = most id slot (sym (others id (λ p. ground arith)) ∙ found) in omega arith)
    ]
registered-outstanding c c' e (Registered.ok key) id slot k (inr (fresh, new, (was, now, others)))
      (next, few, most) found =
    elim (Bool-cases (id == key)) [
      | inl here ↦
          (let at_key : id ≡ key = ground arith in
            let taken : some (record { id = key; expectation = e; outstanding = 1; reply = none })
                ≡ some slot =
              sym now ∙ ap (λ i. find_slot i c'.slots) (sym at_key) ∙ found in
            let count : 1 ≡ slot.outstanding = cc in omega arith)
      | inr away ↦
          (let bound = most id slot (sym (others id (λ p. ground arith)) ∙ found) in omega arith)
    ]

-- What a registration in room comes to: it is accepted, and the correlator is as it has to be.
abbrev Joins : ℕ → Option (Correlator × ℕ) → Type 0
Joins k m = (c : Correlator) × (id : ℕ) × (m ≡ some (c, id)) × IsValid c × Room k c

joined :
    (c : Correlator) (e : Expectation) (k : ℕ) (r : Correlator × Registered)
    → Room (suc k) c
    → IsValid r.0
    → Registers c e r.0 r.1
    → r.0.next_id ≤ c.next_id + 1
    → Joins k (expected r)
unfolding Registers
joined c e k (c', Registered.ok id) room v sound next = (
  c',
  id,
  refl,
  v,
  (
    omega arith,
    omega arith,
    λ i slot found. registered-outstanding c c' e (Registered.ok id) i slot k sound room found,
  ),
)
joined c e k (c', Registered.ambiguous id) room v sound next = cc

must_register-Joins :
    (c : Correlator) (e : Expectation) (k : ℕ)
    → IsValid c
    → Room (suc k) c
    → Joins k (must_register c e)
unfolding register HasRoom
must_register-Joins c e k v (next, few, most) =
    let (v', sound) =
      register-Sound c e v
        (omega arith, λ id slot found. let m = most id slot found in omega arith) in
    joined c e k (register c e) (next, few, most) v' sound
      (mint-next_id c e (register_scan e c.slots))

Room-same : {m n : ℕ} (c : Correlator) → m ≡ n → Room m c → Room n c
Room-same c e room = subst (λ k. Room k c) e room

register_modes-Joins :
    (c : Correlator) (probes : List ProbeMode) (k : ℕ)
    → IsValid c
    → Room (length probes + k) c
    → (c' : Correlator) × (modes : List (ℕ × CapabilityField)) × (register_modes c probes
        ≡ some (c', modes))
      × IsValid c'
      × Room k c'
unfolding register_modes
register_modes-Joins c [] k v room = (c, [], refl, v, Room-same c (omega arith) room)
register_modes-Joins c (probe ∷ probes) k v room =
    let (c1, id, e, v1, r1) =
      must_register-Joins c (Expectation.dec_private_mode probe.mode) (length probes + k) v
        (Room-same c (omega arith) room) in
    let (c2, modes, e2, v2, r2) = register_modes-Joins c1 probes k v1 r1 in
    (c2, (id, probe.field) ∷ modes, rw (e, e2) refl, v2, r2)

-- The registrations in a row.
in_a_row :
    (c c1 c2 c3 c4 c5 c6 c7 c8 c9 : Correlator) (i1 i2 i3 i4 i5 i6 i7 i9 : ℕ)
    (modes : List (ℕ × CapabilityField))
    → must_register c Expectation.xt_version ≡ some (c1, i1)
    → must_register c1 Expectation.kitty_keyboard_flags ≡ some (c2, i2)
    → must_register c2 (Expectation.kitty_graphics graphics_probe_image_id) ≡ some (c3, i3)
    → must_register c3 Expectation.text_area_pixels ≡ some (c4, i4)
    → must_register c4 Expectation.cell_size ≡ some (c5, i5)
    → must_register c5 (Expectation.osc_color OscColorKind.foreground) ≡ some (c6, i6)
    → must_register c6 (Expectation.osc_color OscColorKind.background) ≡ some (c7, i7)
    → register_modes c7 probe_modes ≡ some (c8, modes)
    → must_register c8 Expectation.primary_device_attributes ≡ some (c9, i9)
    → (bundle : ProbeBundle) × (register_bundle c ≡ some (c9, bundle))
unfolding register_bundle
in_a_row c c1 c2 c3 c4 c5 c6 c7 c8 c9 i1 i2 i3 i4 i5 i6 i7 i9 modes e1 e2 e3 e4 e5 e6 e7 e8 e9 =
    let bundle : ProbeBundle = record {
      fence = some i9;
      xtversion = some i1;
      kitty = some i2;
      graphics = some i3;
      text_area_pixels = some i4;
      cell_size = some i5;
      foreground = some i6;
      background = some i7;
      modes = modes;
    } in
    (bundle, rw (e1, e2, e3, e4, e5, e6, e7, e8, e9) refl)

-- In a valid correlator with room for twelve registrations the probe registers its bundle, and the
-- correlator stays valid.
pub register_bundle-IsValid :
    (c : Correlator)
    → IsValid c
    → Room 12 c
    → (c' : Correlator) × (bundle : ProbeBundle) × (register_bundle c ≡ some (c', bundle))
      × IsValid c'
register_bundle-IsValid c v r =
    let (c1, i1, e1, v1, r1) = must_register-Joins c Expectation.xt_version 11 v r in
    let (c2, i2, e2, v2, r2) = must_register-Joins c1 Expectation.kitty_keyboard_flags 10 v1 r1 in
    let (c3, i3, e3, v3, r3) =
      must_register-Joins c2 (Expectation.kitty_graphics graphics_probe_image_id) 9 v2 r2 in
    let (c4, i4, e4, v4, r4) = must_register-Joins c3 Expectation.text_area_pixels 8 v3 r3 in
    let (c5, i5, e5, v5, r5) = must_register-Joins c4 Expectation.cell_size 7 v4 r4 in
    let (c6, i6, e6, v6, r6) =
      must_register-Joins c5 (Expectation.osc_color OscColorKind.foreground) 6 v5 r5 in
    let (c7, i7, e7, v7, r7) =
      must_register-Joins c6 (Expectation.osc_color OscColorKind.background) 5 v6 r6 in
    let (c8, modes, e8, v8, r8) = register_modes-Joins c7 probe_modes 1 v7 r7 in
    let (c9, i9, e9, v9, r9) =
      must_register-Joins c8 Expectation.primary_device_attributes 0 v8 r8 in
    let (bundle, e) =
      in_a_row c c1 c2 c3 c4 c5 c6 c7 c8 c9 i1 i2 i3 i4 i5 i6 i7 i9 modes e1 e2 e3 e4 e5 e6 e7 e8
        e9 in
    (c9, bundle, e, v9)
