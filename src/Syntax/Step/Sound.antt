-- ===== src/Syntax/Step/Sound.antt =====
-- A step takes its token off the front of the buffer: nothing is lost, reordered or read twice, the
-- step always advances, and what it leaves pending is bounded by the cap.
use qwertty.Prelude.{
  ℕ, ◌+◌, ◌≤◌, ◌<◌, ◌≡◌, refl, inl, inr, true, false, Option, none, [], ◌∷◌, ◌++◌, arith, Bytes,
  length, drop, take-append-drop, length-take, length-drop, bytes_eq→≡, take_while,
  length-take_while, Bool-cases, ltb, subst,
}
use qwertty.Syntax.Classes.{is_intermediate_byte}
use qwertty.Syntax.Paste.{PasteAccum}
use qwertty.Syntax.Scan.Extend.{scan_end, scan_wants, scan_complete}
use qwertty.Syntax.Scan.{ControlPrefix, complete, aborted, overflow, scan_control_prefix}
use qwertty.Syntax.Step.{
  Step, emit, need_more, enter_string, enter_paste, emit_malformed, emit_text, is_paste_start,
  paste_start_param, csi_step, parse_csi, start_string, dcs_step, parse_string, escape_step,
  parse_plain_escape,
}
use qwertty.Syntax.Strings.{StringAccum}
use qwertty.Syntax.Token.{StringKind, dcs, ControlParams, as_bytes, dropped_of}

-- What holds of a string sequence that a step enters.
pub record EntersString (cap : ℕ) (bytes : Bytes) (a : StringAccum) (rest : Bytes) : Type 0 where
  pub splits : a.retained ++ rest ≡ bytes
  pub none_dropped : a.dropped ≡ 0
  pub none_held : a.esc_held ≡ false
  pub introduced : 0 < a.introducer_len
  pub short_introducer : a.introducer_len ≤ 2
  pub starts : a.introducer_len ≤ length a.retained
  pub bounded : length a.retained ≤ a.introducer_len + cap + 1
  pub payload_empty : a.payload_start ≡ length a.retained

-- What holds of a paste that a step enters.
pub record EntersPaste (bytes : Bytes) (a : PasteAccum) (rest : Bytes) : Type 0 where
  pub splits : a.retained ++ rest ≡ bytes
  pub no_match : a.pending_match ≡ []
  pub advances : 0 < length a.retained
  pub bounded : length a.retained ≤ 6
  pub payload_empty : a.payload_start ≡ length a.retained

-- A step at `bytes` under the bound `cap`.
abbrev pub Sound : ℕ → Bytes → Step → Type 0
Sound cap bytes (emit token rest) =
    (as_bytes token ++ rest ≡ bytes) × (dropped_of token ≡ 0) × (0 < length (as_bytes token))
Sound cap bytes need_more = (length bytes ≤ cap + 3) × Unit {0}
Sound cap bytes (enter_string a rest) = EntersString cap bytes a rest
Sound cap bytes (enter_paste a rest) = EntersPaste bytes a rest

module _ (cap : ℕ) where
  pub emit_malformed-Sound :
      (bytes : Bytes) (n : ℕ) → 0 < n → n ≤ length bytes → Sound cap bytes (emit_malformed bytes n)
  emit_malformed-Sound bytes n h k =
      (take-append-drop n bytes, refl, omega (arith, length-take n bytes))

  pub emit_text-Sound :
      (bytes : Bytes) (n : ℕ) → 0 < n → n ≤ length bytes → Sound cap bytes (emit_text bytes n)
  emit_text-Sound bytes n h k = (take-append-drop n bytes, refl, omega (arith, length-take n bytes))

  paste_start_end :
      (markers params intermediates : Bytes) (final_byte : ℕ)
      → is_paste_start markers params intermediates final_byte ≡ true
      → length markers + length params + length intermediates ≡ 3
  unfolding is_paste_start
  paste_start_end markers params intermediates final_byte h =
      ground (arith, bytes_eq→≡ params paste_start_param)

  csi_step-Sound :
      (bytes : Bytes) (prefix_len : ℕ) (r : ControlPrefix)
      → 0 < prefix_len
      → prefix_len ≤ 2
      → prefix_len ≤ length bytes
      → scan_control_prefix (drop prefix_len bytes) cap ≡ r
      → Sound cap bytes (csi_step bytes prefix_len r)
  unfolding csi_step
  csi_step-Sound bytes prefix_len (complete m p i f end) h k l e =
      let (inside, short) = rw e at (scan_end (drop prefix_len bytes) cap) in
      let all = take-append-drop (prefix_len + end) bytes in
      let size = length-take (prefix_len + end) bytes in
      let left = length-drop prefix_len bytes in
      elim (Bool-cases (is_paste_start m p i f)) [
        | inl begins ↦
            let exact = scan_complete (drop prefix_len bytes) cap e in
            let three = paste_start_end m p i f begins in
            rw begins (record {
              splits = all;
              no_match = refl;
              advances = omega arith;
              bounded = omega arith;
              payload_empty = refl;
            })
        | inr other ↦ rw other (all, refl, omega arith)
      ]
  csi_step-Sound bytes prefix_len ControlPrefix.need_more h k l e =
      (omega (arith, scan_wants (drop prefix_len bytes) cap e, length-drop prefix_len bytes), tt)
  csi_step-Sound bytes prefix_len (aborted end) h k l e =
      let inside = rw e at (scan_end (drop prefix_len bytes) cap) in
      emit_malformed-Sound bytes (prefix_len + end) (omega arith)
        (omega (arith, inside.0, length-drop prefix_len bytes))
  csi_step-Sound bytes prefix_len (overflow end) h k l e =
      let inside = rw e at (scan_end (drop prefix_len bytes) cap) in
      emit_malformed-Sound bytes (prefix_len + end) (omega arith)
        (omega (arith, inside.0, length-drop prefix_len bytes))

  pub parse_csi-Sound :
      (bytes : Bytes) (prefix_len : ℕ)
      → 0 < prefix_len
      → prefix_len ≤ 2
      → prefix_len ≤ length bytes
      → Sound cap bytes (parse_csi bytes prefix_len cap)
  unfolding parse_csi
  parse_csi-Sound bytes prefix_len h k l = csi_step-Sound bytes prefix_len _ h k l refl

  start_string-Sound :
      (bytes : Bytes) (kind : StringKind) (prefix_len end : ℕ) (params : Option ControlParams)
      → 0 < prefix_len
      → prefix_len ≤ 2
      → prefix_len + end ≤ length bytes
      → end ≤ cap + 1
      → Sound cap bytes (start_string bytes kind prefix_len (prefix_len + end) params)
  unfolding start_string
  start_string-Sound bytes kind prefix_len end params h k l m =
      let size = length-take (prefix_len + end) bytes in
      record {
        splits = take-append-drop (prefix_len + end) bytes;
        none_dropped = refl;
        none_held = refl;
        introduced = h;
        short_introducer = k;
        starts = omega arith;
        bounded = omega arith;
        payload_empty = omega arith;
      }

  dcs_step-Sound :
      (bytes : Bytes) (prefix_len : ℕ) (r : ControlPrefix)
      → 0 < prefix_len
      → prefix_len ≤ 2
      → prefix_len ≤ length bytes
      → scan_control_prefix (drop prefix_len bytes) cap ≡ r
      → Sound cap bytes (dcs_step bytes prefix_len r)
  unfolding dcs_step
  dcs_step-Sound bytes prefix_len (complete m p i f end) h k l e =
      let (inside, short) = rw e at (scan_end (drop prefix_len bytes) cap) in
      start_string-Sound bytes dcs prefix_len end _ h k
        (omega (arith, length-drop prefix_len bytes)) short
  dcs_step-Sound bytes prefix_len ControlPrefix.need_more h k l e =
      (omega (arith, scan_wants (drop prefix_len bytes) cap e, length-drop prefix_len bytes), tt)
  dcs_step-Sound bytes prefix_len (aborted end) h k l e =
      let inside = rw e at (scan_end (drop prefix_len bytes) cap) in
      emit_malformed-Sound bytes (prefix_len + end) (omega arith)
        (omega (arith, inside.0, length-drop prefix_len bytes))
  dcs_step-Sound bytes prefix_len (overflow end) h k l e =
      let inside = rw e at (scan_end (drop prefix_len bytes) cap) in
      emit_malformed-Sound bytes (prefix_len + end) (omega arith)
        (omega (arith, inside.0, length-drop prefix_len bytes))

  plain_string-Sound :
      (bytes : Bytes) (kind : StringKind) (prefix_len : ℕ)
      → 0 < prefix_len
      → prefix_len ≤ 2
      → prefix_len ≤ length bytes
      → Sound cap bytes (start_string bytes kind prefix_len prefix_len none)
  plain_string-Sound bytes kind prefix_len h k l =
      subst (λ n. Sound cap bytes (start_string bytes kind prefix_len n none)) (omega arith)
        (start_string-Sound bytes kind prefix_len 0 none h k (omega arith) (omega arith))

  pub parse_string-Sound :
      (bytes : Bytes) (kind : StringKind) (prefix_len : ℕ)
      → 0 < prefix_len
      → prefix_len ≤ 2
      → prefix_len ≤ length bytes
      → Sound cap bytes (parse_string bytes kind prefix_len cap)
  unfolding parse_string
  parse_string-Sound bytes dcs prefix_len h k l = dcs_step-Sound bytes prefix_len _ h k l refl
  parse_string-Sound bytes kind prefix_len h k l = plain_string-Sound bytes _ prefix_len h k l

  escape_step-Sound :
      (bytes : Bytes) (index : ℕ) (i here : Bytes)
      → 0 < index
      → index + length here ≡ length bytes
      → index ≤ cap + 1
      → Sound cap bytes (escape_step bytes index i here)
  unfolding escape_step
  escape_step-Sound bytes index i [] h l k = (omega arith, tt)
  escape_step-Sound bytes index i (byte ∷ _) h l k = ground (
    arith,
    take-append-drop (index + 1) bytes,
    length-take (index + 1) bytes,
    emit_malformed-Sound bytes (index + 1),
    emit_malformed-Sound bytes index,
  )

  pub parse_plain_escape-Sound :
      (bytes : Bytes) → 0 < length bytes → Sound cap bytes (parse_plain_escape bytes cap)
  unfolding parse_plain_escape
  parse_plain_escape-Sound bytes h =
      let sizes = length-take_while is_intermediate_byte (drop 1 bytes) in
      let left = length-drop 1 bytes in
      elim (Bool-cases (ltb cap (length (take_while is_intermediate_byte (drop 1 bytes))))) [
        | inl over ↦ rw over (emit_malformed-Sound bytes (1 + cap) (omega arith) (ground arith))
        | inr short ↦
            rw short (escape_step-Sound bytes _ _ _ (omega arith) (omega arith) (ground arith))
      ]
