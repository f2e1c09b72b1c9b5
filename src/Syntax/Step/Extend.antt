-- ===== src/Syntax/Step/Extend.antt =====
-- A step that did not ask for more input does not depend on the input behind its token: with more
-- bytes in the buffer it makes the same token and leaves the further bytes behind the rest.
use qwertty.Prelude.{
  ℕ, ◌+◌, ◌≤◌, ◌≡◌, refl, ◌⊎◌, inl, inr, Option, none, [], ◌∷◌, ◌++◌, arith, Bytes, length, drop,
  length-drop, length-append, take-append_le, drop-append_le, List-cases, take_while, drop_while,
  take_while-append, drop_while-append, take_while_run, length-take_while,
}
use qwertty.Syntax.Classes.{is_intermediate_byte}
use qwertty.Syntax.Scan.Extend.{end_of, scan_end, scan_extend}
use qwertty.Syntax.Scan.{ControlPrefix, complete, aborted, overflow, scan_control_prefix}
use qwertty.Syntax.Step.{
  Step, emit, need_more, enter_string, enter_paste, emit_malformed, emit_text, csi_step, parse_csi,
  start_string, dcs_step, parse_string, escape_step, parse_plain_escape,
}
use qwertty.Syntax.Token.{StringKind, dcs, ControlParams}

-- The step with `more` behind the bytes that it leaves.
abbrev pub extend : Step → Bytes → Step
extend (emit token rest) more = emit token (rest ++ more)
extend need_more more = need_more
extend (enter_string a rest) more = enter_string a (rest ++ more)
extend (enter_paste a rest) more = enter_paste a (rest ++ more)

abbrev pub IsStable : Step → Step → Bytes → Type 0
IsStable s s' more = (s ≡ need_more) ⊎ (s' ≡ extend s more)

module _ (bytes more : Bytes) where
  pub emit_malformed-extend :
      (n : ℕ)
      → n ≤ length bytes
      → emit_malformed (bytes ++ more) n ≡ extend (emit_malformed bytes n) more
  emit_malformed-extend n h = rw (take-append_le n bytes more h, drop-append_le n bytes more h)

  pub emit_text-extend :
      (n : ℕ) → n ≤ length bytes → emit_text (bytes ++ more) n ≡ extend (emit_text bytes n) more
  emit_text-extend n h = rw (take-append_le n bytes more h, drop-append_le n bytes more h)

  csi_step-extend :
      (prefix_len : ℕ) (r : ControlPrefix)
      → prefix_len + end_of r ≤ length bytes
      → csi_step (bytes ++ more) prefix_len r ≡ extend (csi_step bytes prefix_len r) more
  unfolding csi_step
  csi_step-extend prefix_len (complete m p i f end) h = ground (
    arith,
    take-append_le (prefix_len + end) bytes more h,
    drop-append_le (prefix_len + end) bytes more h,
  )
  csi_step-extend prefix_len ControlPrefix.need_more h = refl
  csi_step-extend prefix_len (aborted end) h = emit_malformed-extend (prefix_len + end) h
  csi_step-extend prefix_len (overflow end) h = emit_malformed-extend (prefix_len + end) h

  start_string-extend :
      (kind : StringKind) (prefix_len cursor : ℕ) (params : Option ControlParams)
      → cursor ≤ length bytes
      → start_string (bytes ++ more) kind prefix_len cursor params
        ≡ extend (start_string bytes kind prefix_len cursor params) more
  unfolding start_string
  start_string-extend kind prefix_len cursor params h =
      rw (take-append_le cursor bytes more h, drop-append_le cursor bytes more h)

  dcs_step-extend :
      (prefix_len : ℕ) (r : ControlPrefix)
      → prefix_len + end_of r ≤ length bytes
      → dcs_step (bytes ++ more) prefix_len r ≡ extend (dcs_step bytes prefix_len r) more
  unfolding dcs_step
  dcs_step-extend prefix_len (complete m p i f end) h =
      start_string-extend dcs prefix_len (prefix_len + end) _ h
  dcs_step-extend prefix_len ControlPrefix.need_more h = refl
  dcs_step-extend prefix_len (aborted end) h = emit_malformed-extend (prefix_len + end) h
  dcs_step-extend prefix_len (overflow end) h = emit_malformed-extend (prefix_len + end) h

  prefix_within :
      (prefix_len cap : ℕ)
      → prefix_len ≤ length bytes
      → prefix_len + end_of (scan_control_prefix (drop prefix_len bytes) cap) ≤ length bytes
  prefix_within prefix_len cap h =
      omega (arith, (scan_end (drop prefix_len bytes) cap).0, length-drop prefix_len bytes)

  pub parse_csi-extend :
      (prefix_len cap : ℕ)
      → prefix_len ≤ length bytes
      → IsStable (parse_csi bytes prefix_len cap) (parse_csi (bytes ++ more) prefix_len cap) more
  unfolding parse_csi
  parse_csi-extend prefix_len cap h = elim (scan_extend (drop prefix_len bytes) more cap) [
    | inl wants ↦ inl (rw wants (unfold csi_step in refl))
    | inr same ↦ inr (
        rw (drop-append_le prefix_len bytes more h, same)
          (csi_step-extend prefix_len _ (prefix_within prefix_len cap h)))
  ]

  pub parse_string-extend :
      (kind : StringKind) (prefix_len cap : ℕ)
      → prefix_len ≤ length bytes
      → IsStable
          (parse_string bytes kind prefix_len cap)
          (parse_string (bytes ++ more) kind prefix_len cap)
          more
  unfolding parse_string
  parse_string-extend dcs prefix_len cap h = elim (scan_extend (drop prefix_len bytes) more cap) [
    | inl wants ↦ inl (rw wants (unfold dcs_step in refl))
    | inr same ↦ inr (
        rw (drop-append_le prefix_len bytes more h, same)
          (dcs_step-extend prefix_len _ (prefix_within prefix_len cap h)))
  ]
  parse_string-extend kind prefix_len cap h =
      inr (start_string-extend _ prefix_len prefix_len none h)

  escape_step-extend :
      (index : ℕ) (i here : Bytes)
      → index + length here ≡ length bytes
      → IsStable
          (escape_step bytes index i here)
          (escape_step (bytes ++ more) index i (here ++ more))
          more
  unfolding escape_step
  escape_step-extend index i [] h = inl refl
  escape_step-extend index i (byte ∷ _) h = inr (
      ground (
        arith,
        take-append_le (index + 1) bytes more,
        drop-append_le (index + 1) bytes more,
        take-append_le index bytes more,
        drop-append_le index bytes more,
      ))

pub parse_plain_escape-extend :
    (byte : ℕ) (rest more : Bytes) (cap : ℕ)
    → IsStable
        (parse_plain_escape (byte ∷ rest) cap)
        (parse_plain_escape (byte ∷ (rest ++ more)) cap)
        more
unfolding parse_plain_escape escape_step
parse_plain_escape-extend byte rest more cap =
    elim (List-cases (drop_while is_intermediate_byte rest)) [
      | inl stop ↦ rw stop (
          ground (
            arith,
            take_while_run is_intermediate_byte rest more stop,
            length-take_while is_intermediate_byte rest,
            length-append rest more,
            emit_malformed-extend (byte ∷ rest) more (1 + cap),
          ))
      | inr (c, u, go) ↦
          let size = length-take_while is_intermediate_byte rest in
          rw
            (
              take_while-append is_intermediate_byte rest more go,
              drop_while-append is_intermediate_byte rest more go,
            )
            (ground (
              arith,
              size,
              emit_malformed-extend (byte ∷ rest) more (1 + cap),
              escape_step-extend (byte ∷ rest) more
                  (1 + length (take_while is_intermediate_byte rest))
                  (take_while is_intermediate_byte rest) (drop_while is_intermediate_byte rest),
            ))
    ]
