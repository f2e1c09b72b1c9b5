-- ===== src/Syntax/Scan/Extend.antt =====
-- The scan of a parameter prefix does not depend on the bytes behind the prefix, and stays within
-- the cap.
use qwertty.Prelude.{
  ℕ, ◌+◌, ◌≤◌, ◌≡◌, refl, ◌⊎◌, inl, inr, [], ◌∷◌, ◌++◌, arith, Bytes, length, take_while,
  drop_while, take_while-append, drop_while-append, length-take_while, take_while_run, List-cases,
  Bool,
}
use qwertty.Syntax.Classes.{is_private_marker, is_param_byte, is_intermediate_byte}
use qwertty.Syntax.Scan.{
  ControlPrefix, complete, need_more, aborted, overflow, end_prefix, scan_control_prefix,
}

-- The length of three runs, one behind the other.
runs : (p q r : ℕ → Bool) → Bytes → ℕ
runs p q r xs =
    let behind_p = drop_while p xs in
    let behind_q = drop_while q behind_p in
    length (take_while p xs) + length (take_while q behind_p) + length (take_while r behind_q)

runs-append : (p q r : ℕ → Bool) (xs ys : Bytes) → runs p q r xs ≤ runs p q r (xs ++ ys)
unfolding runs
runs-append p q r xs ys = elim (List-cases (drop_while p xs)) [
  | inl a ↦ rw a (omega (arith, take_while_run p xs ys a, length-take_while p xs))
  | inr (c, u, a) ↦ rw (take_while-append p xs ys a, drop_while-append p xs ys a) (second)
]
  where
    behind : Bytes
    behind = drop_while p xs

    second :
        length (take_while p xs)
          + length (take_while q behind)
          + length (take_while r (drop_while q behind))
        ≤ length (take_while p xs)
          + length (take_while q (behind ++ ys))
          + length (take_while r (drop_while q (behind ++ ys)))
    second = elim (List-cases (drop_while q behind)) [
      | inl a ↦ rw a (omega (arith, take_while_run q behind ys a, length-take_while q behind))
      | inr (c, u, a) ↦
          rw (take_while-append q behind ys a, drop_while-append q behind ys a) (third)
    ]
      where
        last : Bytes
        last = drop_while q behind

        third :
            length (take_while p xs) + length (take_while q behind) + length (take_while r last)
            ≤ length (take_while p xs)
              + length (take_while q behind)
              + length (take_while r (last ++ ys))
        third = elim (List-cases (drop_while r last)) [
          | inl a ↦ omega (arith, take_while_run r last ys a, length-take_while r last)
          | inr (c, u, a) ↦ rw (take_while-append r last ys a) (omega arith)
        ]

drop_while-ne_nil :
    (p : ℕ → Bool) (xs : Bytes) {c : ℕ} {r : Bytes}
    → drop_while p xs ≡ c ∷ r
    → (d : ℕ) × (s : Bytes) × (xs ≡ d ∷ s)
drop_while-ne_nil p [] h = cc
drop_while-ne_nil p (x ∷ xs) h = (x, xs, refl)

-- With more input behind it a scan that has found the end of its prefix returns the same.
pub scan_extend :
    (bytes more : Bytes) (cap : ℕ)
    → (scan_control_prefix bytes cap ≡ need_more)
      ⊎ (scan_control_prefix (bytes ++ more) cap ≡ scan_control_prefix bytes cap)
unfolding scan_control_prefix end_prefix runs
scan_extend bytes more cap = elim (List-cases behind_all) [
  | inl stop ↦
      rw stop (
        ground (arith, runs-append is_private_marker is_param_byte is_intermediate_byte bytes more))
  | inr (c, u, go) ↦
      let (d, v, go') = drop_while-ne_nil is_intermediate_byte behind_params go in
      let (e, w, go'') = drop_while-ne_nil is_param_byte behind_markers go' in
      inr (
        rw (
          take_while-append is_private_marker bytes more go'',
          drop_while-append is_private_marker bytes more go'',
          take_while-append is_param_byte behind_markers more go',
          drop_while-append is_param_byte behind_markers more go',
          take_while-append is_intermediate_byte behind_params more go,
          drop_while-append is_intermediate_byte behind_params more go,
          go,
        ))
]
  where
    behind_markers : Bytes
    behind_markers = drop_while is_private_marker bytes

    behind_params : Bytes
    behind_params = drop_while is_param_byte behind_markers

    behind_all : Bytes
    behind_all = drop_while is_intermediate_byte behind_params

-- The position that a scan returns.
abbrev pub end_of : ControlPrefix → ℕ
end_of (complete _ _ _ _ end) = end
end_of need_more = 0
end_of (aborted end) = end
end_of (overflow end) = end

-- A scan stays within the buffer, and at most one byte past the cap.
pub scan_end :
    (bytes : Bytes) (cap : ℕ)
    → (end_of (scan_control_prefix bytes cap) ≤ length bytes)
      × (end_of (scan_control_prefix bytes cap) ≤ cap + 1)
unfolding scan_control_prefix end_prefix
scan_end bytes cap = ground (
  arith,
  length-take_while is_private_marker bytes,
  length-take_while is_param_byte (drop_while is_private_marker bytes),
  length-take_while is_intermediate_byte
      (drop_while is_param_byte (drop_while is_private_marker bytes)),
)

-- A scan that wants more has read the whole buffer, and it is no longer than the cap.
pub scan_wants :
    (bytes : Bytes) (cap : ℕ) → scan_control_prefix bytes cap ≡ need_more → length bytes ≤ cap
unfolding scan_control_prefix end_prefix
scan_wants bytes cap h = ground (
  arith,
  length-take_while is_private_marker bytes,
  length-take_while is_param_byte (drop_while is_private_marker bytes),
  length-take_while is_intermediate_byte
      (drop_while is_param_byte (drop_while is_private_marker bytes)),
)

-- A complete prefix ends one byte behind its three runs.
pub scan_complete :
    (bytes : Bytes) (cap : ℕ) {markers params intermediates : Bytes} {final_byte end : ℕ}
    → scan_control_prefix bytes cap ≡ complete markers params intermediates final_byte end
    → end ≡ length markers + length params + length intermediates + 1
unfolding scan_control_prefix end_prefix
scan_complete bytes cap h = ground arith
