-- ===== src/Input/Replies/FirstParam.antt =====
-- The first parameter of a control sequence that starts with one digit and a semicolon
-- (src/syntax.rs, parse_params; src/report.rs, split).
use qwertty.Input.Reports.{value_at}
use qwertty.Prelude.{
  ℕ, ◌+◌, ◌≡◌, ◌≢◌, refl, sym, ap, subst, false, none, some, List, [], ◌∷◌, ◌++◌, Bytes, get_elem?,
  ◌==◌, ◌>>=◌, arith, Bool-cases, inl, inr, ◌⊎◌,
}
use qwertty.Report.Numbers.{split, onto_first}
use qwertty.Syntax.Token.{
  Param, semicolon, ParamScan, push_param, param_byte, param_loop, no_params, parse_params,
}

get_elem?-append_first {ℓ} :
    {A : Type ℓ} (xs ys : List A) {x : A}
    → get_elem? xs 0 ≡ some x
    → get_elem? (xs ++ ys) 0 ≡ some x
get_elem?-append_first [] ys e = absurd (ground arith)
get_elem?-append_first (x ∷ xs) ys e = e

push_first :
    (s : ParamScan) (p : Param)
    → get_elem? s.params 0 ≡ some p
    → get_elem? (push_param s).params 0 ≡ some p
unfolding push_param
push_first s p e = ground (
  arith,
  get_elem?-append_first s.params (record { separator = s.separator; value = s.value } ∷ []) e,
)

-- The first parameter stays the first.
first_param :
    (bytes : Bytes) (s : ParamScan) (p : Param)
    → get_elem? s.params 0 ≡ some p
    → get_elem? (param_loop s bytes).params 0 ≡ some p
unfolding param_loop param_byte
first_param [] s p e = e
first_param (byte ∷ bytes) s p e =
    first_param bytes (param_byte s byte) p (ground (arith, push_first s p e))

-- The scan behind a one-digit field and its semicolon.
abbrev after_op : ℕ → ParamScan
after_op op = record {
  params = record { separator = none; value = some op } ∷ [];
  separator = some semicolon;
  value = none;
  overflowed = false;
}

kept_four :
    (rest : Bytes)
    → get_elem? (param_loop no_params (b'4' ∷ b';' ∷ rest)).params 0
      ≡ some (record { separator = none; value = some 4 })
unfolding param_loop param_byte push_param
kept_four rest = first_param rest (after_op 4) (record { separator = none; value = some 4 }) refl

kept_six :
    (rest : Bytes)
    → get_elem? (param_loop no_params (b'6' ∷ b';' ∷ rest)).params 0
      ≡ some (record { separator = none; value = some 6 })
unfolding param_loop param_byte push_param
kept_six rest = first_param rest (after_op 6) (record { separator = none; value = some 6 }) refl

-- The first value of bytes that start with `4;` or with `6;`.
pub op_value :
    (op : ℕ) (rest : Bytes)
    → (op ≡ 4) ⊎ (op ≡ 6)
    → value_at (parse_params ((b'0' + op) ∷ b';' ∷ rest)).0 0 ≡ some op
unfolding parse_params
op_value op rest h =
    let Kept : ℕ → Type 0 = λ n.
      get_elem? (param_loop no_params ((b'0' + n) ∷ b';' ∷ rest)).params 0
      ≡ some (record { separator = none; value = some n }) in
    let p : Param = record { separator = none; value = some op } in
    let scan = param_loop no_params ((b'0' + op) ∷ b';' ∷ rest) in
    let first : get_elem? scan.params 0 ≡ some p = elim h [
      | inl e ↦ subst Kept (sym e) (kept_four rest)
      | inr e ↦ subst Kept (sym e) (kept_six rest)
    ] in
    ap (λ found. found >>= λ param. param.value) (push_first scan p first)

onto_first-ne :
    (byte : ℕ) (pieces : List Bytes) {rest : List Bytes} → onto_first byte pieces ≢ [] ∷ rest
onto_first-ne byte [] e = cc
onto_first-ne byte (piece ∷ pieces) e = cc

-- An empty first piece before another stands for a separator in front.
split-nil :
    (sep : ℕ) (bytes piece : Bytes) (rest : List Bytes)
    → split sep bytes ≡ [] ∷ piece ∷ rest
    → (tail : Bytes) × (bytes ≡ sep ∷ tail)
unfolding split
split-nil sep [] piece rest e = absurd (ground arith)
split-nil sep (byte ∷ bytes) piece rest e = elim (Bool-cases (byte == sep)) [
  | inl here ↦ (bytes, ground arith)
  | inr later ↦ absurd (onto_first-ne byte (split sep bytes) (rw later at e))
]

onto_first-op :
    (byte : ℕ) (pieces : List Bytes) (op : ℕ) (piece : Bytes) (rest : List Bytes)
    → onto_first byte pieces ≡ (op ∷ []) ∷ piece ∷ rest
    → (byte ≡ op) × (pieces ≡ [] ∷ piece ∷ rest)
onto_first-op byte [] op piece rest e = absurd (ground arith)
onto_first-op byte (first ∷ pieces) op piece rest e = (cc, cc)

-- The bytes whose first piece is one digit, before another piece.
pub split-op :
    (op : ℕ) (bytes piece : Bytes) (rest : List Bytes)
    → (op == b';') ≡ false
    → split b';' bytes ≡ (op ∷ []) ∷ piece ∷ rest
    → (tail : Bytes) × (bytes ≡ op ∷ b';' ∷ tail)
unfolding split
split-op op [] piece rest d e = absurd (ground arith)
split-op op (byte ∷ bytes) piece rest d e = elim (Bool-cases (byte == b';')) [
  | inl here ↦ absurd (ground arith)
  | inr later ↦
      let (same, behind) = onto_first-op byte (split b';' bytes) op piece rest (rw later at e) in
      let (tail, more) = split-nil b';' bytes piece rest behind in (tail, ground arith)
]
