-- ===== src/Syntax/Token.antt =====
-- The token vocabulary (src/syntax/token.rs) and the parameter parser.
pub mod Params
use qwertty.Prelude.{
  ℕ, ◌+◌, ◌-◌, ◌*◌, ◌^◌, min, Bool, true, false, ◌&&◌, ◌||◌, Option, none, some, List, [], ◌∷◌,
  ◌++◌, Bytes, length, is_empty, leb, ◌==◌, if◌then◌else◌,
}

pub data ParamSeparator : Type 0 where
  semicolon colon : ParamSeparator

unfoldable pub as_byte : ParamSeparator → ℕ
as_byte semicolon = b';'
as_byte colon = b':'

pub record Param : Type 0 where
  pub separator : Option ParamSeparator
  pub value : Option ℕ

pub data StringTerminator : Type 0 where
  bel esc_backslash c1 unterminated : StringTerminator

-- `StringTerminator::as_bytes`
abbrev pub terminator_bytes : StringTerminator → Bytes
terminator_bytes bel = 0x07 ∷ []
terminator_bytes esc_backslash = 0x1b ∷ b'\\' ∷ []
terminator_bytes c1 = 0x9c ∷ []
terminator_bytes unterminated = []

pub data StringKind : Type 0 where
  osc dcs apc pm sos : StringKind

pub record ControlParams : Type 0 where
  pub private_markers : Bytes
  pub param_bytes : Bytes
  pub params : List Param
  pub params_overflowed : Bool
  pub intermediates : Bytes
  pub final_byte : ℕ

pub record StringSequence : Type 0 where
  pub kind : StringKind
  pub bytes : Bytes
  pub payload : Bytes
  pub dropped_bytes : ℕ
  pub terminator : StringTerminator
  pub control_params : Option ControlParams

pub record ControlSequence : Type 0 where
  pub bytes : Bytes
  pub params : ControlParams

pub record EscapeSequence : Type 0 where
  pub bytes : Bytes
  pub intermediates : Bytes
  pub final_byte : Option ℕ

pub record PasteSequence : Type 0 where
  pub bytes : Bytes
  pub payload : Bytes
  pub is_first : Bool
  pub is_final : Bool
  pub terminated : Bool

pub data SyntaxToken : Type 0 where
  text : Bytes → SyntaxToken
  control : ℕ → SyntaxToken
  csi : ControlSequence → SyntaxToken
  osc dcs apc pm sos : StringSequence → SyntaxToken
  paste : PasteSequence → SyntaxToken
  esc : EscapeSequence → SyntaxToken
  malformed : Bytes → SyntaxToken

-- `SyntaxToken::as_bytes`
abbrev pub as_bytes : SyntaxToken → Bytes
as_bytes (SyntaxToken.text b) = b
as_bytes (SyntaxToken.malformed b) = b
as_bytes (SyntaxToken.control b) = b ∷ []
as_bytes (SyntaxToken.csi s) = s.bytes
as_bytes (SyntaxToken.osc s) = s.bytes
as_bytes (SyntaxToken.dcs s) = s.bytes
as_bytes (SyntaxToken.apc s) = s.bytes
as_bytes (SyntaxToken.pm s) = s.bytes
as_bytes (SyntaxToken.sos s) = s.bytes
as_bytes (SyntaxToken.paste s) = s.bytes
as_bytes (SyntaxToken.esc s) = s.bytes

-- The dropped-byte count of a token: `StringSequence::dropped_bytes`, and 0 where there is none.
abbrev pub dropped_of : SyntaxToken → ℕ
dropped_of (SyntaxToken.osc s) = s.dropped_bytes
dropped_of (SyntaxToken.dcs s) = s.dropped_bytes
dropped_of (SyntaxToken.apc s) = s.dropped_bytes
dropped_of (SyntaxToken.pm s) = s.dropped_bytes
dropped_of (SyntaxToken.sos s) = s.dropped_bytes
dropped_of _ = 0

-- `ControlParams::PARAM_LIMIT`
abbrev pub param_limit : ℕ
param_limit = 32

abbrev u32_max : ℕ
u32_max = 2 ^ 32 - 1

-- `u32::saturating_mul` and `u32::saturating_add`
abbrev saturating_mul : ℕ → ℕ → ℕ
saturating_mul a b = min (a * b) u32_max

abbrev saturating_add : ℕ → ℕ → ℕ
saturating_add a b = min (a + b) u32_max

-- The variables of the loop in `parse_params`.
pub record ParamScan : Type 0 where
  pub params : List Param
  pub separator : Option ParamSeparator
  pub value : Option ℕ
  pub overflowed : Bool

-- `overflowed |= push(separator, value, &mut params)`
unfoldable pub push_param : ParamScan → ParamScan
push_param s =
    if leb param_limit (length s.params) then record s { overflowed = true } else record s {
      params = s.params ++ (record { separator = s.separator; value = s.value } ∷ []);
    }

abbrev value_or_zero : Option ℕ → ℕ
value_or_zero none = 0
value_or_zero (some v) = v

-- The body of the loop.
unfoldable pub param_byte : ParamScan → ℕ → ParamScan
param_byte s byte =
    if byte == b';' || byte == b':'
    then record (push_param s) {
      separator = some (if byte == b';' then semicolon else colon);
      value = none;
    }
    else if leb b'0' byte && leb byte b'9'
    then record s {
      value = some (saturating_add (saturating_mul (value_or_zero s.value) 10) (byte - b'0'));
    }
    else s

unfoldable pub param_loop : ParamScan → Bytes → ParamScan
param_loop s [] = s
param_loop s (byte ∷ bytes) = param_loop (param_byte s byte) bytes

abbrev pub no_params : ParamScan
no_params = record { params = []; separator = none; value = none; overflowed = false }

unfoldable pub parse_params : Bytes → List Param × Bool
unfolding param_loop param_byte push_param
parse_params param_bytes =
    let s = push_param (param_loop no_params param_bytes) in
    if is_empty param_bytes then ([], false) else (s.params, s.overflowed)

-- `ControlParams::new`
unfoldable pub control_params_new : Bytes → Bytes → Bytes → ℕ → ControlParams
unfolding parse_params
control_params_new private_markers param_bytes intermediates final_byte =
    let (params, params_overflowed) = parse_params param_bytes in
    record {
      private_markers = private_markers;
      param_bytes = param_bytes;
      params = params;
      params_overflowed = params_overflowed;
      intermediates = intermediates;
      final_byte = final_byte;
    }
