-- ===== src/Commands/Sanitized.antt =====
-- Titles and hyperlinks in their sequences (src/commands/osc.rs).
use qwertty.Prelude.{
  all-take, all-append, ap, ◌∙◌, subst, ◌||◌, Bool-cases, inl, inr, if◌then◌else◌, ℕ, ◌≤◌, ◌≡◌,
  refl, Bool, true, false, not, ◌&&◌, Option, none, some, List, [], ◌∷◌, ◌++◌, Bytes, all, length,
  length-take, leb, ◌==◌, arith, codes,
}
use qwertty.Commands.{encode, osc}
use qwertty.Commands.Osc.{
  is_control_char, is_blocked_title_char, without, sanitize_title, title_max_chars, str_bytes,
  set_title, sanitize_uri_component, hyperlink, hyperlink_params,
}
use qwertty.Commands.Payloads.{is_payload_byte, osc_token, run_buffer-osc_token}
use qwertty.Input.Characters.{encode_utf8}
use qwertty.Syntax.Parser.{push_tokens, run_buffer}

-- A sanitized list keeps no blocked character.
all-without :
    (blocked : ℕ → Bool) (cs : List ℕ) → all (λ c. not (blocked c)) (without blocked cs) ≡ true
unfolding without
all-without blocked [] = refl
all-without blocked (c ∷ cs) = ground (arith, all-without blocked cs)

-- A title has at most 240 characters, none of them blocked.
pub sanitize_title_lem :
    (title : List ℕ)
    → (all (λ c. not (is_blocked_title_char c)) (sanitize_title title) ≡ true)
      × (length (sanitize_title title) ≤ 240)
unfolding sanitize_title
sanitize_title_lem title = (
  all-take (λ c. not (is_blocked_title_char c)) title_max_chars
      (without is_blocked_title_char title) (all-without is_blocked_title_char title),
  omega (arith, length-take title_max_chars (without is_blocked_title_char title)),
)

-- A byte that no UTF-8 encoding of a character without controls has, but for 0x9c.
abbrev is_inner_byte : ℕ → Bool
is_inner_byte byte = leb 0x20 byte && not (byte == 0x7f)

encoded_inner : (c : ℕ) → is_control_char c ≡ false → all is_inner_byte (encode_utf8 c) ≡ true
unfolding encode_utf8 is_control_char
encoded_inner c h = ground arith

bytes_inner :
    (cs : List ℕ)
    → all (λ c. not (is_control_char c)) cs ≡ true
    → all is_inner_byte (str_bytes cs) ≡ true
unfolding str_bytes
bytes_inner [] h = refl
bytes_inner (c ∷ cs) h =
    all-append is_inner_byte (encode_utf8 c) (str_bytes cs) (encoded_inner c (ground arith))
      (bytes_inner cs (ground arith))

-- No byte of the payload is the single-byte string terminator.
unfoldable pub lacks_st : Bytes → Bool
lacks_st bytes = all (λ byte. not (byte == 0x9c)) bytes

inner_payload :
    (bytes : Bytes)
    → all is_inner_byte bytes ≡ true
    → lacks_st bytes ≡ true
    → all is_payload_byte bytes ≡ true
unfolding lacks_st is_payload_byte
inner_payload [] h k = refl
inner_payload (byte ∷ bytes) h k = ground (arith, inner_payload bytes)

abbrev pub title_payload : List ℕ → Bytes
title_payload title = codes "2;" ++ str_bytes (sanitize_title title)

controls_blocked :
    (cs : List ℕ)
    → all (λ c. not (is_blocked_title_char c)) cs ≡ true
    → all (λ c. not (is_control_char c)) cs ≡ true
unfolding is_blocked_title_char
controls_blocked [] h = refl
controls_blocked (c ∷ cs) h = ground (arith, controls_blocked cs)

-- Setting a title whose sanitized payload is within the limit and lacks the byte 0x9c writes one OSC
-- token with that payload, and what is written behind it is parsed as if it stood alone.
pub run_buffer-set_title :
    (limit : ℕ) (title : List ℕ)
    → length (title_payload title) ≤ limit
    → lacks_st (title_payload title) ≡ true
    → (rest : Bytes)
    → run_buffer limit (encode (set_title title) [] ++ rest)
      ≡ push_tokens (osc_token (title_payload title) ∷ []) (run_buffer limit rest)
unfolding set_title osc
run_buffer-set_title limit title fits plain rest =
    run_buffer-osc_token limit (title_payload title) rest
      (inner_payload (title_payload title)
        (bytes_inner (sanitize_title title)
          (controls_blocked (sanitize_title title) (sanitize_title_lem title).0))
        plain)
      fits

abbrev pub link_payload : List ℕ → Option (List ℕ) → Bytes
link_payload uri id =
    codes "8;" ++ hyperlink_params id ++ b';' ∷ str_bytes (sanitize_uri_component uri)

params_inner : (id : Option (List ℕ)) → all is_inner_byte (hyperlink_params id) ≡ true
unfolding hyperlink_params sanitize_uri_component
params_inner none = refl
params_inner (some id) = bytes_inner (without is_control_char id) (all-without is_control_char id)

link_inner : (uri : List ℕ) (id : Option (List ℕ)) → all is_inner_byte (link_payload uri id) ≡ true
unfolding sanitize_uri_component
link_inner uri id =
    all-append is_inner_byte (codes "8;" ++ hyperlink_params id)
      (b';' ∷ str_bytes (sanitize_uri_component uri)) (params_inner id)
      (bytes_inner (without is_control_char uri) (all-without is_control_char uri))

-- The characters that may not be shown in a target: those below 0x20 and those from 0x7f to 0x9f.
unfoldable pub is_hidden : ℕ → Bool
is_hidden c = leb c 0x1f || (leb 0x7f c && leb c 0x9f)

abbrev pub shown : List ℕ → List ℕ
shown [] = []
shown (c ∷ cs) = if is_hidden c then shown cs else c ∷ shown cs

abbrev pub shown_id : Option (List ℕ) → Bytes
shown_id none = []
shown_id (some id) = codes "id=" ++ str_bytes (shown id)

-- The characters of a text are hidden, or written without the byte 0x9c, as all of ASCII is.
unfoldable pub is_plain : List ℕ → Bool
is_plain cs = all (λ c. is_hidden c || lacks_st (encode_utf8 c)) cs

abbrev pub is_plain_id : Option (List ℕ) → Bool
is_plain_id none = true
is_plain_id (some id) = is_plain id

without-shown : (cs : List ℕ) → without is_control_char cs ≡ shown cs
unfolding without is_control_char is_hidden
without-shown [] = refl
without-shown (c ∷ cs) = ground (arith, without-shown cs)

shown-lacks_st : (cs : List ℕ) → is_plain cs ≡ true → lacks_st (str_bytes (shown cs)) ≡ true
unfolding is_plain lacks_st str_bytes
shown-lacks_st [] h = refl
shown-lacks_st (c ∷ cs) h = elim (Bool-cases (is_hidden c)) [
  | inl hidden ↦ rw hidden (shown-lacks_st cs (ground arith))
  | inr seen ↦ rw seen (
      all-append (λ byte. not (byte == 0x9c)) (encode_utf8 c) (str_bytes (shown cs))
        (unfold lacks_st in ground arith) (shown-lacks_st cs (ground arith)))
]

-- The payload of a hyperlink with the hidden characters gone.
abbrev pub shown_link : List ℕ → Option (List ℕ) → Bytes
shown_link uri id = codes "8;" ++ shown_id id ++ b';' ∷ str_bytes (shown uri)

id-shown : (id : Option (List ℕ)) → hyperlink_params id ≡ shown_id id
unfolding hyperlink_params sanitize_uri_component
id-shown none = refl
id-shown (some id) = ap (λ cs. codes "id=" ++ str_bytes cs) (without-shown id)

link-shown : (uri : List ℕ) (id : Option (List ℕ)) → link_payload uri id ≡ shown_link uri id
unfolding sanitize_uri_component
link-shown uri id =
    ap (λ p. codes "8;" ++ p ++ b';' ∷ str_bytes (without is_control_char uri)) (id-shown id)
    ∙ ap (λ cs. codes "8;" ++ shown_id id ++ b';' ∷ str_bytes cs) (without-shown uri)

id-lacks_st : (id : Option (List ℕ)) → is_plain_id id ≡ true → lacks_st (shown_id id) ≡ true
unfolding lacks_st
id-lacks_st none h = refl
id-lacks_st (some id) h = unfold lacks_st in shown-lacks_st id h

link-lacks_st :
    (uri : List ℕ) (id : Option (List ℕ))
    → is_plain uri ≡ true
    → is_plain_id id ≡ true
    → lacks_st (shown_link uri id) ≡ true
unfolding lacks_st
link-lacks_st uri id h k =
    all-append (λ byte. not (byte == 0x9c)) (codes "8;" ++ shown_id id)
      (b';' ∷ str_bytes (shown uri)) (id-lacks_st id k) (shown-lacks_st uri h)

-- A hyperlink writes one OSC token, whose payload is the target and the id with the characters below
-- 0x20 and from 0x7f to 0x9f gone and all others kept, and what is written behind it is parsed as if
-- it stood alone. The payload is within the limit, and no character of the target and the id but
-- those has the byte 0x9c in its UTF-8.
pub run_buffer-hyperlink :
    (limit : ℕ) (uri : List ℕ) (id : Option (List ℕ))
    → length (shown_link uri id) ≤ limit
    → is_plain uri ≡ true
    → is_plain_id id ≡ true
    → (rest : Bytes)
    → run_buffer limit (encode (hyperlink uri id) [] ++ rest)
      ≡ push_tokens (osc_token (shown_link uri id) ∷ []) (run_buffer limit rest)
unfolding hyperlink osc
run_buffer-hyperlink limit uri id fits plain plain_id rest =
    let same = link-shown uri id in
    ap (λ p. run_buffer limit (encode (osc p) [] ++ rest)) same
    ∙ run_buffer-osc_token limit (shown_link uri id) rest
        (inner_payload (shown_link uri id)
          (subst (λ p. all is_inner_byte p ≡ true) same (link_inner uri id))
          (link-lacks_st uri id plain plain_id))
        fits
