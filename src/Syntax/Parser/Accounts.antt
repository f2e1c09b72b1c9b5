-- ===== src/Syntax/Parser/Accounts.antt =====
-- The invariant of the parser's state, and that the loop of `feed` always ends with a result that
-- accounts for the whole buffer.
use qwertty.Prelude.{
  ℕ, zero, suc, ◌+◌, ◌≤◌, ◌≡◌, refl, sym, ap, none, some, List, [], ◌∷◌, ◌++◌, append-nil,
  append_assoc, inl, inr, arith, Bytes, length, length-append, le_refl,
}
use qwertty.Syntax.Classes.{esc_byte}
use qwertty.Syntax.Parser.{
  State, ground, partial, in_string, in_paste, Fed, push_tokens, after_string, after_paste,
  after_step, feed_loop, run_buffer, feed_state,
}
use qwertty.Syntax.Paste
use qwertty.Syntax.Paste.{PasteAccum, PasteOutcome, consume_paste}
use qwertty.Syntax.Spans.{Spans-whole, Covers, Covers-append, Covers-one}
use qwertty.Syntax.Step.Sound.{Sound}
use qwertty.Syntax.Step.Whole.{step-Sound}
use qwertty.Syntax.Step.{Step, emit, need_more, enter_string, enter_paste, step}
use qwertty.Syntax.Strings
use qwertty.Syntax.Strings.{StringAccum, StringOutcome, consume_string, held_esc_buffer}
use qwertty.Syntax.Token.{SyntaxToken, as_bytes}

-- The state under a limit, and the input that it holds back.
abbrev pub Holds : ℕ → State → Bytes → Type 0
Holds limit ground input = input ≡ []
Holds limit (partial pending) input = (input ≡ pending) × (length pending ≤ limit + 3)
Holds limit (in_string a) input =
    Strings.Accounts.Stands limit a a.esc_held input × Strings.Accounts.Fits limit a
Holds limit (in_paste a) input = Paste.Accounts.Stands a input × Paste.Accounts.Fits limit a

-- A call that was given this input, pending bytes included, ends with a result; the tokens cover
-- the input up to what the state holds back.
abbrev pub FedAccounts : ℕ → Bytes → Fed → Type 0
FedAccounts limit input none = ⊥
FedAccounts limit input (some (s, ts)) =
    (x y : Bytes) × (input ≡ x ++ y) × Covers ts x × Holds limit s y

module _ (limit : ℕ) where
  push_tokens-FedAccounts :
      (ts : List SyntaxToken) (x input : Bytes) (r : Fed)
      → Covers ts x
      → FedAccounts limit input r
      → FedAccounts limit (x ++ input) (push_tokens ts r)
  push_tokens-FedAccounts ts x input none c h = h
  push_tokens-FedAccounts ts x input (some (s, us)) c (x', y, e, c', h) =
      (x ++ x', y, rw e (sym (append_assoc x x' y)), Covers-append ts us x x' c c', h)

  after_string-FedAccounts :
      (loop : Bytes → Fed) (o : StringOutcome) (input : Bytes) (n : ℕ)
      → Strings.Loop.Accounted limit input o
      → Strings.Next.next_length o ≤ n
      → ((next : Bytes) → length next ≤ n → FedAccounts limit next (loop next))
      → FedAccounts limit input (after_string loop o)
  unfolding held_esc_buffer
  after_string-FedAccounts loop (StringOutcome.exhausted a) input n h l k =
      ([], input, refl, refl, h)
  after_string-FedAccounts loop (StringOutcome.done token next) input n (s, e, t) l k =
      rw e
        (push_tokens-FedAccounts (token ∷ []) s next (loop next) (Covers-one token s t) (k next l))
  after_string-FedAccounts loop (StringOutcome.done_with_held_esc token next) input n (s, e, t) l
        k =
      let b = esc_byte ∷ next in
      rw e (push_tokens-FedAccounts (token ∷ []) s b (loop b) (Covers-one token s t) (k b l))

  after_paste-FedAccounts :
      (loop : Bytes → Fed) (o : List SyntaxToken × PasteOutcome) (input : Bytes) (n : ℕ)
      → Paste.Loop.Accounted limit input o
      → Paste.Next.next_length o ≤ n
      → ((next : Bytes) → length next ≤ n → FedAccounts limit next (loop next))
      → FedAccounts limit input (after_paste loop o)
  after_paste-FedAccounts loop (ts, PasteOutcome.exhausted a) input n (x, y, e, c, st, f) l k =
      (x, y, e, c, (st, f))
  after_paste-FedAccounts loop (ts, PasteOutcome.done next) input n (s, e, c) l k =
      rw e (push_tokens-FedAccounts ts s next (loop next) c (k next l))

  feed_loop-FedAccounts :
      (fuel : ℕ) (buffer : Bytes)
      → length buffer ≤ fuel
      → FedAccounts limit buffer (feed_loop fuel limit buffer)
  unfolding feed_loop
  feed_loop-FedAccounts fuel [] h = ([], [], refl, refl, refl)
  feed_loop-FedAccounts zero (byte ∷ rest) h = elim h [ ]
  feed_loop-FedAccounts (suc fuel) (byte ∷ rest) h =
      go (step byte rest limit) (step-Sound byte rest limit) (feed_loop-FedAccounts fuel)
    where
      go :
          (s : Step)
          → Sound limit (byte ∷ rest) s
          → ((next : Bytes)
              → length next ≤ fuel
              → FedAccounts limit next (feed_loop fuel limit next))
          → FedAccounts limit
              (byte ∷ rest)
              (after_step limit (feed_loop fuel limit) (byte ∷ rest) s)
      go (emit token next) (e, d, p) ih = rw (← e) (
          push_tokens-FedAccounts (token ∷ []) (as_bytes token) next (feed_loop fuel limit next)
            (Covers-one token (as_bytes token) (Spans-whole token d))
            (ih next (omega (arith, ap length e, length-append (as_bytes token) next))))
      go need_more k ih = ([], byte ∷ rest, refl, refl, (refl, k.0))
      go (enter_string a next) k ih =
          after_string-FedAccounts (feed_loop fuel limit) (consume_string limit a next)
            (byte ∷ rest) fuel
            (rw (← k.splits) (
              Strings.Loop.consume_string-Accounted limit a next a.retained
                (record {
                  lost = [];
                  input_eq = rw k.none_held (sym (append-nil a.retained));
                  lost_length = sym k.none_dropped;
                  full = inl k.none_dropped;
                })
                (record {
                  short_introducer = k.short_introducer;
                  introduced = k.starts;
                  bounded = k.bounded;
                })))
            (omega (
              arith,
              Strings.Next.consume_string-next_length limit a next k.none_held,
              ap length k.splits,
              length-append a.retained next,
              k.introduced,
              k.starts,
            ))
            ih
      go (enter_paste a next) k ih =
          after_paste-FedAccounts (feed_loop fuel limit) (consume_paste limit a next) (byte ∷ rest)
            fuel
            (rw (← k.splits) (
              Paste.Loop.consume_paste-Accounted limit a next a.retained
                (rw k.no_match (sym (append-nil a.retained)))
                (record {
                  short_bracket = omega arith;
                  starts = omega arith;
                  bounded = inr (omega arith);
                  short_match = rw k.no_match (omega arith);
                })))
            (omega (
              arith,
              Paste.Next.consume_paste-next_length limit a next,
              ap length k.splits,
              length-append a.retained next,
              k.advances,
            ))
            ih

  pub run_buffer-FedAccounts : (buffer : Bytes) → FedAccounts limit buffer (run_buffer limit buffer)
  unfolding run_buffer
  run_buffer-FedAccounts buffer = feed_loop-FedAccounts (length buffer) buffer (omega arith)

  pub feed_state-FedAccounts :
      (s : State) (bytes input : Bytes)
      → Holds limit s input
      → FedAccounts limit (input ++ bytes) (feed_state limit s bytes)
  unfolding feed_state
  feed_state-FedAccounts ground bytes input h = rw h (run_buffer-FedAccounts bytes)
  feed_state-FedAccounts (partial pending) bytes input h =
      rw h.0 (run_buffer-FedAccounts (pending ++ bytes))
  feed_state-FedAccounts (in_string a) bytes input h =
      after_string-FedAccounts (run_buffer limit) (consume_string limit a bytes) (input ++ bytes) _
        (Strings.Loop.consume_string-Accounted limit a bytes input h.0 h.1) (le_refl _)
        (λ next _. run_buffer-FedAccounts next)
  feed_state-FedAccounts (in_paste a) bytes input h =
      after_paste-FedAccounts (run_buffer limit) (consume_paste limit a bytes) (input ++ bytes) _
        (Paste.Loop.consume_paste-Accounted limit a bytes input h.0 h.1) (le_refl _)
        (λ next _. run_buffer-FedAccounts next)
