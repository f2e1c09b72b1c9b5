-- ===== src/Syntax/Parser/Fuel.antt =====
-- Enough fuel for the loop of `feed` is enough: more changes nothing.
use qwertty.Prelude.{
  ℕ, zero, suc, ◌≤◌, ◌≡◌, refl, ap, none, some, List, [], ◌∷◌, ◌++◌, append_assoc, arith, Bytes,
  length, length-append,
}
use qwertty.Syntax.Classes.{esc_byte}
use qwertty.Syntax.Parser.{Fed, push_tokens, after_string, after_paste, after_step, feed_loop}
use qwertty.Syntax.Paste
use qwertty.Syntax.Paste.{PasteAccum, PasteOutcome, consume_paste}
use qwertty.Syntax.Step.Sound.{Sound}
use qwertty.Syntax.Step.Whole.{step-Sound}
use qwertty.Syntax.Step.{Step, emit, need_more, enter_string, enter_paste, step}
use qwertty.Syntax.Strings
use qwertty.Syntax.Strings.{StringAccum, StringOutcome, consume_string, held_esc_buffer}
use qwertty.Syntax.Token.{SyntaxToken, as_bytes}

pub push_tokens_nil : (r : Fed) → push_tokens [] r ≡ r
push_tokens_nil none = refl
push_tokens_nil (some (s, ts)) = refl

pub push_tokens_twice :
    (ts us : List SyntaxToken) (r : Fed)
    → push_tokens ts (push_tokens us r) ≡ push_tokens (ts ++ us) r
push_tokens_twice ts us none = refl
push_tokens_twice ts us (some (s, vs)) = rw append_assoc

-- The loop may be any that agrees on buffers as long as those that parsing resumes with.
pub after_string_cong :
    (l l' : Bytes → Fed) (o : StringOutcome) (n : ℕ)
    → Strings.Next.next_length o ≤ n
    → ((r : Bytes) → length r ≤ n → l r ≡ l' r)
    → after_string l o ≡ after_string l' o
unfolding held_esc_buffer
after_string_cong l l' (StringOutcome.exhausted a) n h k = refl
after_string_cong l l' (StringOutcome.done token next) n h k = rw (k next h)
after_string_cong l l' (StringOutcome.done_with_held_esc token next) n h k =
    rw (k (esc_byte ∷ next) h)

pub after_paste_cong :
    (l l' : Bytes → Fed) (o : List SyntaxToken × PasteOutcome) (n : ℕ)
    → Paste.Next.next_length o ≤ n
    → ((r : Bytes) → length r ≤ n → l r ≡ l' r)
    → after_paste l o ≡ after_paste l' o
after_paste_cong l l' (ts, PasteOutcome.exhausted a) n h k = refl
after_paste_cong l l' (ts, PasteOutcome.done next) n h k = rw (k next h)

pub after_string-normal :
    (l : Bytes → Fed) (o : StringOutcome)
    → after_string l o ≡ after_string l (Strings.Split.normal o)
unfolding held_esc_buffer
after_string-normal l (StringOutcome.exhausted a) = refl
after_string-normal l (StringOutcome.done token next) = refl
after_string-normal l (StringOutcome.done_with_held_esc token next) = refl

pub next_length-normal :
    (o : StringOutcome)
    → Strings.Next.next_length (Strings.Split.normal o) ≡ Strings.Next.next_length o
next_length-normal (StringOutcome.exhausted a) = refl
next_length-normal (StringOutcome.done token next) = refl
next_length-normal (StringOutcome.done_with_held_esc token next) = refl

module _ (limit byte : ℕ) (rest : Bytes) where
  -- After a step the loop is only called on buffers shorter than the present one.
  after_step_cong :
      (l l' : Bytes → Fed) (s : Step)
      → Sound limit (byte ∷ rest) s
      → ((r : Bytes) → length r ≤ length rest → l r ≡ l' r)
      → after_step limit l (byte ∷ rest) s ≡ after_step limit l' (byte ∷ rest) s
  after_step_cong l l' (emit token next) (e, d, p) same =
      rw (same next (omega (arith, ap length e, length-append (as_bytes token) next)))
  after_step_cong l l' need_more s same = refl
  after_step_cong l l' (enter_string a next) s same =
      after_string_cong l l' (consume_string limit a next) (length rest)
        (omega (
          arith,
          Strings.Next.consume_string-next_length limit a next s.none_held,
          ap length s.splits,
          length-append a.retained next,
          s.introduced,
          s.starts,
        ))
        same
  after_step_cong l l' (enter_paste a next) s same =
      after_paste_cong l l' (consume_paste limit a next) (length rest)
        (omega (
          arith,
          Paste.Next.consume_paste-next_length limit a next,
          ap length s.splits,
          length-append a.retained next,
          s.advances,
        ))
        same

-- Fuel for every byte is enough: more changes nothing.
pub feed_loop_fuel :
    (limit f g : ℕ) (buffer : Bytes)
    → length buffer ≤ f
    → length buffer ≤ g
    → feed_loop f limit buffer ≡ feed_loop g limit buffer
unfolding feed_loop
feed_loop_fuel limit f g [] h k = refl
feed_loop_fuel limit zero g (byte ∷ rest) h k = elim h [ ]
feed_loop_fuel limit (suc f) zero (byte ∷ rest) h k = elim k [ ]
feed_loop_fuel limit (suc f) (suc g) (byte ∷ rest) h k =
    after_step_cong limit byte rest (feed_loop f limit) (feed_loop g limit) (step byte rest limit)
      (step-Sound byte rest limit) (λ r l. feed_loop_fuel limit f g r (omega arith) (omega arith))
