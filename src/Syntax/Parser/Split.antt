-- ===== src/Syntax/Parser/Split.antt =====
-- Feeding two chunks in turn is the same as feeding them joined: the same tokens, and the same
-- state at the end.
use qwertty.Prelude.{
  ℕ, zero, suc, ◌+◌, ◌≤◌, ◌≡◌, ◌≢◌, refl, false, sym, ap, ◌∙◌, none, some, List, [], ◌∷◌, ◌++◌,
  append_assoc, ◌⊎◌, inl, inr, arith, Bytes, length, length-append, le_refl,
}
use qwertty.Syntax.Classes.{esc_byte}
use qwertty.Syntax.Parser.Fuel.{
  push_tokens_nil, push_tokens_twice, after_string_cong, after_paste_cong, after_string-normal,
  next_length-normal, feed_loop_fuel,
}
use qwertty.Syntax.Parser.{
  State, partial, in_string, in_paste, Fed, push_tokens, after_string, after_paste, after_step,
  feed_loop, run_buffer, feed_state,
}
use qwertty.Syntax.Paste
use qwertty.Syntax.Paste.{PasteAccum, PasteOutcome, consume_paste}
use qwertty.Syntax.Step.Extend.{extend, IsStable}
use qwertty.Syntax.Step.Sound.{Sound}
use qwertty.Syntax.Step.Stable.{step-extend}
use qwertty.Syntax.Step.Whole.{step-Sound}
use qwertty.Syntax.Step.{Step, emit, need_more, enter_string, enter_paste, step}
use qwertty.Syntax.Strings
use qwertty.Syntax.Strings.{StringAccum, StringOutcome, consume_string, held_esc_buffer}
use qwertty.Syntax.Token.{SyntaxToken, as_bytes}

-- How a call goes on when the next chunk is fed.
abbrev pub then_feed : ℕ → Bytes → Fed → Fed
then_feed limit more none = none
then_feed limit more (some (s, ts)) = push_tokens ts (feed_state limit s more)

wants_cases : (s : Step) → (s ≡ need_more) ⊎ (s ≢ need_more)
wants_cases (emit token next) = inr (λ e. cc)
wants_cases need_more = inl refl
wants_cases (enter_string a next) = inr (λ e. cc)
wants_cases (enter_paste a next) = inr (λ e. cc)

extended : (s s' : Step) (more : Bytes) → s ≢ need_more → IsStable s s' more → s' ≡ extend s more
extended s s' more ne (inl wants) = absurd (ne wants)
extended s s' more ne (inr same) = same

module _ (limit : ℕ) (more : Bytes) where
  then_feed-push_tokens :
      (ts : List SyntaxToken) (r : Fed)
      → push_tokens ts (then_feed limit more r) ≡ then_feed limit more (push_tokens ts r)
  then_feed-push_tokens ts none = refl
  then_feed-push_tokens ts (some (s, us)) = push_tokens_twice ts us (feed_state limit s more)

  after_string-append :
      (l l' : Bytes → Fed) (o : StringOutcome) (n k : ℕ)
      → Strings.Next.next_length o ≤ k
      → Strings.Next.next_length (Strings.Split.continue limit more o) ≤ n
      → ((r : Bytes)
          → length r ≤ k
          → length (r ++ more) ≤ n
          → l (r ++ more) ≡ then_feed limit more (l' r))
      → ((r : Bytes) → length r ≤ n → l r ≡ run_buffer limit r)
      → after_string l (Strings.Split.continue limit more o)
        ≡ then_feed limit more (after_string l' o)
  unfolding feed_state held_esc_buffer
  after_string-append l l' (StringOutcome.exhausted a) n k h j next same =
      after_string_cong l (run_buffer limit) _ n j same
      ∙ sym (after_string-normal (run_buffer limit) (consume_string limit a more))
      ∙ sym (push_tokens_nil _)
  after_string-append l l' (StringOutcome.done token r) n k h j next same =
      rw (next r h j) (then_feed-push_tokens (token ∷ []) (l' r))
  after_string-append l l' (StringOutcome.done_with_held_esc token r) n k h j next same =
      rw (next (esc_byte ∷ r) h j) (then_feed-push_tokens (token ∷ []) (l' (esc_byte ∷ r)))

  after_paste-push :
      (l : Bytes → Fed) (ts : List SyntaxToken) (r : List SyntaxToken × PasteOutcome)
      → after_paste l (Paste.push_before ts r) ≡ push_tokens ts (after_paste l r)
  after_paste-push l ts (us, PasteOutcome.exhausted a) = refl
  after_paste-push l ts (us, PasteOutcome.done next) = sym (push_tokens_twice ts us (l next))

  after_paste-append :
      (l l' : Bytes → Fed) (o : List SyntaxToken × PasteOutcome) (n k : ℕ)
      → Paste.Next.next_length o ≤ k
      → Paste.Next.next_length (Paste.Split.continue limit more o) ≤ n
      → ((r : Bytes)
          → length r ≤ k
          → length (r ++ more) ≤ n
          → l (r ++ more) ≡ then_feed limit more (l' r))
      → ((r : Bytes) → length r ≤ n → l r ≡ run_buffer limit r)
      → after_paste l (Paste.Split.continue limit more o) ≡ then_feed limit more (after_paste l' o)
  unfolding feed_state
  after_paste-append l l' (ts, PasteOutcome.exhausted a) n k h j next same =
      after_paste_cong l (run_buffer limit) _ n j same
      ∙ after_paste-push (run_buffer limit) ts (consume_paste limit a more)
  after_paste-append l l' (ts, PasteOutcome.done r) n k h j next same =
      rw (next r h j) (then_feed-push_tokens ts (l' r))

  loop-run_buffer : (f : ℕ) (b : Bytes) → length b ≤ f → feed_loop f limit b ≡ run_buffer limit b
  unfolding run_buffer
  loop-run_buffer f b h = feed_loop_fuel limit f (length b) b h (le_refl _)

  string_lengths :
      (a : StringAccum) (next : Bytes)
      → a.esc_held ≡ false
      → Strings.Next.next_length (Strings.Split.continue limit more (consume_string limit a next))
        ≤ length next + length more
  string_lengths a next e =
      rw (← Strings.Split.consume_string-append limit more a next, next_length-normal)
        (omega (
          arith,
          Strings.Next.consume_string-next_length limit a (next ++ more) e,
          length-append next more,
        ))

  paste_lengths :
      (a : PasteAccum) (next : Bytes)
      → Paste.Next.next_length (Paste.Split.continue limit more (consume_paste limit a next))
        ≤ length next + length more
  paste_lengths a next = rw (← Paste.Split.consume_paste-append limit more a next) (
      omega (
        arith,
        Paste.Next.consume_paste-next_length limit a (next ++ more),
        length-append next more,
      ))

  -- A step that asked for nothing, with the further bytes behind what it leaves.
  after_step-extend :
      (byte : ℕ) (rest : Bytes) (l l' : Bytes → Fed) (s : Step)
      → Sound limit (byte ∷ rest) s
      → s ≢ need_more
      → ((r : Bytes) → length r ≤ length rest → l (r ++ more) ≡ then_feed limit more (l' r))
      → ((r : Bytes) → length r ≤ length rest + length more → l r ≡ run_buffer limit r)
      → after_step limit l (byte ∷ (rest ++ more)) (extend s more)
        ≡ then_feed limit more (after_step limit l' (byte ∷ rest) s)
  after_step-extend byte rest l l' (emit token next) (e, d, p) ne shorter same =
      rw (shorter next (omega (arith, ap length e, length-append (as_bytes token) next)))
        (then_feed-push_tokens (token ∷ []) (l' next))
  after_step-extend byte rest l l' need_more s ne shorter same = absurd (ne refl)
  after_step-extend byte rest l l' (enter_string a next) s ne shorter same =
      let size : length next ≤ length rest =
        omega (arith, ap length s.splits, length-append a.retained next, s.introduced, s.starts) in
      after_string-normal l (consume_string limit a (next ++ more))
      ∙ ap (after_string l) (Strings.Split.consume_string-append limit more a next)
      ∙ after_string-append l l' (consume_string limit a next) (length rest + length more)
          (length rest)
          (omega (arith, Strings.Next.consume_string-next_length limit a next s.none_held))
          (omega (arith, string_lengths a next s.none_held)) (λ r h _. shorter r h) same
  after_step-extend byte rest l l' (enter_paste a next) s ne shorter same =
      let size : length next ≤ length rest =
        omega (arith, ap length s.splits, length-append a.retained next, s.advances) in
      ap (after_paste l) (Paste.Split.consume_paste-append limit more a next)
      ∙ after_paste-append l l' (consume_paste limit a next) (length rest + length more)
          (length rest) (omega (arith, Paste.Next.consume_paste-next_length limit a next))
          (omega (arith, paste_lengths a next)) (λ r h _. shorter r h) same

  feed_loop-append :
      (f g : ℕ) (buffer : Bytes)
      → length buffer ≤ g
      → length buffer + length more ≤ f
      → feed_loop f limit (buffer ++ more) ≡ then_feed limit more (feed_loop g limit buffer)
  unfolding feed_loop feed_state
  feed_loop-append f g [] h k = loop-run_buffer f more (omega arith) ∙ sym (push_tokens_nil _)
  feed_loop-append f zero (byte ∷ rest) h k = elim h [ ]
  feed_loop-append zero (suc g) (byte ∷ rest) h k = absurd (omega arith)
  feed_loop-append (suc f) (suc g) (byte ∷ rest) h k = elim (wants_cases (step byte rest limit)) [
    | inl wants ↦
        loop-run_buffer (suc f) (byte ∷ (rest ++ more)) (omega (arith, length-append rest more))
        ∙ sym (push_tokens_nil _)
        ∙ ap (λ s. then_feed limit more (after_step limit (feed_loop g limit) (byte ∷ rest) s))
            (sym wants)
    | inr ne ↦
        ap (after_step limit (feed_loop f limit) (byte ∷ (rest ++ more)))
          (extended _ _ more ne (step-extend byte rest more limit))
        ∙ after_step-extend byte rest (feed_loop f limit) (feed_loop g limit) (step byte rest limit)
            (step-Sound byte rest limit) ne
            (λ r l. feed_loop-append f g r (omega arith) (omega arith))
            (λ r l. loop-run_buffer f r (omega arith))
  ]

  run_buffer-append :
      (buffer : Bytes)
      → run_buffer limit (buffer ++ more) ≡ then_feed limit more (run_buffer limit buffer)
  unfolding run_buffer
  run_buffer-append buffer =
      feed_loop-append _ _ buffer (le_refl _) (omega (arith, length-append buffer more))

  -- No invariant of the state is needed.
  pub feed_state-append :
      (s : State) (bytes : Bytes)
      → feed_state limit s (bytes ++ more) ≡ then_feed limit more (feed_state limit s bytes)
  unfolding feed_state
  feed_state-append State.ground bytes = run_buffer-append bytes
  feed_state-append (partial pending) bytes =
      rw (← append_assoc) (run_buffer-append (pending ++ bytes))
  feed_state-append (in_string a) bytes =
      after_string-normal (run_buffer limit) (consume_string limit a (bytes ++ more))
      ∙ ap (after_string (run_buffer limit))
          (Strings.Split.consume_string-append limit more a bytes)
      ∙ after_string-append (run_buffer limit) (run_buffer limit) (consume_string limit a bytes) _ _
          (le_refl _) (le_refl _) (λ r _ _. run_buffer-append r) (λ r _. refl)
  feed_state-append (in_paste a) bytes =
      ap (after_paste (run_buffer limit)) (Paste.Split.consume_paste-append limit more a bytes)
      ∙ after_paste-append (run_buffer limit) (run_buffer limit) (consume_paste limit a bytes) _ _
          (le_refl _) (le_refl _) (λ r _ _. run_buffer-append r) (λ r _. refl)
