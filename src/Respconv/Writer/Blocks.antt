-- ===== src/Respconv/Writer/Blocks.antt =====
-- The blocks of text and thinking of internal/respconv/streaming.go.
use kirocc_prox.Base.{
  suc, ◌≡◌, refl, true, ◌||◌, arith, [], ◌∷◌, Option, none, some, String, str_eq, if_cases, if_both,
  inr,
}
use kirocc_prox.Respconv.Text.{Text}
use kirocc_prox.Respconv.Writer.{
  BlockType, thinking, text, tool_use_type, redacted_thinking, text_delta, thinking_delta,
  signature_delta, SseWriter, ensure_started, close_active_block, start_block, is_active, block_of,
  sends_signature, switch_block, write_thinking_delta, signature_to, write_signature_delta,
  fire_visible_output, write_text_delta, think_if, text_if, start_text_if,
}
use kirocc_prox.Respconv.Writer.Protocol.{
  type_of, IsLive, IsGood, ensure_started-IsLive, close_active_block-IsLive, start_block-IsLive,
  write_delta-IsLive,
}

is_active_lem : (t : BlockType) (o : Option BlockType) → is_active t o ≡ true → o ≡ some t
is_active_lem thinking (some thinking) h = refl
is_active_lem text (some text) h = refl
is_active_lem thinking none h = ground (arith, h)
is_active_lem text none h = ground (arith, h)
is_active_lem thinking (some text) h = ground (arith, h)
is_active_lem thinking (some tool_use_type) h = ground (arith, h)
is_active_lem thinking (some redacted_thinking) h = ground (arith, h)
is_active_lem text (some thinking) h = ground (arith, h)
is_active_lem text (some tool_use_type) h = ground (arith, h)
is_active_lem text (some redacted_thinking) h = ground (arith, h)
is_active_lem tool_use_type o h = ground (arith, h)
is_active_lem redacted_thinking o h = ground (arith, h)

abbrev IsIn : BlockType → SseWriter → Type 0
IsIn t s = IsLive s × (s.active_type ≡ some t)

switch_block-IsIn :
    (s : SseWriter) (t : BlockType)
    → ((signature : String) → type_of (block_of t signature) ≡ t)
    → IsLive s
    → IsIn t (switch_block s t)
unfolding switch_block
switch_block-IsIn s t same live =
    let c : SseWriter = close_active_block s in
    let (live', none_active) = close_active_block-IsLive s live in
    let d : SseWriter = record c {
      signature_sent = sends_signature t c.acc.signature c.signature_sent;
    } in
    if_cases {A = SseWriter} (IsIn t) (is_active t s.active_type) {x = s}
      {y = start_block d t (block_of t c.acc.signature)}
      (λ e. (live, is_active_lem t s.active_type e))
      (λ e. (
        start_block-IsLive d t (block_of t c.acc.signature) live' none_active
            (same c.acc.signature),
        refl,
      ))

pub write_thinking_delta-IsLive :
    (s : SseWriter) (t : Text) → IsGood s → IsLive (write_thinking_delta s t)
unfolding write_thinking_delta
write_thinking_delta-IsLive s t good =
    let (live, active) =
      switch_block-IsIn (ensure_started s) thinking (λ _. refl) (ensure_started-IsLive s good) in
    (write_delta-IsLive (switch_block (ensure_started s) thinking) thinking (thinking_delta t) live
      active refl).0

pub fire-IsLive : (s : SseWriter) → IsLive s → IsLive (fire_visible_output s)
unfolding fire_visible_output
fire-IsLive s live =
    if_both {A = SseWriter} IsLive s.visible_fired {x = s}
      {y = record s { visible_fired = true; visible = suc s.visible }} live live

write_text_delta-IsLive : (s : SseWriter) (t : Text) → IsLive s → IsLive (write_text_delta s t)
unfolding write_text_delta
write_text_delta-IsLive s t live =
    let f : SseWriter = fire_visible_output s in
    let (live', active) = switch_block-IsIn f text (λ _. refl) (fire-IsLive s live) in
    (write_delta-IsLive (switch_block f text) text (text_delta t) live' active refl).0

signature_to-IsLive :
    (s : SseWriter) (o : Option BlockType) (signature : String)
    → s.active_type ≡ o
    → IsLive s
    → IsLive (signature_to s o signature)
signature_to-IsLive s (some thinking) signature e live =
    (write_delta-IsLive s thinking (signature_delta signature) live e refl).0
signature_to-IsLive s none signature e live = live
signature_to-IsLive s (some text) signature e live = live
signature_to-IsLive s (some tool_use_type) signature e live = live
signature_to-IsLive s (some redacted_thinking) signature e live = live

pub write_signature_delta-IsGood :
    (s : SseWriter) (signature : String) → IsGood s → IsGood (write_signature_delta s signature)
unfolding write_signature_delta
write_signature_delta-IsGood s signature good =
    let t : SseWriter = ensure_started s in
    if_both {A = SseWriter} IsGood (str_eq signature "" || s.signature_sent) {x = s}
      {y = signature_to t t.active_type signature} good
      (inr (signature_to-IsLive t t.active_type signature refl (ensure_started-IsLive s good)))

pub think_if-IsGood : (s : SseWriter) (t : Text) → IsGood s → IsGood (think_if s t)
think_if-IsGood s [] good = good
think_if-IsGood s (c ∷ t) good = inr (write_thinking_delta-IsLive s (c ∷ t) good)

pub think_if-IsLive : (s : SseWriter) (t : Text) → IsLive s → IsLive (think_if s t)
think_if-IsLive s [] live = live
think_if-IsLive s (c ∷ t) live = write_thinking_delta-IsLive s (c ∷ t) (inr live)

pub text_if-IsLive : (s : SseWriter) (t : Text) → IsLive s → IsLive (text_if s t)
text_if-IsLive s [] live = live
text_if-IsLive s (c ∷ t) live = write_text_delta-IsLive s (c ∷ t) live

pub start_text_if-IsGood : (s : SseWriter) (t : Text) → IsGood s → IsGood (start_text_if s t)
start_text_if-IsGood s [] good = good
start_text_if-IsGood s (c ∷ t) good =
    inr (write_text_delta-IsLive (ensure_started s) (c ∷ t) (ensure_started-IsLive s good))
