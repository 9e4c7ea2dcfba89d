-- ===== src/Respconv/Writer/Content.antt =====
-- The text and the thinking in what internal/respconv/streaming.go sends.
use kirocc_prox.Base.{
  suc, ◌≡◌, refl, sym, ap, subst, ◌∙◌, true, ◌||◌, List, [], ◌∷◌, ◌++◌, Option, none, some, String,
  str_eq, if_both, append_nil, append_assoc,
}
use kirocc_prox.Respconv.Text.{Text}
use kirocc_prox.Respconv.Writer.{
  Block, BlockType, thinking, text, tool_use_type, redacted_thinking, Delta, text_delta,
  thinking_delta, signature_delta, Sse, message_start, content_block_start, content_block_delta,
  content_block_stop, SseWriter, write_sse, next_index, ensure_started, close_of,
  close_active_block, start_block, is_active, block_of, sends_signature, switch_block, write_delta,
  write_thinking_delta, signature_to, write_signature_delta, fire_visible_output, write_text_delta,
}

abbrev pub text_of : Sse → Text
text_of (content_block_delta i (text_delta t)) = t
text_of _ = []

abbrev pub thinking_of : Sse → Text
thinking_of (content_block_delta i (thinking_delta t)) = t
thinking_of _ = []

-- The text, or the thinking, that a client reads.
unfoldable pub sent_text : List Sse → Text
sent_text [] = []
sent_text (x ∷ xs) = text_of x ++ sent_text xs

unfoldable pub sent_thinking : List Sse → Text
sent_thinking [] = []
sent_thinking (x ∷ xs) = thinking_of x ++ sent_thinking xs

sent_text-snoc : (xs : List Sse) (x : Sse) → sent_text (xs ++ x ∷ []) ≡ sent_text xs ++ text_of x
unfolding sent_text
sent_text-snoc [] x = append_nil (text_of x)
sent_text-snoc (y ∷ xs) x =
    ap (λ u. text_of y ++ u) (sent_text-snoc xs x)
    ∙ sym (append_assoc (text_of y) (sent_text xs) (text_of x))

sent_thinking-snoc :
    (xs : List Sse) (x : Sse) → sent_thinking (xs ++ x ∷ []) ≡ sent_thinking xs ++ thinking_of x
unfolding sent_thinking
sent_thinking-snoc [] x = append_nil (thinking_of x)
sent_thinking-snoc (y ∷ xs) x =
    ap (λ u. thinking_of y ++ u) (sent_thinking-snoc xs x)
    ∙ sym (append_assoc (thinking_of y) (sent_thinking xs) (thinking_of x))

-- From s to t, with the same accumulator, this text and this thinking are sent.
abbrev pub Sends : SseWriter → SseWriter → Text → Text → Type 0
Sends s t u k =
    (sent_text t.sent ≡ sent_text s.sent ++ u)
    × (sent_thinking t.sent ≡ sent_thinking s.sent ++ k)
    × (t.acc ≡ s.acc)

pub Sends-none : (s : SseWriter) → Sends s s [] []
Sends-none s = (sym (append_nil (sent_text s.sent)), sym (append_nil (sent_thinking s.sent)), refl)

pub Sends-trans :
    (s t v : SseWriter) (u k u' k' : Text)
    → Sends s t u k
    → Sends t v u' k'
    → Sends s v (u ++ u') (k ++ k')
Sends-trans s t v u k u' k' (a, b, c) (a', b', c') = (
  a' ∙ ap (λ w. w ++ u') a ∙ append_assoc (sent_text s.sent) u u',
  b' ∙ ap (λ w. w ++ k') b ∙ append_assoc (sent_thinking s.sent) k k',
  c' ∙ c,
)

-- Quiet steps around one that sends.
pub after_quiet : (s t v : SseWriter) (u k : Text) → Sends s t [] [] → Sends t v u k → Sends s v u k
after_quiet s t v u k h h' = Sends-trans s t v [] [] u k h h'

pub then_quiet : (s t v : SseWriter) (u k : Text) → Sends s t u k → Sends t v [] [] → Sends s v u k
then_quiet s t v u k h h' =
    subst (λ w. Sends s v w k) (append_nil u)
      (subst (λ w. Sends s v (u ++ []) w) (append_nil k) (Sends-trans s t v u k [] [] h h'))

pub write_sse-Sends :
    (s t : SseWriter) (x : Sse)
    → t.sent ≡ s.sent
    → t.acc ≡ s.acc
    → Sends s (write_sse t x) (text_of x) (thinking_of x)
write_sse-Sends s t x same acc = (
  sent_text-snoc t.sent x ∙ ap (λ xs. sent_text xs ++ text_of x) same,
  sent_thinking-snoc t.sent x ∙ ap (λ xs. sent_thinking xs ++ thinking_of x) same,
  acc,
)

pub ensure_started-Sends : (s : SseWriter) → Sends s (ensure_started s) [] []
unfolding ensure_started
ensure_started-Sends s =
    let t : SseWriter = record s { started = true } in
    if_both {A = SseWriter} (λ v. Sends s v [] []) s.started {x = s} {y = write_sse t message_start}
      (Sends-none s) (write_sse-Sends s t message_start refl refl)

pub close_active_block-Sends : (s : SseWriter) → Sends s (close_active_block s) [] []
unfolding close_active_block
close_active_block-Sends s = by_type s.active_type
  where
    by_type : (t : Option BlockType) → Sends s (close_of s t) [] []
    by_type none = Sends-none s
    by_type (some t) =
        write_sse-Sends s (record s { active_type = none }) (content_block_stop s.block_index) refl
          refl

pub start_block-Sends :
    (s : SseWriter) (t : BlockType) (block : Block) → Sends s (start_block s t block) [] []
start_block-Sends s t block =
    write_sse-Sends s (record s { block_index = next_index s.block_index; active_type = some t })
      (content_block_start (next_index s.block_index) block) refl refl

switch_block-Sends : (s : SseWriter) (t : BlockType) → Sends s (switch_block s t) [] []
unfolding switch_block
switch_block-Sends s t =
    let c : SseWriter = close_active_block s in
    let d : SseWriter = record c {
      signature_sent = sends_signature t c.acc.signature c.signature_sent;
    } in
    let v : SseWriter = start_block d t (block_of t c.acc.signature) in
    if_both {A = SseWriter} (λ w. Sends s w [] []) (is_active t s.active_type) {x = s} {y = v}
      (Sends-none s)
      (after_quiet s c v [] [] (close_active_block-Sends s)
        (start_block-Sends d t (block_of t c.acc.signature)))

pub write_delta-Sends :
    (s : SseWriter) (d : Delta)
    → Sends s
        (write_delta s d)
        (text_of (content_block_delta s.block_index d))
        (thinking_of (content_block_delta s.block_index d))
write_delta-Sends s d = write_sse-Sends s s (content_block_delta s.block_index d) refl refl

pub write_thinking_delta-Sends :
    (s : SseWriter) (t : Text) → Sends s (write_thinking_delta s t) [] t
unfolding write_thinking_delta
write_thinking_delta-Sends s t =
    let e : SseWriter = ensure_started s in
    let b : SseWriter = switch_block e thinking in
    after_quiet s e (write_delta b (thinking_delta t)) [] t (ensure_started-Sends s) (
      after_quiet e b (write_delta b (thinking_delta t)) [] t (switch_block-Sends e thinking)
        (write_delta-Sends b (thinking_delta t)))

pub fire-Sends : (s : SseWriter) → Sends s (fire_visible_output s) [] []
unfolding fire_visible_output
fire-Sends s =
    if_both {A = SseWriter} (λ w. Sends s w [] []) s.visible_fired {x = s}
      {y = record s { visible_fired = true; visible = suc s.visible }} (Sends-none s) (Sends-none s)

pub write_text_delta-Sends : (s : SseWriter) (t : Text) → Sends s (write_text_delta s t) t []
unfolding write_text_delta
write_text_delta-Sends s t =
    let e : SseWriter = fire_visible_output s in
    let b : SseWriter = switch_block e text in
    after_quiet s e (write_delta b (text_delta t)) t [] (fire-Sends s) (
      after_quiet e b (write_delta b (text_delta t)) t [] (switch_block-Sends e text)
        (write_delta-Sends b (text_delta t)))

pub write_signature_delta-Sends :
    (s : SseWriter) (signature : String) → Sends s (write_signature_delta s signature) [] []
unfolding write_signature_delta
write_signature_delta-Sends s signature =
    let t : SseWriter = ensure_started s in
    if_both {A = SseWriter} (λ w. Sends s w [] []) (str_eq signature "" || s.signature_sent) {x = s}
      {y = signature_to t t.active_type signature} (Sends-none s)
      (after_quiet s t (signature_to t t.active_type signature) [] [] (ensure_started-Sends s)
        (by_type t t.active_type))
  where
    by_type : (t : SseWriter) (o : Option BlockType) → Sends t (signature_to t o signature) [] []
    by_type t (some thinking) = write_delta-Sends t (signature_delta signature)
    by_type t none = Sends-none t
    by_type t (some text) = Sends-none t
    by_type t (some tool_use_type) = Sends-none t
    by_type t (some redacted_thinking) = Sends-none t
