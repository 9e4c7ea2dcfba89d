-- ===== src/Respconv/Writer/Protocol.antt =====
-- The order of the server-sent events of internal/respconv/streaming.go.
use kirocc_prox.Base.{
  ◌≡◌, refl, sym, ap, ap₂, ◌∙◌, Bool, true, false, arith, List, [], ◌∷◌, ◌++◌, Option, none, some,
  if◌then◌else◌, if_cases, ℤ, pos, negsuc, eq_ℤ, ◌⊎◌, inl, inr,
}
use kirocc_prox.Respconv.Writer.{
  Block, thinking_block, text_block, tool_use_block, redacted_thinking_block, BlockType, thinking,
  text, tool_use_type, redacted_thinking, Delta, text_delta, thinking_delta, signature_delta,
  input_json_delta, Sse, message_start, content_block_start, content_block_delta,
  content_block_stop, message_delta, message_stop, error, SseWriter, write_sse, next_index,
  ensure_started, close_of, close_active_block, start_block, write_delta,
}

-- How far a client is that reads a message: before its start, between blocks after the one with an index,
-- in a block, before the end, and after it.
pub data Phase : Type 0 where
  waiting : Phase
  between : ℤ → Phase
  inside : ℤ → BlockType → Phase
  ending : Phase
  over : Phase

abbrev pub type_of : Block → BlockType
type_of (thinking_block signature) = thinking
type_of text_block = text
type_of (tool_use_block id name) = tool_use_type
type_of (redacted_thinking_block data_) = redacted_thinking

abbrev pub fits : BlockType → Delta → Bool
fits text (text_delta t) = true
fits thinking (thinking_delta t) = true
fits thinking (signature_delta s) = true
fits tool_use_type (input_json_delta t) = true
fits _ _ = false

abbrev pub allow : Bool → Phase → Option Phase
allow true p = some p
allow false p = none

-- The protocol: a message starts once, blocks are numbered in order and do not overlap, a delta has the
-- index and the type of the open block, and the message ends, or breaks off with an error, only between
-- blocks. Anything else is refused.
abbrev pub read : Phase → Sse → Option Phase
read waiting message_start = some (between (negsuc 0))
read (between i) (content_block_start j block) =
    allow (eq_ℤ j (next_index i)) (inside j (type_of block))
read (between i) (message_delta reason sequence) = some ending
read (between i) (error err_type message) = some over
read (inside i t) (content_block_delta j d) =
    if fits t d then allow (eq_ℤ j i) (inside i t) else none
read (inside i t) (content_block_stop j) = allow (eq_ℤ j i) (between i)
read ending message_stop = some over
read _ _ = none

abbrev pub read_on : Option Phase → Sse → Option Phase
read_on none x = none
read_on (some p) x = read p x

unfoldable pub read_all : Option Phase → List Sse → Option Phase
read_all p [] = p
read_all p (x ∷ xs) = read_all (read_on p x) xs

read_all-snoc :
    (p : Option Phase) (xs : List Sse) (x : Sse)
    → read_all p (xs ++ x ∷ []) ≡ read_on (read_all p xs) x
unfolding read_all
read_all-snoc p [] x = refl
read_all-snoc p (y ∷ xs) x = read_all-snoc (read_on p y) xs x

-- The phase of a client that has read all that was sent.
abbrev pub phase : SseWriter → Option Phase
phase s = read_all (some waiting) s.sent

abbrev pub open_phase : ℤ → Option BlockType → Phase
open_phase i none = between i
open_phase i (some t) = inside i t

-- A message that has not been started, or one that is going on.
abbrev pub IsFresh : SseWriter → Type 0
IsFresh s =
    (s.started ≡ false) × (s.sent ≡ []) × (s.active_type ≡ none) × (s.block_index ≡ negsuc 0)

abbrev pub IsLive : SseWriter → Type 0
IsLive s = (s.started ≡ true) × (phase s ≡ some (open_phase s.block_index s.active_type))

abbrev pub IsGood : SseWriter → Type 0
IsGood s = IsFresh s ⊎ IsLive s

same_index : (i : ℤ) → eq_ℤ i i ≡ true
same_index (pos n) = ground arith
same_index (negsuc n) = ground arith

pub sent_next :
    (xs : List Sse) (x : Sse) (p q : Phase)
    → read_all (some waiting) xs ≡ some p
    → read p x ≡ some q
    → read_all (some waiting) (xs ++ x ∷ []) ≡ some q
sent_next xs x p q h k = read_all-snoc (some waiting) xs x ∙ ap (λ o. read_on o x) h ∙ k

pub ensure_started-IsLive : (s : SseWriter) → IsGood s → IsLive (ensure_started s)
unfolding ensure_started read_all
ensure_started-IsLive s (inr (started, here)) =
    if_cases {A = SseWriter} IsLive s.started {x = s}
      {y = write_sse (record s { started = true }) message_start} (λ e. (started, here))
      (λ e. ground (arith, e, started))
ensure_started-IsLive s (inl (started, here, none_active, first)) =
    if_cases {A = SseWriter} IsLive s.started {x = s}
      {y = write_sse (record s { started = true }) message_start} (λ e. ground (arith, e, started))
      (λ e. (
        refl,
        sent_next s.sent message_start waiting (between (negsuc 0))
              (ap (read_all (some waiting)) here) refl
            ∙ ap some (sym (ap₂ open_phase first none_active)),
      ))

close_of-IsLive :
    (s : SseWriter) (t : Option BlockType)
    → s.active_type ≡ t
    → IsLive s
    → IsLive (close_of s t) × ((close_of s t).active_type ≡ none)
close_of-IsLive s none e live = (live, e)
close_of-IsLive s (some t) e (started, here) = (
  (
    started,
    sent_next s.sent (content_block_stop s.block_index) (inside s.block_index t)
        (between s.block_index) (here ∙ ap (λ a. some (open_phase s.block_index a)) e)
        (ap (λ b. allow b (between s.block_index)) (same_index s.block_index)),
  ),
  refl,
)

pub close_active_block-IsLive :
    (s : SseWriter)
    → IsLive s
    → IsLive (close_active_block s) × ((close_active_block s).active_type ≡ none)
unfolding close_active_block
close_active_block-IsLive s live = close_of-IsLive s s.active_type refl live

pub start_block-IsLive :
    (s : SseWriter) (t : BlockType) (block : Block)
    → IsLive s
    → s.active_type ≡ none
    → type_of block ≡ t
    → IsLive (start_block s t block)
start_block-IsLive s t block (started, here) none_active same =
    let i : ℤ = next_index s.block_index in
    (
      started,
      sent_next s.sent (content_block_start i block) (between s.block_index) (inside i t)
          (here ∙ ap (λ a. some (open_phase s.block_index a)) none_active)
          (ap (λ b. allow b (inside i (type_of block))) (same_index i)
            ∙ ap (λ u. some (inside i u)) same),
    )

pub write_delta-IsLive :
    (s : SseWriter) (t : BlockType) (d : Delta)
    → IsLive s
    → s.active_type ≡ some t
    → fits t d ≡ true
    → IsLive (write_delta s d) × ((write_delta s d).active_type ≡ some t)
write_delta-IsLive s t d (started, here) active fit = (
  (
    started,
    sent_next s.sent (content_block_delta s.block_index d) (inside s.block_index t)
          (inside s.block_index t) (here ∙ ap (λ a. some (open_phase s.block_index a)) active)
          (rw (fit, same_index s.block_index) refl)
        ∙ ap (λ a. some (open_phase s.block_index a)) (sym active),
  ),
  active,
)
