-- ===== src/Reqconv/Conversation.antt =====
-- What internal/reqconv/message_normalizer.go makes of any list of messages.
use kirocc_prox.Base.{
  ℕ, zero, suc, ◌≤◌, ◌≡◌, refl, sym, ap, subst, ◌∙◌, Bool, true, false, arith, List, [], ◌∷◌, ◌++◌,
  String, str_eq, str_eq_iff, length, take, drop, Empty, All, take-append-drop, length-drop, ◌⊎◌,
  inl, inr, Bool-cases, map,
}
use Prim.Native.String.{◌++◌ as ◌^^◌}
use kirocc_prox.Reqconv.Messages.{Message, Fields, plain_string, join, extract_text_content}
use kirocc_prox.Reqconv.Normalizer.{
  normalize, ensure_alternating_roles, alternate_after, ensure_starts_with_user,
  merge_adjacent_same_role, merge_runs, joined, run_after, run_length, is_plain_text_content,
  normalize_roles, normalized_role, textualize_tool_content, opposite_role,
}

-- The user and the assistant speak in turn, and this role is the next.
abbrev pub Alternates : String → List Message → Type 0
Alternates role [] = Unit
Alternates role (msg ∷ msgs) = (msg.role ≡ role) × Alternates (opposite_role role) msgs

abbrev IsSpeaker : Message → Type 0
IsSpeaker msg = (msg.role ≡ "user") ⊎ (msg.role ≡ "assistant")

abbrev IsRole : String → Type 0
IsRole role = (role ≡ "user") ⊎ (role ≡ "assistant")

opposite_role_twice : (role : String) → IsRole role → opposite_role (opposite_role role) ≡ role
opposite_role_twice role (inl e) = rw e refl
opposite_role_twice role (inr e) = rw e refl

opposite_role_same : (role : String) → IsRole role → str_eq role role ≡ true
opposite_role_same role (inl e) = rw e refl
opposite_role_same role (inr e) = rw e refl

opposite_role-IsRole : (role : String) → IsRole role → IsRole (opposite_role role)
opposite_role-IsRole role (inl e) = inr (rw e refl)
opposite_role-IsRole role (inr e) = inl (rw e refl)

other_role :
    (role last : String)
    → IsRole role
    → IsRole last
    → str_eq role last ≡ false
    → role ≡ opposite_role last
other_role role last (inl e) (inl f) d = ground (arith, e, f, d, str_eq_iff role last)
other_role role last (inl e) (inr f) d = rw (e, f) refl
other_role role last (inr e) (inl f) d = rw (e, f) refl
other_role role last (inr e) (inr f) d = ground (arith, e, f, d, str_eq_iff role last)

alternate_after-Alternates :
    (last : String) (msgs : List Message)
    → IsRole last
    → All IsSpeaker msgs
    → Alternates (opposite_role last) (alternate_after last msgs)
unfolding alternate_after
alternate_after-Alternates last [] r h = tt
alternate_after-Alternates last (msg ∷ msgs) r h =
    let rest = alternate_after-Alternates msg.role msgs h.0 h.1 in
    elim (Bool-cases (str_eq msg.role last)) [
      | inl e ↦
          let same : msg.role ≡ last = (str_eq_iff msg.role last).0 e in
          let turn : msg.role ≡ opposite_role (opposite_role last) =
            same ∙ sym (opposite_role_twice last r) in
          rw e (
            ap opposite_role same,
            (
              turn,
              subst (λ role. Alternates role (alternate_after msg.role msgs))
                  (ap opposite_role turn) rest,
            ),
          )
      | inr e ↦
          let other : msg.role ≡ opposite_role last = other_role msg.role last h.0 r e in
          rw e (
            other,
            subst (λ role. Alternates role (alternate_after msg.role msgs)) (ap opposite_role other)
                rest,
          )
    ]

run_length-Within : (role : String) (msgs : List Message) → run_length role msgs ≤ length msgs
unfolding run_length
run_length-Within role [] = omega arith
run_length-Within role (msg ∷ msgs) = ground (arith, run_length-Within role msgs)

drop-IsSpeaker : (n : ℕ) (msgs : List Message) → All IsSpeaker msgs → All IsSpeaker (drop n msgs)
drop-IsSpeaker zero msgs h = h
drop-IsSpeaker (suc n) [] h = tt
drop-IsSpeaker (suc n) (msg ∷ msgs) h = drop-IsSpeaker n msgs h.1

joined-role : (msg : Message) (run : List Message) → (joined msg run).role ≡ msg.role
joined-role msg [] = refl
joined-role msg (next ∷ run) = refl

merge_runs-IsSpeaker :
    (k : ℕ) (msgs : List Message) → All IsSpeaker msgs → All IsSpeaker (merge_runs k msgs)
unfolding merge_runs
merge_runs-IsSpeaker zero msgs h = tt
merge_runs-IsSpeaker (suc k) [] h = tt
merge_runs-IsSpeaker (suc k) (msg ∷ msgs) h = (
  rw (joined-role msg (take (run_after msg msgs) msgs)) h.0,
  merge_runs-IsSpeaker k (drop (run_after msg msgs) msgs)
      (drop-IsSpeaker (run_after msg msgs) msgs h.1),
)

normalized_role-IsSpeaker : (msg : Message) → IsSpeaker (normalized_role msg)
normalized_role-IsSpeaker msg = elim (Bool-cases (str_eq msg.role "user")) [
  | inl e ↦ rw e (inl ((str_eq_iff msg.role "user").0 e))
  | inr e ↦ rw e (elim (Bool-cases (str_eq msg.role "assistant")) [
    | inl f ↦ rw f (inr ((str_eq_iff msg.role "assistant").0 f))
    | inr f ↦ rw f (inl refl)
  ])
]

normalize_roles-IsSpeaker : (msgs : List Message) → All IsSpeaker (normalize_roles msgs)
unfolding normalize_roles
normalize_roles-IsSpeaker [] = tt
normalize_roles-IsSpeaker (msg ∷ msgs) =
    (normalized_role-IsSpeaker msg, normalize_roles-IsSpeaker msgs)

starts-Alternates :
    (msgs : List Message)
    → All IsSpeaker msgs
    → Alternates "user" (ensure_alternating_roles (ensure_starts_with_user msgs))
unfolding ensure_alternating_roles ensure_starts_with_user
starts-Alternates [] h = tt
starts-Alternates (msg ∷ msgs) h = elim (Bool-cases (str_eq msg.role "user")) [
  | inl e ↦
      let user : msg.role ≡ "user" = (str_eq_iff msg.role "user").0 e in
      rw e
        (user, rw (sym (ap opposite_role user)) (alternate_after-Alternates msg.role msgs h.0 h.1))
  | inr e ↦ rw e (refl, alternate_after-Alternates "user" (msg ∷ msgs) (inl refl) h)
]

-- Whatever messages come in, with whatever roles, content and tools, the conversation that goes out
-- begins with the user, the user and the assistant alternate strictly, and no other role is left.
pub normalize-Alternates :
    (marshal : Fields → String) (msgs : List Message) (has_tools : Bool)
    → Alternates "user" (normalize marshal msgs has_tools)
unfolding normalize merge_adjacent_same_role
normalize-Alternates marshal msgs has_tools = starts-Alternates _ (
    merge_runs-IsSpeaker _ _
      (normalize_roles-IsSpeaker (textualize_tool_content marshal msgs has_tools)))

-- The runs that the loop finds.
unfoldable pub runs : ℕ → List Message → List (List Message)
runs zero msgs = []
runs (suc k) [] = []
runs (suc k) (msg ∷ msgs) =
    (msg ∷ take (run_after msg msgs) msgs) ∷ runs k (drop (run_after msg msgs) msgs)

abbrev pub flatten : List (List Message) → List Message
flatten [] = []
flatten (xs ∷ xss) = xs ++ flatten xss

abbrev pub IsText : String → Message → Type 0
IsText role msg = (msg.role ≡ role) × (is_plain_text_content msg.content ≡ true)

abbrev pub IsRun : List Message → Type 0
IsRun [] = Empty
IsRun (msg ∷ []) = Unit
IsRun (msg ∷ next ∷ run) = All (IsText msg.role) (msg ∷ next ∷ run)

-- The texts of a run, a line break between one and the next.
unfoldable pub texts : List Message → String
texts [] = ""
texts (msg ∷ []) = extract_text_content msg.content
texts (msg ∷ next ∷ run) = extract_text_content msg.content ^^ "\n" ^^ texts (next ∷ run)

-- What a run is to become: one message stays as it is, and several become one message of their role,
-- with all their texts.
unfoldable pub whole : List Message → List Message
whole [] = []
whole (msg ∷ []) = msg ∷ []
whole (msg ∷ next ∷ run) =
    record { role = msg.role; content = plain_string (texts (msg ∷ next ∷ run)) } ∷ []

unfoldable pub wholes : List (List Message) → List Message
wholes [] = []
wholes (xs ∷ xss) = whole xs ++ wholes xss

-- One message could join the other's run.
abbrev pub Joinable : Message → Message → Type 0
Joinable msg next =
    (next.role ≡ msg.role)
    × (is_plain_text_content msg.content ≡ true)
    × (is_plain_text_content next.content ≡ true)

-- The next messages could not join the run.
abbrev pub Ends : List Message → List Message → Type 0
Ends (msg ∷ run) (next ∷ more) = ¬ Joinable msg next
Ends run more = Unit

-- No run could have been longer.
abbrev pub IsMaximal : List (List Message) → Type 0
IsMaximal [] = Unit
IsMaximal (xs ∷ []) = Unit
IsMaximal (xs ∷ ys ∷ xss) = Ends xs ys × IsMaximal (ys ∷ xss)

runs_cover : (k : ℕ) (msgs : List Message) → length msgs ≤ k → flatten (runs k msgs) ≡ msgs
unfolding runs
runs_cover zero [] l = refl
runs_cover zero (msg ∷ msgs) l = ground arith
runs_cover (suc k) [] l = refl
runs_cover (suc k) (msg ∷ msgs) l =
    ap (λ ms. msg ∷ ms)
      (rw
        (runs_cover k (drop (run_after msg msgs) msgs)
          (omega (arith, length-drop (run_after msg msgs) msgs)))
        (take-append-drop (run_after msg msgs) msgs))

join-texts :
    (msg : Message) (run : List Message)
    → join "\n" (map (λ m. extract_text_content m.content) (msg ∷ run)) ≡ texts (msg ∷ run)
unfolding join texts
join-texts msg [] = refl
join-texts msg (next ∷ run) =
    ap (λ t. extract_text_content msg.content ^^ "\n" ^^ t) (join-texts next run)

joined-whole : (msg : Message) (run : List Message) → joined msg run ∷ [] ≡ whole (msg ∷ run)
unfolding whole
joined-whole msg [] = refl
joined-whole msg (next ∷ run) =
    ap (λ t. record { role = msg.role; content = plain_string t } ∷ [])
      (join-texts msg (next ∷ run))

runs_merged : (k : ℕ) (msgs : List Message) → merge_runs k msgs ≡ wholes (runs k msgs)
unfolding runs merge_runs wholes
runs_merged zero msgs = refl
runs_merged (suc k) [] = refl
runs_merged (suc k) (msg ∷ msgs) =
    let rest = drop (run_after msg msgs) msgs in
    ap (λ ms. joined msg (take (run_after msg msgs) msgs) ∷ ms) (runs_merged k rest)
    ∙ ap (λ ms. ms ++ wholes (runs k rest)) (joined-whole msg (take (run_after msg msgs) msgs))

run_length-IsText :
    (role : String) (msgs : List Message) → All (IsText role) (take (run_length role msgs) msgs)
unfolding run_length
run_length-IsText role [] = tt
run_length-IsText role (msg ∷ msgs) = elim (Bool-cases (str_eq msg.role role)) [
  | inr e ↦ rw e tt
  | inl e ↦ rw e (elim (Bool-cases (is_plain_text_content msg.content)) [
    | inr f ↦ rw f tt
    | inl f ↦ rw f (((str_eq_iff msg.role role).0 e, f), run_length-IsText role msgs)
  ])
]

joinable-IsRun :
    (msg : Message) (run : List Message)
    → is_plain_text_content msg.content ≡ true
    → All (IsText msg.role) run
    → IsRun (msg ∷ run)
joinable-IsRun msg [] e h = tt
joinable-IsRun msg (next ∷ run) e h = ((refl, e), h)

run_after-IsRun :
    (msg : Message) (msgs : List Message) → IsRun (msg ∷ take (run_after msg msgs) msgs)
run_after-IsRun msg msgs = elim (Bool-cases (is_plain_text_content msg.content)) [
  | inl e ↦ rw e (
      joinable-IsRun msg (take (run_length msg.role msgs) msgs) e (run_length-IsText msg.role msgs))
  | inr e ↦ rw e tt
]

runs-IsRun : (k : ℕ) (msgs : List Message) → All IsRun (runs k msgs)
unfolding runs
runs-IsRun zero msgs = tt
runs-IsRun (suc k) [] = tt
runs-IsRun (suc k) (msg ∷ msgs) =
    (run_after-IsRun msg msgs, runs-IsRun k (drop (run_after msg msgs) msgs))

run_length-Ends :
    (msg : Message) (run msgs : List Message)
    → Ends (msg ∷ run) (drop (run_length msg.role msgs) msgs)
unfolding run_length
run_length-Ends msg run [] = tt
run_length-Ends msg run (next ∷ msgs) = elim (Bool-cases (str_eq next.role msg.role)) [
  | inr e ↦ rw e (λ (same, _, _). ground (arith, e, str_eq_iff next.role msg.role, same))
  | inl e ↦ rw e (elim (Bool-cases (is_plain_text_content next.content)) [
    | inr f ↦ rw f (λ (_, _, plain). ground (arith, f, plain))
    | inl f ↦ rw f (run_length-Ends msg run msgs)
  ])
]

-- A message that is no plain text is joined by none.
alone-Ends :
    (msg : Message) (run msgs : List Message)
    → is_plain_text_content msg.content ≡ false
    → Ends (msg ∷ run) msgs
alone-Ends msg run [] e = tt
alone-Ends msg run (next ∷ msgs) e = λ (_, plain, _). ground (arith, e, plain)

run_after-Ends :
    (msg : Message) (run msgs : List Message) → Ends (msg ∷ run) (drop (run_after msg msgs) msgs)
run_after-Ends msg run msgs = elim (Bool-cases (is_plain_text_content msg.content)) [
  | inl e ↦ rw e (run_length-Ends msg run msgs)
  | inr e ↦ rw e (alone-Ends msg run msgs e)
]

before-IsMaximal :
    (msg : Message) (run : List Message) (k : ℕ) (msgs : List Message)
    → Ends (msg ∷ run) msgs
    → IsMaximal (runs k msgs)
    → IsMaximal ((msg ∷ run) ∷ runs k msgs)
unfolding runs
before-IsMaximal msg run zero msgs e h = tt
before-IsMaximal msg run (suc k) [] e h = tt
before-IsMaximal msg run (suc k) (next ∷ msgs) e h = (e, h)

runs-IsMaximal : (k : ℕ) (msgs : List Message) → IsMaximal (runs k msgs)
unfolding runs
runs-IsMaximal zero msgs = tt
runs-IsMaximal (suc k) [] = tt
runs-IsMaximal (suc k) (msg ∷ msgs) =
    before-IsMaximal msg (take (run_after msg msgs) msgs) k (drop (run_after msg msgs) msgs)
      (run_after-Ends msg (take (run_after msg msgs) msgs) msgs)
      (runs-IsMaximal k (drop (run_after msg msgs) msgs))

-- Merging loses no text and mixes no speakers: the input is a sequence of runs, each of one message or of
-- text messages with one role, none of which could have been longer; and the output is one message for
-- each of them, in order: the message itself, or one of that role with the texts of all, each on lines
-- of its own.
pub merge-Partition :
    (msgs : List Message)
    → (parts : List (List Message)) × (flatten parts ≡ msgs)
      × All IsRun parts
      × IsMaximal parts
      × (merge_adjacent_same_role msgs ≡ wholes parts)
unfolding merge_adjacent_same_role
merge-Partition msgs = (
  runs (length msgs) msgs,
  runs_cover (length msgs) msgs (omega arith),
  runs-IsRun (length msgs) msgs,
  runs-IsMaximal (length msgs) msgs,
  runs_merged (length msgs) msgs,
)
