-- ===== src/Respconv/Events/Tests.antt =====
-- A stream of events on concrete texts, and the theorems there.
use kirocc_prox.Base.{
  ◌+◌, ◌≤◌, ◌<◌, ◌≡◌, refl, true, false, arith, List, [], ◌∷◌, ◌++◌, none, some, pos, length, map,
}
use kirocc_prox.Respconv.Text.{Text, index, is_prefix, text_eq}
use kirocc_prox.Respconv.Accumulator.{ResponseAccumulator, empty_accumulator}
use kirocc_prox.Respconv.TokenBudget.{apply_max_tokens_budget}
use kirocc_prox.Respconv.TokenBudget.Accounts.{
  Accounts, SameButCount, apply_max_tokens_budget-Accounts,
}
use kirocc_prox.Respconv.ChunkDelta.{compute_delta}
use kirocc_prox.Respconv.ChunkDelta.Cumulative.{grow}
use kirocc_prox.Respconv.ThinkingTags.{
  thinking_open_tag, thinking_close_tag, parse_thinking_tags, rounds, round, can_start_thinking,
  is_blank, partial_tag_suffix, longest_partial,
}
use kirocc_prox.Respconv.ThinkingTags.Rounds.{Loop, rounds-Loop}
use kirocc_prox.Kiroproto.Event.{Event, assistant_response}
use kirocc_prox.Respconv.Events.{
  Checks, deliver, emit_text, accumulate_thinking, process_event, process_events,
}
use kirocc_prox.Respconv.Events.Runs.{texts, thoughts}
use kirocc_prox.Respconv.Events.Streams.{
  finished, process_events-budget, process_events-stopped, Frozen,
}
use kirocc_prox.Respconv.Events.Literal.{visible, process_events-literal}

abbrev checks : Checks
checks = record { thought_of = λ t. some t; is_valid = λ t. true; validator = none }

-- A budget of one token, which is four characters.
abbrev start : ResponseAccumulator
start = empty_accumulator (pos 1)

abbrev hello : Text
hello = 104 ∷ 101 ∷ 108 ∷ 108 ∷ 111 ∷ []

-- A thinking of five characters, then a text of five, in one event.
abbrev both : Text
both = thinking_open_tag ++ hello ++ thinking_close_tag ++ hello

abbrev stream : List Event
stream = assistant_response both ∷ []

-- The thinking stops the response at its budget. The text of the same event is written all the same,
-- whole, and it is not counted.
over_budget_runs :
    ((process_events checks start stream).0.local_stop ≡ true)
    × ((process_events checks start stream).0.thinking_buf ≡ 104 ∷ 101 ∷ 108 ∷ 108 ∷ [])
    × ((process_events checks start stream).0.text_buf ≡ hello)
    × ((process_events checks start stream).0.output_rune_count ≡ 4)
unfolding process_events process_event compute_delta parse_thinking_tags rounds round
    can_start_thinking is_blank index is_prefix deliver emit_text accumulate_thinking
    apply_max_tokens_budget partial_tag_suffix longest_partial text_eq
over_budget_runs = (refl, refl, refl, refl)

apply_max_tokens_budget-Accounts_example :
    Accounts start hello
      (apply_max_tokens_budget start hello).0
      (apply_max_tokens_budget start hello).1
    × SameButCount start (apply_max_tokens_budget start hello).0
apply_max_tokens_budget-Accounts_example = apply_max_tokens_budget-Accounts start hello

rounds-Loop_example :
    Loop
      (record start { thinking_tag_buf = both })
      []
      []
      (rounds 40 (record start { thinking_tag_buf = both }) [] [])
rounds-Loop_example = rounds-Loop 40 (record start { thinking_tag_buf = both }) [] [] (omega arith)

process_events-budget_example :
    (length (finished checks start stream).thinking_buf ≤ 4)
    × ((finished checks start stream).local_stop ≡ false
        → length (finished checks start stream).text_buf
            + length (finished checks start stream).thinking_buf
          < 4)
process_events-budget_example =
    process_events-budget checks start stream (omega arith) refl refl refl

abbrev halted : ResponseAccumulator
halted = record start { local_stop = true; stop_reason = "max_tokens" }

process_events-stopped_example :
    Frozen halted
      (process_events checks halted stream).0
      (texts (process_events checks halted stream).1)
      (thoughts (process_events checks halted stream).1)
process_events-stopped_example = process_events-stopped checks halted stream refl

process_events-literal_example :
    map
      (λ d. d.text_delta)
      (process_events checks
        (visible start hello)
        (map assistant_response (grow hello (both ∷ [] ∷ hello ∷ [])))).1
    ≡ both ∷ [] ∷ hello ∷ []
process_events-literal_example = process_events-literal checks start hello (both ∷ [] ∷ hello ∷ [])
