-- ===== src/Oauth/Tests.antt =====
-- The nonce cache on concrete calls, and its theorems at inputs that meet the hypotheses.
use kirocc_prox.Base.{
  ◌≡◌, refl, [], ◌∷◌, arith, none, some, String, str_eq_iff, lookup, insert, remove,
}
use kirocc_prox.Oauth.StateCache.{
  StateCache, StateEntry, put, consume, run, sweep_call, consume_call, put_call,
}
use kirocc_prox.Oauth.StateCache.Nonces.{consume_once, consume-put}

abbrev flow : String → StateEntry
flow nonce = record {
  state = nonce;
  verifier = "v";
  provider_id = "kiro";
  redirect_uri = "";
  created = 0;
  extra = [];
}

abbrev empty_cache : StateCache
empty_cache = record { ttl = 100; entries = [] }

consume_runs :
    ((consume (put empty_cache (flow "n") 5) "n" 105).1 ≡ some (record (flow "n") { created = 5 }))
    × ((consume (put empty_cache (flow "n") 5) "n" 106).1 ≡ none)
    × ((consume (put empty_cache (flow "n") 5) "m" 6).1 ≡ none)
unfolding consume put insert lookup remove
consume_runs = (refl, refl, refl)

consume_once_example :
    (consume
      (run
        (consume (put empty_cache (flow "n") 5) "n" 6).0
        (put_call (flow "m") 7 ∷ sweep_call 8 ∷ []))
      "n"
      9).1
    ≡ none
consume_once_example =
    consume_once (put empty_cache (flow "n") 5) "n" 6 9 (put_call (flow "m") 7 ∷ sweep_call 8 ∷ [])
      ((λ e. ground (arith, str_eq_iff "m" "n")), tt)

consume-put_example :
    (consume
      (run (put empty_cache (flow "n") 5) (consume_call "m" 7 ∷ sweep_call 80 ∷ []))
      "n"
      105).1
    ≡ some (record (flow "n") { created = 5 })
consume-put_example =
    (consume-put empty_cache (flow "n") 5 105 (consume_call "m" 7 ∷ sweep_call 80 ∷ []) refl
        ((λ e. ground (arith, str_eq_iff "m" "n")), (omega arith, tt)) (omega arith)).0
      (omega arith)
