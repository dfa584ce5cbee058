-- ===== src/Security/RateLimit/History.antt =====
-- The limiter against a record of every request that was allowed.
use owl_invites.Base.{
  ℕ, ◌≤◌, ◌≡◌, refl, ap, Bool, true, false, List, [], ◌∷◌, ◌++◌, arith, leb, length, if◌then◌else◌,
  Bool-cases, inl, inr,
}
use owl_invites.Text.{Text, text_eq, text_eq_iff}
use owl_invites.Map.{Map, lookup, insert, remove, lookup-insert}
use owl_invites.Security.RateLimit.{
  RateLimiter, new_rate_limiter, prune_entries, entries_of, allow, reset, cleanup_windows, cleanup,
}
use owl_invites.Security.RateLimit.Windows.{
  Distinct, prune-later, prune-append, lookup-remove, insert-Distinct, remove-Distinct,
  cleanup-Distinct, entries_of-cleanup,
}

-- Calls of a limiter, each with its time.
pub data Call : Type 0 where
  allows resets : Text → Call
  cleans : Call

-- What a limiter answers, call by call.
unfoldable pub run : RateLimiter → List (ℕ × Call) → List Bool
run rl [] = []
run rl ((now, allows key) ∷ cs) = let (verdict, rl') = allow rl key now in verdict ∷ run rl' cs
run rl ((now, resets key) ∷ cs) = run (reset rl key) cs
run rl ((now, cleans) ∷ cs) = run (cleanup rl now) cs

-- The requests that were allowed, for each key, none of them forgotten but by a reset.
abbrev pub History : Type 0
History = Text → List ℕ

abbrev pub recent : ℕ → ℕ → List ℕ → ℕ
recent window now es = length (prune_entries window now es)

abbrev pub note : Text → ℕ → History → History
note key now h k = if text_eq key k then h k ++ now ∷ [] else h k

abbrev pub forget : Text → History → History
forget key h k = if text_eq key k then [] else h k

-- The promise: a request is allowed exactly when fewer than `limit` requests of its key were
-- allowed within the window before it.
pub promise : ℕ → ℕ → History → List (ℕ × Call) → List Bool
promise limit window h [] = []
promise limit window h ((now, allows key) ∷ cs) =
    if leb limit (recent window now (h key))
    then false ∷ promise limit window h cs
    else true ∷ promise limit window (note key now h) cs
promise limit window h ((now, resets key) ∷ cs) = promise limit window (forget key h) cs
promise limit window h ((now, cleans) ∷ cs) = promise limit window h cs

-- Times do not go back.
unfoldable pub IsOrdered : ℕ → List (ℕ × Call) → Type 0
IsOrdered t [] = Unit
IsOrdered t ((now, c) ∷ cs) = (t ≤ now) × IsOrdered now cs

-- The windows of a limiter stand for the history: from now on both count the same.
Stands : ℕ → ℕ → Map (List ℕ) → History → Type 0
Stands window now m h =
    Distinct m
    × ((k : Text) (t : ℕ)
        → now ≤ t
        → prune_entries window t (entries_of k m) ≡ prune_entries window t (h k))

later-Stands :
    (window now t : ℕ) (m : Map (List ℕ)) (h : History)
    → now ≤ t
    → Stands window now m h
    → Stands window t m h
unfolding Stands
later-Stands window now t m h le (d, same) = (d, λ k u le'. same k u (ground arith))

-- A refused call keeps what it has pruned.
refuse-Stands :
    (window now : ℕ) (key : Text) (m : Map (List ℕ)) (h : History)
    → Stands window now m h
    → Stands window now (insert key (prune_entries window now (entries_of key m)) m) h
unfolding Stands
refuse-Stands window now key m h (d, same) = (
  insert-Distinct key (prune_entries window now (entries_of key m)) m d,
  λ k t le. ground (
    arith,
    text_eq_iff key k,
    lookup-insert key k (prune_entries window now (entries_of key m)) m,
    prune-later window now t (entries_of key m),
    same k t le,
  ),
)

accept-Stands :
    (window now : ℕ) (key : Text) (m : Map (List ℕ)) (h : History)
    → Stands window now m h
    → Stands window now
        (insert key (prune_entries window now (entries_of key m) ++ now ∷ []) m)
        (note key now h)
unfolding Stands
accept-Stands window now key m h (d, same) = (
  insert-Distinct key (prune_entries window now (entries_of key m) ++ now ∷ []) m d,
  λ k t le. ground (
    arith,
    text_eq_iff key k,
    lookup-insert key k (prune_entries window now (entries_of key m) ++ now ∷ []) m,
    prune-append window t now (prune_entries window now (entries_of key m)),
    prune-append window t now (h k),
    prune-later window now t (entries_of key m),
    same k t le,
  ),
)

reset-Stands :
    (window now : ℕ) (key : Text) (m : Map (List ℕ)) (h : History)
    → Stands window now m h
    → Stands window now (remove key m) (forget key h)
unfolding Stands
reset-Stands window now key m h (d, same) = (
  remove-Distinct key m d,
  λ k t le. ground (arith, text_eq_iff key k, lookup-remove key k m, same k t le),
)

cleanup-Stands :
    (window now : ℕ) (m : Map (List ℕ)) (h : History)
    → Stands window now m h
    → Stands window now (cleanup_windows window now m) h
unfolding Stands
cleanup-Stands window now m h (d, same) = (
  cleanup-Distinct window now m d,
  λ k t le. ground (
    arith,
    entries_of-cleanup window now k m d,
    prune-later window now t (entries_of k m),
    same k t le,
  ),
)

recent-Stands :
    (window t now : ℕ) (key : Text) (m : Map (List ℕ)) (h : History)
    → t ≤ now
    → Stands window t m h
    → recent window now (entries_of key m) ≡ recent window now (h key)
unfolding Stands
recent-Stands window t now key m h le (d, same) = ap length (same key now le)

refused :
    (limit window now : ℕ) (key : Text) (m : Map (List ℕ))
    → leb limit (recent window now (entries_of key m)) ≡ true
    → allow (record { windows = m; limit = limit; window = window }) key now ≡ (
      false,
      record {
        windows = insert key (prune_entries window now (entries_of key m)) m;
        limit = limit;
        window = window;
      },
    )
unfolding allow
refused limit window now key m full = ground (arith, full)

accepted :
    (limit window now : ℕ) (key : Text) (m : Map (List ℕ))
    → leb limit (recent window now (entries_of key m)) ≡ false
    → allow (record { windows = m; limit = limit; window = window }) key now ≡ (
      true,
      record {
        windows = insert key (prune_entries window now (entries_of key m) ++ now ∷ []) m;
        limit = limit;
        window = window;
      },
    )
unfolding allow
accepted limit window now key m room = ground (arith, room)

run-Stands :
    (limit window t : ℕ) (m : Map (List ℕ)) (h : History) (cs : List (ℕ × Call))
    → Stands window t m h
    → IsOrdered t cs
    → run (record { windows = m; limit = limit; window = window }) cs ≡ promise limit window h cs
unfolding run promise IsOrdered reset cleanup
run-Stands limit window t m h [] s o = refl
run-Stands limit window t m h ((now, resets key) ∷ cs) s (le, o) =
    run-Stands limit window now (remove key m) (forget key h) cs
      (reset-Stands window now key m h (later-Stands window t now m h le s)) o
run-Stands limit window t m h ((now, cleans) ∷ cs) s (le, o) =
    run-Stands limit window now (cleanup_windows window now m) h cs
      (cleanup-Stands window now m h (later-Stands window t now m h le s)) o
run-Stands limit window t m h ((now, allows key) ∷ cs) s (le, o) =
    elim (Bool-cases (leb limit (recent window now (entries_of key m)))) [
      | inl full ↦ ground (
        arith,
        refused limit window now key m full,
        run-Stands limit window now (insert key (prune_entries window now (entries_of key m)) m) h
            cs (refuse-Stands window now key m h (later-Stands window t now m h le s)) o,
        recent-Stands window t now key m h le s,
      )
      | inr room ↦ ground (
        arith,
        accepted limit window now key m room,
        run-Stands limit window now
            (insert key (prune_entries window now (entries_of key m) ++ now ∷ []) m)
            (note key now h) cs
            (accept-Stands window now key m h (later-Stands window t now m h le s)) o,
        recent-Stands window t now key m h le s,
      )
    ]

-- A new limiter, given any calls whose times do not go back, answers each request as the promise
-- says: allowed exactly when fewer than `limit` requests of its key were allowed within the window
-- before it, since the last reset of the key; a cleanup changes no answer.
pub run-promise :
    (limit window t : ℕ) (cs : List (ℕ × Call))
    → IsOrdered t cs
    → run (new_rate_limiter limit window) cs ≡ promise limit window (λ k. []) cs
unfolding new_rate_limiter Stands Distinct lookup
run-promise limit window t cs o = run-Stands limit window t [] (λ k. []) cs (tt, λ k u le. refl) o
