-- ===== src/Security/RateLimit/Tests.antt =====
-- The limiter on concrete calls.
use owl_invites.Base.{ℕ, List, ◌≡◌, refl, true, false, [], ◌∷◌, arith}
use owl_invites.Text.{lit, text_eq}
use owl_invites.Map.{lookup, insert, remove}
use owl_invites.Security.RateLimit.{
  new_rate_limiter, prune_entries, allow, reset, cleanup_windows, cleanup,
}
use owl_invites.Security.RateLimit.History.{
  Call, allows, resets, cleans, run, promise, IsOrdered, run-promise,
}

abbrev calls : List (ℕ × Call)
calls =
    (0, allows (lit "a"))
    ∷ (1, allows (lit "a"))
    ∷ (2, allows (lit "a"))
    ∷ (3, allows (lit "b"))
    ∷ (4, cleans)
    ∷ (11, allows (lit "a"))
    ∷ (11, allows (lit "a"))
    ∷ (12, resets (lit "a"))
    ∷ (12, allows (lit "a"))
    ∷ []

-- The third request of `a` is refused; after a reset it is allowed again.
run-calls :
    run (new_rate_limiter 2 10) calls ≡ true ∷ true ∷ false ∷ true ∷ true ∷ false ∷ true ∷ []
unfolding run new_rate_limiter allow prune_entries lookup insert remove reset cleanup
    cleanup_windows text_eq lit
run-calls = refl

run-promise_example : run (new_rate_limiter 2 10) calls ≡ promise 2 10 (λ k. []) calls
unfolding IsOrdered
run-promise_example = run-promise 2 10 0 calls (
  omega arith,
  (
    omega arith,
    (
      omega arith,
      (omega arith, (omega arith, (omega arith, (omega arith, (omega arith, (omega arith, tt)))))),
    ),
  ),
)
