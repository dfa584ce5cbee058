-- ===== src/Security/RateLimit/Windows.antt =====
-- The windows of a limiter: each key stands once, and pruning can be done early or late.
use owl_invites.Base.{
  ℕ, ◌≤◌, ◌≡◌, refl, true, false, none, List, [], ◌∷◌, ◌++◌, arith, if◌then◌else◌,
}
use owl_invites.Text.{Text, text_eq, text_eq_iff}
use owl_invites.Map.{Map, lookup, insert, remove, lookup-insert}
use owl_invites.Security.RateLimit.{prune_entries, entries_of, add_window, cleanup_windows}

-- No key stands twice.
unfoldable pub Distinct : Map (List ℕ) → Type 0
Distinct [] = Unit
Distinct ((k, es) ∷ m) = (lookup k m ≡ none) × Distinct m

pub prune-later :
    (window now later : ℕ) (es : List ℕ)
    → now ≤ later
    → prune_entries window later (prune_entries window now es) ≡ prune_entries window later es
unfolding prune_entries
prune-later window now later [] h = refl
prune-later window now later (e ∷ es) h = ground (arith, prune-later window now later es h)

pub prune-append :
    (window now e : ℕ) (es : List ℕ)
    → prune_entries window now (es ++ e ∷ [])
      ≡ prune_entries window now es ++ prune_entries window now (e ∷ [])
unfolding prune_entries
prune-append window now e [] = refl
prune-append window now e (x ∷ es) = ground (arith, prune-append window now e es)

pub lookup-remove :
    (k j : Text) (m : Map (List ℕ))
    → lookup j (remove k m) ≡ (if text_eq k j then none else lookup j m)
unfolding lookup remove
lookup-remove k j [] = ground arith
lookup-remove k j ((i, es) ∷ m) =
    ground (arith, text_eq_iff k j, text_eq_iff i k, text_eq_iff i j, lookup-remove k j m)

pub insert-Distinct :
    (k : Text) (es : List ℕ) (m : Map (List ℕ)) → Distinct m → Distinct (insert k es m)
unfolding Distinct insert lookup
insert-Distinct k es [] d = (refl, tt)
insert-Distinct k es ((j, fs) ∷ m) (fresh, d) =
    ground
      (arith, text_eq_iff j k, text_eq_iff k j, lookup-insert k j es m, insert-Distinct k es m d)

pub remove-Distinct : (k : Text) (m : Map (List ℕ)) → Distinct m → Distinct (remove k m)
unfolding Distinct remove
remove-Distinct k [] d = tt
remove-Distinct k ((j, fs) ∷ m) (fresh, d) =
    ground (arith, text_eq_iff j k, lookup-remove k j m, remove-Distinct k m d)

pub missing-add :
    (k j : Text) (es : List ℕ) (m : Map (List ℕ))
    → text_eq j k ≡ false
    → lookup k m ≡ none
    → lookup k (add_window j es m) ≡ none
unfolding lookup
missing-add k j [] m ne h = h
missing-add k j (e ∷ es) m ne h = ground arith

pub add-Distinct :
    (j : Text) (es : List ℕ) (m : Map (List ℕ))
    → lookup j m ≡ none
    → Distinct m
    → Distinct (add_window j es m)
unfolding Distinct
add-Distinct j [] m fresh d = d
add-Distinct j (e ∷ es) m fresh d = (fresh, d)

pub missing-cleanup :
    (window now : ℕ) (k : Text) (m : Map (List ℕ))
    → lookup k m ≡ none
    → lookup k (cleanup_windows window now m) ≡ none
unfolding cleanup_windows lookup
missing-cleanup window now k [] h = refl
missing-cleanup window now k ((j, es) ∷ m) h = ground (
  arith,
  missing-add k j (prune_entries window now es) (cleanup_windows window now m),
  missing-cleanup window now k m,
)

pub cleanup-Distinct :
    (window now : ℕ) (m : Map (List ℕ)) → Distinct m → Distinct (cleanup_windows window now m)
unfolding Distinct cleanup_windows
cleanup-Distinct window now [] d = tt
cleanup-Distinct window now ((j, es) ∷ m) (fresh, d) =
    add-Distinct j (prune_entries window now es) (cleanup_windows window now m)
      (missing-cleanup window now j m fresh) (cleanup-Distinct window now m d)

pub entries_of-add :
    (k j : Text) (es : List ℕ) (m : Map (List ℕ))
    → (text_eq j k ≡ true → entries_of k m ≡ [])
    → entries_of k (add_window j es m) ≡ (if text_eq j k then es else entries_of k m)
unfolding lookup
entries_of-add k j [] m h = ground (arith, h)
entries_of-add k j (e ∷ es) m h = ground arith

pub entries_of-cleanup :
    (window now : ℕ) (k : Text) (m : Map (List ℕ))
    → Distinct m
    → entries_of k (cleanup_windows window now m) ≡ prune_entries window now (entries_of k m)
unfolding Distinct cleanup_windows lookup
entries_of-cleanup window now k [] d = unfold prune_entries in refl
entries_of-cleanup window now k ((j, es) ∷ m) (fresh, d) = ground (
  arith,
  text_eq_iff j k,
  missing-cleanup window now j m fresh,
  entries_of-add k j (prune_entries window now es) (cleanup_windows window now m),
  entries_of-cleanup window now k m d,
)
