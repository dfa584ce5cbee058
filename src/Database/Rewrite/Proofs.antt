-- ===== src/Database/Rewrite/Proofs.antt =====
-- What is written is read without placeholders.
use owl_invites.Base.{
  ℕ, suc, ◌≡◌, ◌≢◌, refl, sym, ◌∙◌, ap, subst, true, false, ◌&&◌, [], ◌∷◌, ◌++◌, ◌==◌, ==_iff,
  arith, All, Bool-cases, inl, inr,
}
use owl_invites.Text.{Text}
use owl_invites.Text.Number.{itoa, itoa-All, IsDigit}
use owl_invites.Database.Rewrite.Pieces.{
  copied, classify, numbered, copies, rewrite_placeholders-numbered,
}
use owl_invites.Database.Rewrite.{
  State, normal, in_single_quote, in_double_quote, in_line_comment, in_block_comment, next_is,
  open_state, rewrite_placeholders,
}

numbered-copies : (n : ℕ) (s : Text) → numbered n (copies s) ≡ s
unfolding numbered copies
numbered-copies n [] = refl
numbered-copies n (c ∷ s) = ap (c ∷◌) (numbered-copies n s)

copies-append : (s t : Text) → copies (s ++ t) ≡ copies s ++ copies t
unfolding copies
copies-append [] t = refl
copies-append (c ∷ s) t = ap (copied c ∷◌) (copies-append s t)

classify-digits :
    (s t : Text) → All IsDigit s → classify normal (s ++ t) ≡ copies s ++ classify normal t
unfolding classify copies open_state
classify-digits [] t h = refl
classify-digits (c ∷ s) t (d, h) = ground (arith, classify-digits s t h)

-- The next byte is seen alike before and after.
next_is-numbered :
    (state : State) (n k : ℕ) (q : Text)
    → k ≢ b'?'
    → k ≢ b'$'
    → next_is (numbered n (classify state q)) k ≡ next_is q k
unfolding next_is numbered classify
next_is-numbered state n k [] other_mark dollar = refl
next_is-numbered normal n k (c ∷ rest) other_mark dollar = ground (arith, ==_iff c b'?')
next_is-numbered in_single_quote n k (c ∷ rest) other_mark dollar = refl
next_is-numbered in_double_quote n k (c ∷ rest) other_mark dollar = refl
next_is-numbered in_line_comment n k (c ∷ rest) other_mark dollar = refl
next_is-numbered in_block_comment n k (c ∷ []) other_mark dollar = refl
next_is-numbered in_block_comment n k (c ∷ d ∷ rest) other_mark dollar = ground arith

open_state-numbered :
    (state : State) (n c : ℕ) (q : Text)
    → open_state c (numbered n (classify state q)) ≡ open_state c q
unfolding open_state
open_state-numbered state n c q =
    rw
      (
        next_is-numbered state n b'-' q (omega arith) (omega arith),
        next_is-numbered state n b'*' q (omega arith) (omega arith),
      )
      refl

block_head :
    (n d : ℕ) (rest : Text)
    → (t : Text) × (numbered n (classify in_block_comment (d ∷ rest)) ≡ d ∷ t)
unfolding numbered classify
block_head n d [] = ([], refl)
block_head n d (e ∷ rest) = elim (Bool-cases (d == b'*' && e == b'/')) [
  | inl here ↦ (e ∷ numbered n (classify normal rest), ground arith)
  | inr other ↦ (numbered n (classify in_block_comment (e ∷ rest)), ground arith)
]

-- A text that is copied when it is read inside of a block comment.
abbrev Copied : Text → Type 0
Copied s = classify in_block_comment s ≡ copies s

block_kept :
    (c d : ℕ) (t : Text)
    → (c == b'*' && d == b'/') ≡ false
    → Copied (d ∷ t)
    → classify in_block_comment (c ∷ d ∷ t) ≡ copies (c ∷ d ∷ t)
unfolding classify copies
block_kept c d t other h = ground (arith, other, h)

block_closed :
    (c d : ℕ) (t : Text)
    → (c == b'*' && d == b'/') ≡ true
    → classify normal t ≡ copies t
    → classify in_block_comment (c ∷ d ∷ t) ≡ copies (c ∷ d ∷ t)
unfolding classify copies
block_closed c d t here h = ground (arith, here, h)

-- What is written is read as bytes to copy.
classify-numbered :
    (state : State) (n : ℕ) (q : Text)
    → classify state (numbered n (classify state q)) ≡ copies (numbered n (classify state q))
unfolding classify numbered copies
classify-numbered state n [] = refl
classify-numbered normal n (c ∷ rest) = elim (Bool-cases (c == b'?')) [
  | inl here ↦
      let out = numbered (suc n) (classify normal rest) in
      ground (
        arith,
        classify-digits (itoa (suc n)) out (itoa-All (suc n)),
        copies-append (itoa (suc n)) out,
        classify-numbered normal (suc n) rest,
        dollar (itoa (suc n) ++ out),
      )
  | inr other ↦ ground (
    arith,
    open_state-numbered (open_state c rest) n c rest,
    classify-numbered (open_state c rest) n rest,
  )
]
  where
    dollar : (t : Text) → open_state b'$' t ≡ normal
    dollar t = unfold open_state in refl
classify-numbered in_single_quote n (c ∷ rest) = ap (copied c ∷◌) (classify-numbered _ n rest)
classify-numbered in_double_quote n (c ∷ rest) = ap (copied c ∷◌) (classify-numbered _ n rest)
classify-numbered in_line_comment n (c ∷ rest) = ap (copied c ∷◌) (classify-numbered _ n rest)
classify-numbered in_block_comment n (c ∷ []) = refl
classify-numbered in_block_comment n (c ∷ d ∷ rest) = elim (Bool-cases (c == b'*' && d == b'/')) [
  | inl here ↦
      let out = numbered n (classify normal rest) in
      let written : numbered n (classify in_block_comment (c ∷ d ∷ rest)) ≡ c ∷ d ∷ out =
        ground arith in
      subst Copied (sym written) (block_closed c d out here (classify-numbered normal n rest))
  | inr other ↦
      let out = numbered n (classify in_block_comment (d ∷ rest)) in
      let written : numbered n (classify in_block_comment (c ∷ d ∷ rest)) ≡ c ∷ out =
        ground arith in
      let (t, head) = block_head n d rest in
      let inside : Copied (d ∷ t) =
        subst Copied head (classify-numbered in_block_comment n (d ∷ rest)) in
      subst Copied (sym (written ∙ ap (c ∷◌) head)) (block_kept c d t other inside)
]

-- A query that was rewritten holds no placeholder any more: rewriting it again changes nothing.
pub rewrite_placeholders_idem :
    (q : Text) → rewrite_placeholders (rewrite_placeholders q) ≡ rewrite_placeholders q
rewrite_placeholders_idem q =
    let e = rewrite_placeholders-numbered q in
    rewrite_placeholders-numbered (rewrite_placeholders q)
    ∙ ap (λ t. numbered 0 (classify normal t)) e
    ∙ ap (numbered 0) (classify-numbered normal 0 q)
    ∙ numbered-copies 0 (numbered 0 (classify normal q))
    ∙ sym e
