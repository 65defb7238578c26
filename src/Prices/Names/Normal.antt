-- ===== src/Prices/Names/Normal.antt =====
-- `_norm_key` gives a normal form.
use mathlib.Core.List.{append-nil, append_assoc}
use sih.Prelude.{
  All, All-append, Bool, Bool-cases, List, [], ap, false, inl, inr, refl, sym, true, ℕ, ◌++◌, ◌∙◌,
  ◌∷◌, ◌≡◌, ◌≢◌,
}
use sih.Prices.Names.{Text, flush, join, lstrip, norm_key, rstrip, space, split, strip, words_from}

module _ (is_space : ℕ → Bool) where
  -- A word: letters only, and at least one.
  abbrev pub IsWord : Text → Type 0
  IsWord w = (w ≢ []) × All (λ c. is_space c ≡ false) w

  flush_word : (w : Text) (ws : List Text) → w ≢ [] → flush w ws ≡ w ∷ ws
  flush_word [] ws h = absurd (h refl)
  flush_word (c ∷ cs) ws h = refl

  flush-IsWord :
      (w : Text) (ws : List Text)
      → All (λ c. is_space c ≡ false) w
      → All IsWord ws
      → All IsWord (flush w ws)
  flush-IsWord [] ws h k = k
  flush-IsWord (c ∷ cs) ws h k = (((λ e. cc), h), k)

  words_from-IsWord :
      (w s : Text) → All (λ c. is_space c ≡ false) w → All IsWord (words_from is_space w s)
  unfolding words_from
  words_from-IsWord w [] h = flush-IsWord w [] h tt
  words_from-IsWord w (c ∷ cs) h = elim (Bool-cases (is_space c)) [
    | inl t ↦ rw t (flush-IsWord w (words_from is_space [] cs) h (words_from-IsWord [] cs tt))
    | inr f ↦ rw f (
        words_from-IsWord (w ++ c ∷ []) cs
          (All-append (λ c. is_space c ≡ false) w (c ∷ []) h (f, tt)))
  ]

  -- A word in front of a text goes to the word that has begun.
  words_from-word :
      (v w s : Text)
      → All (λ c. is_space c ≡ false) w
      → words_from is_space v (w ++ s) ≡ words_from is_space (v ++ w) s
  unfolding words_from
  words_from-word v [] s h = ap (λ t. words_from is_space t s) (sym (append-nil v))
  words_from-word v (c ∷ cs) s h = rw (h.0) (
      words_from-word (v ++ c ∷ []) cs s h.1
      ∙ ap (λ t. words_from is_space t s) (append_assoc v (c ∷ []) cs))

  split-word :
      (w s : Text)
      → IsWord w
      → is_space space ≡ true
      → split is_space (w ++ space ∷ s) ≡ w ∷ split is_space s
  unfolding words_from
  split-word w s h blank =
      words_from-word [] w (space ∷ s) h.1 ∙ rw blank (flush_word w (split is_space s) h.0)

  split-join :
      (ws : List Text) → is_space space ≡ true → All IsWord ws → split is_space (join ws) ≡ ws
  unfolding words_from
  split-join [] blank h = refl
  split-join (w ∷ []) blank h =
      ap (split is_space) (sym (append-nil w))
      ∙ words_from-word [] w [] h.0.1
      ∙ flush_word w [] h.0.0
  split-join (w ∷ v ∷ ws) blank h =
      split-word w (join (v ∷ ws)) h.0 blank ∙ ap (λ l. w ∷ l) (split-join (v ∷ ws) blank h.1)

  rstrip_cons :
      (c : ℕ) (t : Text) → t ≢ [] → rstrip is_space t ≡ t → rstrip is_space (c ∷ t) ≡ c ∷ t
  unfolding rstrip
  rstrip_cons c [] h e = absurd (h refl)
  rstrip_cons c (d ∷ ds) h e = rw (e, rstrip) refl

  append_not_empty : (xs ys : Text) → ys ≢ [] → xs ++ ys ≢ []
  append_not_empty [] ys h e = h e
  append_not_empty (x ∷ xs) ys h e = cc

  rstrip-append : (w t : Text) → t ≢ [] → rstrip is_space t ≡ t → rstrip is_space (w ++ t) ≡ w ++ t
  rstrip-append [] t h e = e
  rstrip-append (c ∷ cs) t h e =
      rstrip_cons c (cs ++ t) (append_not_empty cs t h) (rstrip-append cs t h e)

  rstrip_word : (w : Text) → All (λ c. is_space c ≡ false) w → rstrip is_space w ≡ w
  unfolding rstrip
  rstrip_word [] h = refl
  rstrip_word (c ∷ []) h = rw (h.0, rstrip) refl
  rstrip_word (c ∷ d ∷ ds) h = rstrip_cons c (d ∷ ds) (λ e. cc) (rstrip_word (d ∷ ds) h.1)

  join_not_empty : (w : Text) (ws : List Text) → IsWord w → join (w ∷ ws) ≢ []
  join_not_empty [] ws h e = h.0 refl
  join_not_empty (c ∷ cs) [] h e = cc
  join_not_empty (c ∷ cs) (v ∷ ws) h e = cc

  rstrip-join : (ws : List Text) → All IsWord ws → rstrip is_space (join ws) ≡ join ws
  unfolding rstrip
  rstrip-join [] h = refl
  rstrip-join (w ∷ []) h = rstrip_word w h.0.1
  rstrip-join (w ∷ v ∷ ws) h =
      rstrip-append w (space ∷ join (v ∷ ws)) (λ e. cc)
        (rstrip_cons space (join (v ∷ ws)) (join_not_empty v ws h.1.0) (rstrip-join (v ∷ ws) h.1))

  lstrip-join : (ws : List Text) → All IsWord ws → lstrip is_space (join ws) ≡ join ws
  unfolding lstrip
  lstrip-join [] h = refl
  lstrip-join ([] ∷ ws) h = absurd (h.0.0 refl)
  lstrip-join ((c ∷ cs) ∷ []) h = rw (h.0.1.0) refl
  lstrip-join ((c ∷ cs) ∷ v ∷ ws) h = rw (h.0.1.0) refl

  strip-join : (ws : List Text) → All IsWord ws → strip is_space (join ws) ≡ join ws
  unfolding strip
  strip-join ws h = ap (lstrip is_space) (rstrip-join ws h) ∙ lstrip-join ws h

  -- A key is its own key, so keys that were normalized before they were stored are found again: for a
  -- `lower` that leaves the words of a lowered text as they are.
  pub norm_key-norm_key :
      (lower : Text → Text)
      → is_space space ≡ true
      → ((s : Text) → lower (join (split is_space (lower s))) ≡ join (split is_space (lower s)))
      → (s : Text) → norm_key is_space lower (norm_key is_space lower s) ≡ norm_key is_space lower s
  unfolding norm_key
  norm_key-norm_key lower blank lowered s =
      let text = lower (strip is_space s) in
      let ws = split is_space text in
      let whole = words_from-IsWord [] text tt in
      ap (λ t. join (split is_space (lower t))) (strip-join ws whole)
      ∙ ap (λ t. join (split is_space t)) (lowered (strip is_space s))
      ∙ ap join (split-join ws blank whole)
