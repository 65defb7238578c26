-- ===== src/Ingestion/Runner/Strict.antt =====
-- A run that stops at the first problem, and the runs that it agrees with.
use mathlib.Core.List.{append-nil, append_assoc}
use mathlib.Core.Path.{subst}
use mathlib.Core.Option.{some-injective}
use sih.Prelude.{
  Bool, List, Option, Option-cases, [], ap, arith, false, inl, inr, length, length-append, none,
  refl, some, sym, true, ℕ, ◌++◌, ◌+◌, ◌<◌, ◌∙◌, ◌∷◌, ◌≡◌, ◌≢◌, ◌≤◌, ◌⊎◌,
}
use sih.Ingestion.Metadata.{Metadata, PriceEntry, entry_of}
use sih.Ingestion.Pages.{Fetched, fetch_error, fetched, raised}
use sih.Ingestion.Runner.{Tally, key_failed, tally_entry, tally_key, tally_keys, tally_records}
use sih.Prices.Names.{Text}
use sih.Prices.Validator.{Floats, RawPriceRecord}

-- One more element, or a list in front: none when either is none.
abbrev pub cons_both : {A : Type 0} → Option A → Option (List A) → Option (List A)
cons_both none l = none
cons_both (some a) none = none
cons_both (some a) (some l) = some (a ∷ l)

abbrev pub append_both : {A : Type 0} → Option (List A) → Option (List A) → Option (List A)
append_both none l = none
append_both (some k) none = none
append_both (some k) (some l) = some (k ++ l)

cons_both-some :
    {A : Type 0} (o : Option A) (m : Option (List A)) (l : List A)
    → cons_both o m ≡ some l
    → (a : A) × (k : List A) × (o ≡ some a) × (m ≡ some k) × (l ≡ a ∷ k)
cons_both-some none m l h = cc
cons_both-some (some a) none l h = cc
cons_both-some (some a) (some k) l h = (a, k, refl, refl, sym (some-injective _ _ h))

append_both-some :
    {A : Type 0} (o m : Option (List A)) (l : List A)
    → append_both o m ≡ some l
    → (j : List A) × (k : List A) × (o ≡ some j) × (m ≡ some k) × (l ≡ j ++ k)
append_both-some none m l h = cc
append_both-some (some j) none l h = cc
append_both-some (some j) (some k) l h = (j, k, refl, refl, sym (some-injective _ _ h))

append_both-none :
    {A : Type 0} (o m : Option (List A)) → append_both o m ≡ none → (o ≡ none) ⊎ (m ≡ none)
append_both-none none m h = inl refl
append_both-none (some j) none h = inr refl
append_both-none (some j) (some k) h = cc

some_not_none : {A : Type 0} {a : A} → some a ≢ none
some_not_none h = cc

snoc_not_empty : {A : Type 0} (l : List A) (a : A) → l ++ a ∷ [] ≢ []
snoc_not_empty [] a h = cc
snoc_not_empty (x ∷ l) a h = cc

later_none : {A : Type 0} (a : A) (m : Option (List A)) → cons_both (some a) m ≡ none → m ≡ none
later_none a none h = refl
later_none a (some l) h = cc

module _ (F : Floats) (is_space : ℕ → Bool) (lower : Text → Text) (meta : Metadata F) where
  -- All rows of the records, if none is rejected.
  abbrev pub strict_entries : List (RawPriceRecord F) → Option (List (PriceEntry F))
  strict_entries [] = some []
  strict_entries (r ∷ rs) = cons_both (entry_of F is_space lower meta r) (strict_entries rs)

  -- The rows of the records fetched for a key.
  abbrev pub strict_key : Fetched (List (RawPriceRecord F)) → Option (List (PriceEntry F))
  strict_key (fetched found) = strict_entries found
  strict_key fetch_error = none
  strict_key raised = none

  abbrev pub strict_keys :
      (Text → Fetched (List (RawPriceRecord F))) → List Text → Option (List (PriceEntry F))
  strict_keys fetch [] = some []
  strict_keys fetch (k ∷ ks) = append_both (strict_key (fetch k)) (strict_keys fetch ks)

  -- The tally with more rows, as many as were seen.
  abbrev pub grown : Tally F is_space lower → List (PriceEntry F) → Tally F is_space lower
  grown t es = record t { seen = t.seen + length es; entries = t.entries ++ es }

  entries_some :
      (rs : List (RawPriceRecord F)) (es : List (PriceEntry F)) (t : Tally F is_space lower)
      → strict_entries rs ≡ some es
      → (tally_records F is_space lower meta rs t ≡ record t { entries = t.entries ++ es })
        × (length es ≡ length rs)
  unfolding tally_records tally_entry
  entries_some [] es t h =
      let none_here : es ≡ [] = sym (some-injective _ _ h) in
      rw none_here (ap (λ l. record t { entries = l }) (sym (append-nil t.entries)), refl)
  entries_some (r ∷ rs) es t h =
      let (row, more, e, e', l) =
        cons_both-some (entry_of F is_space lower meta r) (strict_entries rs) es h in
      let (tallied, as_many) =
        entries_some rs more (record t { entries = t.entries ++ row ∷ [] }) e' in
      rw (e, l)
        (
          tallied ∙ ap (λ l. record t { entries = l }) (append_assoc t.entries (row ∷ []) more),
          omega (arith, as_many),
        )

  -- A rejected record is counted.
  abbrev Counted : List (RawPriceRecord F) → Tally F is_space lower → Type 0
  Counted rs t =
      let t' = tally_records F is_space lower meta rs t in
      (t.rejected ≤ t'.rejected)
      × (t'.problems ≡ t.problems)
      × (strict_entries rs ≡ none → t.rejected < t'.rejected)

  entry_none :
      (o : Option (PriceEntry F)) (rs : List (RawPriceRecord F)) (t : Tally F is_space lower)
      → ((u : Tally F is_space lower) → Counted rs u)
      → let t' = tally_records F is_space lower meta rs (tally_entry F is_space lower meta o t) in
        (t.rejected ≤ t'.rejected)
        × (t'.problems ≡ t.problems)
        × (cons_both o (strict_entries rs) ≡ none → t.rejected < t'.rejected)
  unfolding tally_entry
  entry_none none rs t ih =
      let (more, same, worse) = ih (record t { rejected = t.rejected + 1 }) in
      (omega (arith, more), same, (λ h. omega (arith, more)))
  entry_none (some row) rs t ih =
      let (more, same, worse) = ih (record t { entries = t.entries ++ row ∷ [] }) in
      (more, same, (λ h. worse (later_none row (strict_entries rs) h)))

  pub entries_none : (rs : List (RawPriceRecord F)) (t : Tally F is_space lower) → Counted rs t
  unfolding tally_records
  entries_none [] t = (omega arith, refl, (λ h. cc))
  entries_none (r ∷ rs) t =
      entry_none (entry_of F is_space lower meta r) rs t (λ u. entries_none rs u)

  tally_eq :
      (t : Tally F is_space lower) {n n' : ℕ} {l l' : List (PriceEntry F)}
      → n ≡ n'
      → l ≡ l'
      → ◌≡◌ {A = Tally F is_space lower}
          (record t { seen = n; entries = l })
          (record t { seen = n'; entries = l' })
  tally_eq t {n' = n'} {l = l} e e' =
      ap (λ x. record t { seen = x; entries = l }) e
      ∙ ap (λ x. record t { seen = n'; entries = x }) e'

  key_some :
      (f : Fetched (List (RawPriceRecord F))) (es : List (PriceEntry F))
      (t : Tally F is_space lower) (next : Tally F is_space lower → Tally F is_space lower × Bool)
      → strict_key f ≡ some es
      → tally_key F is_space lower meta f t next ≡ next (grown t es)
  unfolding tally_key
  key_some fetch_error es t next h = cc
  key_some raised es t next h = cc
  key_some (fetched found) es t next h =
      let (tallied, as_many) =
        entries_some found es (record t { seen = t.seen + length found }) h in
      ap next (tallied ∙ tally_eq t (omega (arith, as_many)) refl)

  -- Where all is fetched and accepted, the loop over the keys keeps all rows.
  pub keys_some :
      (fetch : Text → Fetched (List (RawPriceRecord F))) (ks : List Text) (es : List (PriceEntry F))
      (t : Tally F is_space lower)
      → strict_keys fetch ks ≡ some es
      → tally_keys F is_space lower meta fetch ks t ≡ (grown t es, true)
  unfolding tally_keys
  keys_some fetch [] es t h =
      let none_here : es ≡ [] = sym (some-injective _ _ h) in
      rw none_here (ap (λ u. (u, true)) (tally_eq t (omega arith) (sym (append-nil t.entries))))
  keys_some fetch (k ∷ ks) es t h =
      let (j, more, e, e', l) =
        append_both-some (strict_key (fetch k)) (strict_keys fetch ks) es h in
      rw l (
        key_some (fetch k) j t _ e
        ∙ keys_some fetch ks more (grown t j) e'
        ∙ ap (λ u. (u, true))
            (tally_eq t (omega (arith, length-append j more)) (append_assoc t.entries j more)))

  -- Something went wrong: an exception, a record that was rejected, or a key that failed.
  abbrev pub Troubled : Tally F is_space lower × Bool → Type 0
  Troubled (t, through) = (through ≡ false) ⊎ (0 < t.rejected) ⊎ (t.problems ≢ [])

  abbrev pub IsTroubled : Tally F is_space lower → Type 0
  IsTroubled t = (0 < t.rejected) ⊎ (t.problems ≢ [])

  key-Troubled :
      (f : Fetched (List (RawPriceRecord F))) (t : Tally F is_space lower)
      (next : Tally F is_space lower → Tally F is_space lower × Bool)
      → ((u : Tally F is_space lower) → IsTroubled u → Troubled (next u))
      → IsTroubled t ⊎ (strict_key f ≡ none)
      → Troubled (tally_key F is_space lower meta f t next)
  unfolding tally_key
  key-Troubled fetch_error t next k h = k _ (inr (snoc_not_empty t.problems key_failed))
  key-Troubled raised t next k h = inl refl
  key-Troubled (fetched found) t next k h =
      let (more, same, worse) = entries_none found (record t { seen = t.seen + length found }) in
      elim h [
        | inl (inl some_rejected) ↦ k _ (inl (omega (arith, more, some_rejected)))
        | inl (inr problems) ↦ k _ (inr (λ e. problems (sym same ∙ e)))
        | inr e ↦ k _ (inl (omega (arith, worse e)))
      ]

  keys-Troubled :
      (fetch : Text → Fetched (List (RawPriceRecord F))) (ks : List Text)
      (t : Tally F is_space lower)
      → IsTroubled t
      → Troubled (tally_keys F is_space lower meta fetch ks t)
  unfolding tally_keys
  keys-Troubled fetch [] t h = inr h
  keys-Troubled fetch (k ∷ ks) t h =
      key-Troubled (fetch k) t _ (λ u e. keys-Troubled fetch ks u e) (inl h)

  pub keys_none :
      (fetch : Text → Fetched (List (RawPriceRecord F))) (ks : List Text)
      (t : Tally F is_space lower)
      → strict_keys fetch ks ≡ none
      → Troubled (tally_keys F is_space lower meta fetch ks t)
  unfolding tally_keys tally_key
  keys_none fetch [] t h = cc
  keys_none fetch (k ∷ ks) t h = elim (Option-cases (strict_key (fetch k))) [
    | inl e ↦ key-Troubled (fetch k) t _ (λ u e'. keys-Troubled fetch ks u e') (inr e)
    | inr (es, e) ↦
        let rest : strict_keys fetch ks ≡ none =
          elim (append_both-none (strict_key (fetch k)) (strict_keys fetch ks) h) [
            | inl e' ↦ absurd (some_not_none (sym e ∙ e'))
            | inr e' ↦ e'
          ] in
        subst Troubled (sym (key_some (fetch k) es t _ e)) (keys_none fetch ks (grown t es) rest)
  ]
