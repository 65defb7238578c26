-- ===== src/Advice/Lot/Next.antt =====
-- The next step that goes with an advice.
use sih.Prelude.{
  ==_iff, Bool-cases, List, Option, [], ap, arith, false, filter, head?, inl, inr, is_value, length,
  length-take, none, refl, some, sym, true, ℕ, ◌==◌, ◌∙◌, ◌∷◌, ◌≡◌, ◌≢◌, ◌≤◌, ◌⊎◌,
}
use sih.Store.{Booking, Client, LogisticsOption, Lot, err, ok}
use sih.Store.Keys.{List-cases}
use sih.Store.Laws.{Laws}
use sih.Advice.Lot.{
  LotAdvice, action_of, book_storage, book_transport, godown_id, has_storage, has_transport,
  load_lot_and_profile, logistics_next_step, lot_advice, lot_advice_for, ranked_for, storage_booked,
  storage_of, transport_booked, transport_id, window_of,
}
use sih.Advice.Window.{
  Fetched, Godown, PriceRow, SaleWindow, compute_sale_window, is_empty, window_from,
}
use sih.Advice.Window.Promises.{window_from_lem}
use sih.Market.Logistics.{SaleAction, hold, sell_now, wait}
use sih.Market.Lots.{get_lot, owns_lot}
use sih.Matching.{MatchRow, place_of, rank_buyers}

-- The lot is missing, or is neither the user's nor the user's as an FPO.
abbrev pub IsRefused : ℕ → List Lot → Type 0
IsRefused user_id rows =
    (rows ≡ [])
    ⊎ ((l : Lot) × (rest : List Lot) × (rows ≡ l ∷ rest)
        × (l.user_id ≢ user_id)
        × (l.fpo_id ≢ some user_id))

-- The lot is the user's, or the user's as an FPO.
abbrev pub IsServed : ℕ → List Lot → Type 0
IsServed user_id rows =
    (l : Lot) × (rest : List Lot) × (rows ≡ l ∷ rest)
    × ((l.user_id ≡ user_id) ⊎ (l.fpo_id ≡ some user_id))

is_value-some : (o : Option ℕ) (u : ℕ) → is_value o u ≡ true → o ≡ some u
is_value-some none u h = cc
is_value-some (some a) u h = ap some ((==_iff a u).0 h)

not_user : (u : ℕ) (l : Lot) → owns_lot u l ≡ false → l.user_id ≢ u
not_user u l h e = ground (arith, h, e)

not_fpo : (u : ℕ) (l : Lot) → owns_lot u l ≡ false → l.fpo_id ≢ some u
not_fpo u l h e = elim (Bool-cases (l.user_id == u)) [
  | inl t ↦ ground (arith, h, t)
  | inr f ↦
      let v : is_value l.fpo_id u ≡ false = ground (arith, h, f) in
      let w : is_value (some u) u ≡ false = rw e at v in ground (arith, w)
]

owned : (u : ℕ) (l : Lot) → owns_lot u l ≡ true → (l.user_id ≡ u) ⊎ (l.fpo_id ≡ some u)
owned u l h = elim (Bool-cases (l.user_id == u)) [
  | inl t ↦ inl (ground (arith, t))
  | inr f ↦ inr (is_value-some l.fpo_id u (ground (arith, h, f)))
]

module _ {Db : Type 0} (c : Client Db) (laws : Laws c) (haversine_km : ℕ × ℕ → ℕ × ℕ → ℕ) where
  -- To hold: the storage is booked, or a godown of the window is to be booked, the first one listed.
  abbrev pub IsStorageStep : LotAdvice → Type 0
  IsStorageStep a =
      ((has_storage a.bookings ≡ true) × (a.next_step ≡ some storage_booked))
      ⊎ ((has_storage a.bookings ≡ false)
          × ((g : Godown) × (gs : List Godown) × (storage_of a.sale_window ≡ g ∷ gs)
              × (a.next_step ≡ some (book_storage (some g.row.id)))))

  -- To sell: the transport is booked, or it is to be booked.
  abbrev pub IsTransportStep : List LogisticsOption → LotAdvice → Type 0
  IsTransportStep options a =
      ((has_transport a.bookings ≡ true) × (a.next_step ≡ some transport_booked))
      ⊎ ((has_transport a.bookings ≡ false)
          × (a.next_step ≡ some (book_transport (transport_id options))))

  abbrev pub IsAdvice : List LogisticsOption → LotAdvice → Type 0
  IsAdvice options a =
      (length a.matches ≤ 5)
      × (a.action ≡ hold → IsStorageStep a)
      × (a.action ≡ sell_now → IsTransportStep options a)
      × (a.action ≡ wait → a.next_step ≡ none)

  full_list :
      {A : Type 0} (l : List A) → is_empty l ≡ false → (x : A) × (xs : List A) × (l ≡ x ∷ xs)
  full_list [] h = cc
  full_list (x ∷ xs) h = (x, xs, refl)

  latest_cases :
      (f : Fetched) (market : Option ℕ) (origin : Option (ℕ × ℕ)) (prices : List PriceRow)
      → let from_latest : List PriceRow → Option SaleWindow = λ l. elim l [
        | [] ↦ none
        | latest ∷ _ ↦ some (window_from haversine_km market origin f latest)
      ] in
        (from_latest prices ≡ none)
        ⊎ ((p : PriceRow) × (from_latest prices
              ≡ some (window_from haversine_km market origin f p)))
  latest_cases f market origin [] = inl refl
  latest_cases f market origin (p ∷ ps) = inr (p, refl)

  -- An advice to hold comes with a godown.
  window_storage :
      (f : Fetched) (market : Option ℕ) (origin : Option (ℕ × ℕ))
      → let w = compute_sale_window haversine_km market origin f in
        action_of w ≡ hold → (g : Godown) × (gs : List Godown) × (storage_of w ≡ g ∷ gs)
  unfolding compute_sale_window
  window_storage f market origin h = elim (latest_cases f market origin f.prices) [
    | inl bare ↦ let clash : wait ≡ hold = sym (ap action_of bare) ∙ h in cc
    | inr (p, e) ↦
        let w = window_from haversine_km market origin f p in
        let held : w.recommendation ≡ hold = sym (ap action_of e) ∙ h in
        let (g, gs, listed) =
          full_list w.storage_options
            ((window_from_lem haversine_km market origin f p).0.0 held).0 in
        (g, gs, ap storage_of e ∙ listed)
  ]

  -- The step for an action that is known.
  step_of :
      {action : SaleAction} (w : Option SaleWindow) (stored : List Booking)
      (options : List LogisticsOption)
      → action_of w ≡ action
      → logistics_next_step (action_of w) w stored options
        ≡ logistics_next_step action w stored options
  step_of w stored options e = ap (λ a. logistics_next_step a w stored options) e

  storage_step :
      (w : Option SaleWindow) (stored : List Booking) (options : List LogisticsOption) (g : Godown)
      (gs : List Godown)
      → storage_of w ≡ g ∷ gs
      → let told = logistics_next_step hold w stored options in
        ((has_storage stored ≡ true) × (told ≡ some storage_booked))
        ⊎ ((has_storage stored ≡ false) × (told ≡ some (book_storage (some g.row.id))))
  unfolding logistics_next_step
  storage_step w stored options g gs e = elim (Bool-cases (has_storage stored)) [
    | inl t ↦ inl (t, rw t refl)
    | inr f ↦ inr (f, rw f (ap (λ l. some (book_storage (godown_id l))) e))
  ]

  transport_step :
      (w : Option SaleWindow) (stored : List Booking) (options : List LogisticsOption)
      → let told = logistics_next_step sell_now w stored options in
        ((has_transport stored ≡ true) × (told ≡ some transport_booked))
        ⊎ ((has_transport stored ≡ false) × (told ≡ some (book_transport (transport_id options))))
  unfolding logistics_next_step
  transport_step w stored options = elim (Bool-cases (has_transport stored)) [
    | inl t ↦ inl (t, rw t refl)
    | inr f ↦ inr (f, rw f refl)
  ]

  lot_advice_for-IsAdvice :
      (w : Option SaleWindow) (ranked : List MatchRow) (booked : List Booking)
      (options : List LogisticsOption)
      → (action_of w ≡ hold → (g : Godown) × (gs : List Godown) × (storage_of w ≡ g ∷ gs))
      → IsAdvice options (lot_advice_for c haversine_km w ranked booked options)
  unfolding lot_advice_for logistics_next_step
  lot_advice_for-IsAdvice w ranked stored options listed = (
    length-take 5 ranked,
    (λ e.
        let (g, gs, has_godown) = listed e in
        elim (storage_step w stored options g gs has_godown) [
          | inl (t, told) ↦ inl (t, step_of w stored options e ∙ told)
          | inr (f, told) ↦ inr (f, (g, gs, has_godown, step_of w stored options e ∙ told))
        ]),
    (λ e. elim (transport_step w stored options) [
      | inl (t, told) ↦ inl (t, step_of w stored options e ∙ told)
      | inr (f, told) ↦ inr (f, step_of w stored options e ∙ told)
    ]),
    step_of w stored options,
  )

  -- An advice on a lot only reads. It is refused with 404 when the lot is missing, or belongs neither
  -- to the caller nor to the caller as an FPO; otherwise the lot is the caller's in one of the two
  -- ways, the advice has at most five buyers, and the next step goes with the action. To hold: the
  -- storage is booked already, or the step names a godown to book, the first one of the sale window,
  -- which then lists one. To sell: the transport is booked already, or is to be booked. To wait: no
  -- step.
  pub lot_advice_lem :
      (market_data : ℕ → Fetched) (options : List LogisticsOption) (lot_id user_id : ℕ) (d : Db)
      → let end = lot_advice c haversine_km market_data options lot_id user_id d in
        let rows = filter (λ (l : Lot). l.id == lot_id) (laws.view d).lots in
        (IsRefused user_id rows × (end ≡ (err 404, d)))
        ⊎ (IsServed user_id rows × ((a : LotAdvice) × (end ≡ (ok a, d)) × IsAdvice options a))
  unfolding lot_advice load_lot_and_profile ranked_for get_lot
  lot_advice_lem market_data options lot_id user_id d =
      let read = laws.lots.selects (λ x. x.id == lot_id) d in
      elim (List-cases (c.lots.select (λ x. x.id == lot_id) d)) [
        | inl absent ↦ inl (inl (sym read ∙ absent), ground (arith, absent))
        | inr (l, rest, found) ↦ elim (Bool-cases (owns_lot user_id l)) [
          | inr foreign ↦ inl (
            inr (l, rest, sym read ∙ found, not_user user_id l foreign, not_fpo user_id l foreign),
            ground (arith, found, foreign),
          )
          | inl mine ↦
              let profile = head? (c.profiles.select (λ p. p.id == user_id) d) in
              let w = window_of c haversine_km market_data (l, profile) in
              let ranked =
                rank_buyers haversine_km l profile (c.buyers.select (λ b. b.verified) d) 10 in
              let booked = c.bookings.select (λ b. b.lot_id == lot_id) d in
              inr (
                (l, rest, sym read ∙ found, owned user_id l mine),
                (
                  lot_advice_for c haversine_km w ranked booked options,
                  ground (arith, found, mine),
                  lot_advice_for-IsAdvice w ranked booked options
                      (window_storage (market_data l.commodity_id) l.market_id (place_of profile)),
                ),
              )
        ]
      ]
