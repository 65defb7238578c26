-- ===== src/Market/Logistics/Bookings.antt =====
-- The booking endpoints keep every option within its capacity.
use native.Mathlib.Nat.{le_refl}
use sih.Prelude.{
  All, All-map, Bool-cases, List, [], arith, false, filter, inl, inr, ltb, none, not, or_else, some,
  sym, true, ℕ, ◌&&◌, ◌++◌, ◌==◌, ◌∙◌, ◌∷◌, ◌≡◌, ◌⊎◌,
}
use sih.Store.{
  Booking, BookingStatus, Client, LogisticsOption, Reads, answers, err, ok, raises, then_goes_on,
  then_raises,
}
use sih.Store.Keys.{List-cases, UniqueBy, first_passes, only_key}
use sih.Store.Laws.{Laws, update_where}
use sih.Market.Logistics.{
  LogisticsBookCreate, active_option, active_option_is, check_status, create_booking,
  is_active_status, is_completed, new_booking, own_booking, own_lot, set_booking, store_booking,
  update_booking, write_booking,
}
use sih.Market.Logistics.Capacity.{
  AllFit, BookingIds, Checked, Checked-AllFit, OptionIds, RoomFor-mono, WithinCapacity,
  assert_capacity_cases, booked, booked-snoc, booked-update, booked_exclude-le,
}
use sih.Market.Lots.{is_gone, owns_lot}

module _ {Db : Type 0} (c : Client Db) (laws : Laws c) where
  own_lot-Reads : (lot u : ℕ) (d : Db) → Reads d (own_lot c lot u d)
  unfolding own_lot
  own_lot-Reads lot u d = elim (List-cases (c.lots.select (λ l. l.id == lot) d)) [
    | inl absent ↦ raises 404 (ground (arith, absent))
    | inr (l, ls, found) ↦ elim (Bool-cases (owns_lot u l)) [
      | inr foreign ↦ raises 404 (ground (arith, found, foreign))
      | inl mine ↦ elim (Bool-cases (is_gone l.status)) [
        | inl gone ↦ raises 409 (ground (arith, found, mine, gone))
        | inr here_still ↦ answers l (ground (arith, found, mine, here_still))
      ]
    ]
  ]

  -- A request to book is refused before anything is written, or there is room and it is stored.
  abbrev pub Books : LogisticsBookCreate → ℕ → ℕ → Db → Type 0
  Books body u n d =
      (opt : LogisticsOption) × (qty : ℕ) × Checked c laws body.logistics_id qty none d
      × (create_booking c body u n d ≡ store_booking c (new_booking body opt qty u n) d)

  pub create_booking_cases :
      (body : LogisticsBookCreate) (u n : ℕ) (d : Db)
      → ((e : ℕ) × (create_booking c body u n d ≡ (err e, d))) ⊎ Books body u n d
  unfolding create_booking active_option
  create_booking_cases body u n d = elim (own_lot-Reads body.lot_id u d) [
    | raises e refused ↦ inl (e, ground (arith, refused))
    | answers lot mine ↦
        let qty = or_else body.quantity_qtl lot.quantity_qtl in
        elim (List-cases (c.options.select (active_option_is body.logistics_id) d)) [
          | inl absent ↦ inl (404, ground (arith, mine, absent))
          | inr (opt, others, found) ↦ elim (Bool-cases (ltb lot.quantity_qtl qty)) [
            | inl over ↦ inl (400, ground (arith, mine, found, over))
            | inr within ↦ elim (assert_capacity_cases c laws opt qty none d) [
              | inl full ↦ inl (409, ground (arith, mine, found, within, full))
              | inr (passes, room) ↦ inr (
                opt,
                qty,
                record {
                  opt = opt;
                  others = others;
                  found = sym (laws.options.selects (active_option_is body.logistics_id) d) ∙ found;
                  room = room;
                },
                ground (arith, mine, found, within, passes),
              )
            ]
          ]
        ]
  ]

  stored-Within :
      (body : LogisticsBookCreate) (opt : LogisticsOption) (qty u n : ℕ) (d : Db)
      → Checked c laws body.logistics_id qty none d
      → OptionIds c laws d
      → WithinCapacity c laws d
      → WithinCapacity c laws (store_booking c (new_booking body opt qty u n) d).1
  unfolding store_booking
  stored-Within body opt qty u n d room ids h =
      let b = new_booking body opt qty u n in
      elim (laws.bookings.inserts b d) [
        | inr (refused, same) ↦ rw same h
        | inl (returned, stored) ↦ rw stored (
            Checked-AllFit c laws body.logistics_id qty none d ((laws.view d).bookings ++ b ∷ [])
              room ids (λ j. ground (arith, booked-snoc j (laws.view d).bookings b))
              (λ j. le_refl _) h)
      ]

  -- A booking is only stored when the option has room for it: every option stays within its
  -- capacity, on every branch and error of the handler, when the ids of the options are unique.
  pub create_booking-WithinCapacity :
      (body : LogisticsBookCreate) (u n : ℕ) (d : Db)
      → OptionIds c laws d
      → WithinCapacity c laws d
      → WithinCapacity c laws (create_booking c body u n d).1
  create_booking-WithinCapacity body u n d ids h = elim (create_booking_cases body u n d) [
    | inl (e, refused) ↦ rw refused h
    | inr (opt, qty, room, stores) ↦ rw stores (stored-Within body opt qty u n d room ids h)
  ]

  -- What the check of a new status leaves open: an inactive status, or room for the booking.
  pub check_status_cases :
      (s : BookingStatus) (cur : Booking) (i : ℕ) (d : Db)
      → ((e : ℕ) × (check_status c s cur i d ≡ (err e, d)))
        ⊎ (check_status c s cur i d ≡ (ok tt, d))
          × ((is_active_status s ≡ false)
              ⊎ Checked c laws cur.logistics_id cur.quantity_qtl (some i) d)
  unfolding check_status active_option
  check_status_cases s cur i d = elim (Bool-cases (is_active_status s)) [
    | inr idle ↦ inr (ground (arith, idle), inl idle)
    | inl active ↦ elim (List-cases (c.options.select (active_option_is cur.logistics_id) d)) [
      | inl absent ↦ inl (404, ground (arith, active, absent))
      | inr (opt, others, found) ↦
          elim (assert_capacity_cases c laws opt cur.quantity_qtl (some i) d) [
            | inl full ↦ inl (409, ground (arith, active, found, full))
            | inr (passes, room) ↦ inr (
              ground (arith, active, found, passes),
              inr (record {
                opt = opt;
                others = others;
                found = sym (laws.options.selects (active_option_is cur.logistics_id) d) ∙ found;
                room = room;
              }),
            )
          ]
    ]
  ]

  write_booking-view :
      (s : BookingStatus) (i u : ℕ) (d : Db)
      → laws.view (write_booking c s i u d).1 ≡ record (laws.view d) {
        bookings = update_where (own_booking i u) (set_booking s) (laws.view d).bookings;
      }
  unfolding write_booking
  write_booking-view s i u d = laws.bookings.updates (own_booking i u) (set_booking s) d

  -- Without the check: an inactive status adds nothing to any option.
  AllFit-idle :
      (i u : ℕ) (s : BookingStatus) (cur : Booking) (bs : List Booking) (os : List LogisticsOption)
      → is_active_status s ≡ false
      → UniqueBy (λ b. b.id) bs
      → All (λ b. (b.id == i) ≡ true → b ≡ cur) bs
      → own_booking i u cur ≡ true
      → AllFit bs os
      → AllFit (update_where (own_booking i u) (set_booking s) bs) os
  AllFit-idle i u s cur bs os idle unique only mine h =
      All-map
        (λ o fits.
          RoomFor-mono o.capacity_qtl (booked o.id none bs) _ 0 0
            (ground (
              arith,
              idle,
              booked-update o.id i u s cur bs unique only mine,
              booked_exclude-le o.id i bs,
            ))
            fits)
        os h

  -- A status is only written when the option has room for it: every option stays within its
  -- capacity, on every branch and error of the handler, when ids are unique.
  pub update_booking-WithinCapacity :
      (s : BookingStatus) (i u : ℕ) (d : Db)
      → OptionIds c laws d
      → BookingIds c laws d
      → WithinCapacity c laws d
      → WithinCapacity c laws (update_booking c s i u d).1
  unfolding update_booking
  update_booking-WithinCapacity s i u d option_ids ids h =
      elim (List-cases (c.bookings.select (own_booking i u) d)) [
        | inl absent ↦ rw absent h
        | inr (cur, rest, found) ↦
            let bs = (laws.view d).bookings in
            let rows : filter (own_booking i u) bs ≡ cur ∷ rest =
              sym (laws.bookings.selects (own_booking i u) d) ∙ found in
            let only =
              only_key (λ b. b.id) i (own_booking i u) (booking_id i u) bs cur rest ids rows in
            let mine : own_booking i u cur ≡ true =
              first_passes (own_booking i u) bs cur rest rows in
            elim (Bool-cases (is_completed cur.status && not (is_completed s))) [
              | inl final ↦ rw (found, final) h
              | inr changes ↦ elim (check_status_cases s cur i d) [
                | inl (e, refused) ↦
                    rw
                      (
                        found,
                        changes,
                        then_raises (check_status c s cur i) (write_booking c s i u) refused,
                      )
                      h
                | inr (passes, inl idle) ↦
                    rw
                      (
                        found,
                        changes,
                        then_goes_on (check_status c s cur i) (write_booking c s i u) passes,
                        write_booking-view s i u d,
                      )
                      (AllFit-idle i u s cur bs (laws.view d).options idle ids only mine h)
                | inr (passes, inr room) ↦
                    rw
                      (
                        found,
                        changes,
                        then_goes_on (check_status c s cur i) (write_booking c s i u) passes,
                        write_booking-view s i u d,
                      )
                      (Checked-AllFit c laws cur.logistics_id cur.quantity_qtl (some i) d _ room
                        option_ids (λ j. ground (arith, booked-update j i u s cur bs ids only mine))
                        (λ j. booked_exclude-le j i bs) h)
              ]
            ]
      ]
    where
      booking_id : (i u : ℕ) (b : Booking) → own_booking i u b ≡ true → b.id ≡ i
      booking_id i u b t = ground arith
