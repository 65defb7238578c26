-- ===== src/Market/Logistics/Capacity.antt =====
-- No booking takes an option beyond its capacity.
use sih.Prelude.{
  ==_iff, All, Bool-cases, List, Option, Option-cases, [], ap, arith, filter, if◌then◌else◌, inl,
  inr, ltb, none, refl, some, true, ℕ, ◌++◌, ◌+◌, ◌==◌, ◌∷◌, ◌≡◌, ◌≢◌, ◌≤◌, ◌⊎◌,
}
use sih.Store.{Booking, BookingStatus, Client, LogisticsOption, err, ok}
use sih.Store.Keys.{All-filter_head, UniqueBy, only_key}
use sih.Store.Laws.{Laws, update_where}
use sih.Market.Logistics.{
  active_option_is, assert_capacity, books, counted, own_booking, set_booking, sum_booked,
}

-- The active bookings of an option, the one excluded left out.
abbrev pub booked : ℕ → Option ℕ → List Booking → ℕ
booked k exclude bs = sum_booked exclude (filter (books k) bs)

pub booked-snoc :
    (k : ℕ) (bs : List Booking) (b : Booking)
    → booked k none (bs ++ b ∷ []) ≡ booked k none bs + (if books k b then counted b else 0)
unfolding sum_booked
booked-snoc k [] b = ground arith
booked-snoc k (x ∷ xs) b = ground (arith, booked-snoc k xs b)

pub booked_exclude-le : (k i : ℕ) (bs : List Booking) → booked k (some i) bs ≤ booked k none bs
unfolding sum_booked
booked_exclude-le k i [] = omega arith
booked_exclude-le k i (x ∷ xs) = ground (arith, booked_exclude-le k i xs)

-- Where no row has the id, the update changes nothing and nothing is left out.
booked-update_absent :
    (k i u : ℕ) (s : BookingStatus) (bs : List Booking)
    → All (λ b. i ≢ b.id) bs
    → booked k none (update_where (own_booking i u) (set_booking s) bs) ≡ booked k (some i) bs
unfolding sum_booked
booked-update_absent k i u s [] h = refl
booked-update_absent k i u s (x ∷ xs) h = ground (arith, h.0, booked-update_absent k i u s xs h.1)

-- After a booking has changed its status the sum is at most that without it, plus its own part.
pub booked-update :
    (k i u : ℕ) (s : BookingStatus) (cur : Booking) (bs : List Booking)
    → UniqueBy (λ b. b.id) bs
    → All (λ b. (b.id == i) ≡ true → b ≡ cur) bs
    → own_booking i u cur ≡ true
    → booked k none (update_where (own_booking i u) (set_booking s) bs)
      ≤ booked k (some i) bs + (if books k cur then counted (set_booking s cur) else 0)
unfolding sum_booked
booked-update k i u s cur [] un only o = omega arith
booked-update k i u s cur (x ∷ xs) un only o = elim (Bool-cases (x.id == i)) [
  | inl t ↦
      let same : x ≡ cur = only.0 t in
      let absent : All (λ (b : Booking). i ≢ b.id) xs = rw ((==_iff x.id i).0 t) at un.0 in
      ground (arith, t, same, o, booked-update_absent k i u s xs absent)
  | inr f ↦ ground (arith, f, booked-update k i u s cur xs un.1 only.1 o)
]

-- There is room for the extra quantity beside what is booked.
abbrev pub RoomFor : Option ℕ → ℕ → ℕ → Type 0
RoomFor none used extra = Unit
RoomFor (some cap) used extra = used + extra ≤ cap

-- The active bookings of an option fit into its capacity.
abbrev pub Fits : List Booking → LogisticsOption → Type 0
Fits bs o = RoomFor o.capacity_qtl (booked o.id none bs) 0

abbrev pub AllFit : List Booking → List LogisticsOption → Type 0
AllFit bs os = All (Fits bs) os

pub RoomFor-mono :
    (cap : Option ℕ) (a b x y : ℕ) → b + y ≤ a + x → RoomFor cap a x → RoomFor cap b y
RoomFor-mono none a b x y h r = tt
RoomFor-mono (some c) a b x y h r = omega arith

-- A change that adds to one option at most what it has room for keeps every option within its
-- capacity.
AllFit-change :
    (k extra : ℕ) (before after : List Booking) (opt : LogisticsOption) (os : List LogisticsOption)
    → ((j : ℕ) → booked j none after ≤ booked j none before + (if k == j then extra else 0))
    → RoomFor opt.capacity_qtl (booked opt.id none after) 0
    → All (λ o. (o.id == k) ≡ true → o ≡ opt) os
    → AllFit before os
    → AllFit after os
AllFit-change k extra before after opt [] grows room only h = tt
AllFit-change k extra before after opt (o ∷ os) grows room only h = (
  elim (Bool-cases (o.id == k)) [
    | inl t ↦ rw (only.0 t) room
    | inr f ↦
        RoomFor-mono o.capacity_qtl (booked o.id none before) (booked o.id none after) 0 0
          (ground (arith, f, grows o.id)) h.0
  ],
  AllFit-change k extra before after opt os grows room only.1 h.1,
)

module _ {Db : Type 0} (c : Client Db) (laws : Laws c) where
  pub assert_capacity_cases :
      (opt : LogisticsOption) (extra : ℕ) (exclude : Option ℕ) (d : Db)
      → (assert_capacity c opt extra exclude d ≡ (err 409, d))
        ⊎ (assert_capacity c opt extra exclude d ≡ (ok tt, d))
          × RoomFor opt.capacity_qtl (booked opt.id exclude (laws.view d).bookings) extra
  unfolding assert_capacity
  assert_capacity_cases opt extra exclude d = elim (Option-cases opt.capacity_qtl) [
    | inl unlimited ↦ inr (ground (arith, unlimited), rw unlimited tt)
    | inr (cap, limited) ↦
        let used = booked opt.id exclude (laws.view d).bookings in
        let read = ap (sum_booked exclude) (laws.bookings.selects (books opt.id) d) in
        elim (Bool-cases (ltb cap (used + extra))) [
          | inl over ↦ inl (ground (arith, limited, read, over))
          | inr within ↦
              inr (ground (arith, limited, read, within), rw limited (ground (arith, within)))
        ]
  ]

  -- The active option that a booking is checked against.
  pub record Checked (k extra : ℕ) (exclude : Option ℕ) (d : Db) : Type 0 where
    pub opt : LogisticsOption
    pub others : List LogisticsOption
    pub found : filter (active_option_is k) (laws.view d).options ≡ opt ∷ others
    pub room : RoomFor opt.capacity_qtl (booked opt.id exclude (laws.view d).bookings) extra

  option_id : (k : ℕ) (o : LogisticsOption) → active_option_is k o ≡ true → o.id ≡ k
  option_id k o h = ground arith

  abbrev pub OptionIds : Db → Type 0
  OptionIds d = UniqueBy (λ o. o.id) (laws.view d).options

  abbrev pub BookingIds : Db → Type 0
  BookingIds d = UniqueBy (λ b. b.id) (laws.view d).bookings

  abbrev pub WithinCapacity : Db → Type 0
  WithinCapacity d = AllFit (laws.view d).bookings (laws.view d).options

  -- A change of the bookings that a check has made room for keeps every option within capacity.
  pub Checked-AllFit :
      (k extra : ℕ) (exclude : Option ℕ) (d : Db) (after : List Booking)
      → Checked k extra exclude d
      → OptionIds d
      → ((j : ℕ)
          → booked j none after
            ≤ booked j exclude (laws.view d).bookings + (if k == j then extra else 0))
      → ((j : ℕ) → booked j exclude (laws.view d).bookings ≤ booked j none (laws.view d).bookings)
      → WithinCapacity d
      → AllFit after (laws.view d).options
  Checked-AllFit k extra exclude d after ok_room ids grows less h =
      let opt = ok_room.opt in
      let only =
        only_key (λ o. o.id) k (active_option_is k) (option_id k) (laws.view d).options opt
          ok_room.others ids ok_room.found in
      let (_, hit) =
        All-filter_head (λ o. Unit) (active_option_is k) (laws.view d).options opt ok_room.others
          ok_room.found (all_unit (laws.view d).options) in
      AllFit-change k extra (laws.view d).bookings after opt (laws.view d).options
        (λ j. omega (arith, grows j, less j))
        (RoomFor-mono opt.capacity_qtl (booked opt.id exclude (laws.view d).bookings)
          (booked opt.id none after) extra 0 (ground (arith, grows opt.id, option_id k opt hit))
          ok_room.room)
        only h
    where
      all_unit : (os : List LogisticsOption) → All (λ o. Unit {0}) os
      all_unit [] = tt
      all_unit (o ∷ os) = (tt, all_unit os)
