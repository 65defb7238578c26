-- ===== src/Prices/Series.antt =====
-- forecasting/engine.py: `build_daily_series`, one price for each day. Days are numbers; a price is in
-- hundredths.
pub mod Choice
pub mod Cover
use sih.Prelude.{
  Bool, List, Option, [], filter, head?, if◌then◌else◌, leb, ltb, map, none, or_else, some, ℕ, ◌==◌,
  ◌∷◌,
}
use sih.Prelude.Sort.{sort_by}
use sih.Market.Reliability.{mem}
use sih.Matching.{kept}

pub data Source : Type 0 where
  data_gov_in agmarknet manual manual_seed : Source
  unlisted_source : Source

-- The number that stands for the variety "General".
abbrev pub general_variety : ℕ
general_variety = 0

pub record Observation : Type 0 where
  pub day : ℕ
  pub source : Source
  pub variety : Option ℕ
  pub modal : ℕ

abbrev pub source_rank : Source → ℕ
source_rank data_gov_in = 1
source_rank agmarknet = 2
source_rank manual = 3
source_rank manual_seed = 4
source_rank unlisted_source = 99

abbrev pub rank_of : Observation → ℕ
rank_of r = source_rank r.source

-- `(variety or "General") == "General"`
abbrev pub is_general : Observation → Bool
is_general r = or_else r.variety general_variety == general_variety

-- `min(…)` of the ranks, from the first on.
abbrev pub min_rank : ℕ → List Observation → ℕ
min_rank m [] = m
min_rank m (r ∷ rs) = min_rank (if ltb (rank_of r) m then rank_of r else m) rs

abbrev pub first_of : List Observation → List Observation → Option Observation
first_of (r ∷ _) _ = some r
first_of [] rs = head? rs

-- The row of a day: of the best source, and of the general variety if there is one.
unfoldable pub choose : List Observation → Option Observation
choose [] = none
choose (r ∷ rs) =
    let candidates = filter (λ x. rank_of x == min_rank (rank_of r) rs) (r ∷ rs) in
    first_of (filter is_general candidates) candidates

abbrev pub on_day : ℕ → Observation → Bool
on_day d r = r.day == d

-- The keys of `by_date`, in their order.
unfoldable pub days_of : List ℕ → List Observation → List ℕ
days_of seen [] = []
days_of seen (r ∷ rs) =
    let skipped = days_of seen rs in
    let taken = days_of (r.day ∷ seen) rs in if mem r.day seen then skipped else r.day ∷ taken

abbrev pub point : ℕ → Option Observation → Option (ℕ × ℕ)
point d none = none
point d (some r) = some (d, r.modal)

abbrev pub earlier : ℕ × ℕ → ℕ × ℕ → Bool
earlier a b = leb a.0 b.0

unfoldable pub build_daily_series : List Observation → List (ℕ × ℕ)
unfolding choose days_of
build_daily_series rows =
    sort_by earlier (kept (map (λ d. point d (choose (filter (on_day d) rows))) (days_of [] rows)))
