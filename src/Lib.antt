-- ===== src/Lib.antt =====
-- Krishi Bazaar (SIH26132): a verification library beside the Python backend.
--
-- The backend is a FastAPI service over a Supabase (PostgREST) database. Farmers offer lots of produce
-- to buyers, book storage and transport, record payments and file grievances; an admin verifies buyers
-- and closes grievances; jobs expire offers and send price alerts by SMS; an inbound SMS is answered
-- with a price and with the advice to sell, hold or wait. The modules follow these parts:
--
--   Prelude    shared names, Boolean tests, lists, a stable sort, signed integers.
--   Store      the rows of db/migrations/*.sql (Rows), the data service as the handlers use it
--              (Interface: a query, an update of the rows that a query selects, and an insert, for each
--              table), what is relied on of it (Laws), a service in memory that meets the laws
--              (Memory), rows with keys (Keys), and handlers (Handler: a state-passing action that
--              answers or raises a status code; what was written before a raise stays written).
--   Market     app/services/marketplace.py and the routers app/routers/payments.py, offers.py,
--              logistics.py, lots.py, grievances.py and admin.py. Each handler is one function with
--              the handler's name; its tail from the first write on is a function of its own
--              (settle, store_offer, write_booking, ...). Payments.Machine has the payment endpoints
--              as a state machine: any sequence of requests.
--   Matching   app/services/matching_engine.py: score_buyer, rank_buyers (Matching) and
--              score_lot_for_buyer, rank_lots_for_buyer (Matching.Reverse). sort_by of Prelude.Sort
--              is `list.sort`.
--   Access     app/auth.py and app/deps.py: the user of a request, and the guards of a role and of a user
--              that run before a handler.
--   Advice     notifications/sale_window.py: _supply_pressure and the decision (Advice.Supply),
--              compute_sale_window (Advice.Window) and the texts (Advice.Texts); app/routers/matching.py
--              with logistics_next_step of app/services/marketplace.py (Advice.Lot), which joins the
--              sale window, the ranking of buyers and the bookings of a lot.
--   Sms        notifications/alert_checker.py (Phone, Alerts), notifications/sms_gateway.py (Gateway),
--              notifications/inbound_verifier.py (Replay), app/routers/alerts.py (AlertApi), and
--              app/routers/sms.py: _allow_outbound (Outbound) and _process_inbound (Inbound), which uses
--              the prices, the advice and the matching.
--   Prices     ingestion/validator.py: the keys of names (Names) and the checks that a price passes
--              before it is stored (Validator), the series builders of forecasting/engine.py (Series,
--              District), and latest_price_for_user of notifications/prices.py (District).
--   Ingestion  ingestion/data_gov_in.py: the requests of fetch_prices (Pages), what an item becomes
--              (Records), and both together (Client); ingestion/runner.py: the reference data with
--              the row of a record (Metadata) and the run over the adapters (Runner), which validates
--              by Prices.Validator.
--   Forecast   forecasting/engine.py: the models (Models), _make_forecast_rows (Rows) and
--              ForecastEngine (Engine), which takes its series from Prices.Series; and
--              app/routers/forecasts.py (Served).
--   Jobs       the locks of app/services/jobs.py and app/routers/admin.py, which are SQL functions of
--              db/migrations/006_job_locks.sql (Locks), the jobs of app/services/jobs.py and
--              forecasting/runner.py and the triggers of app/routers/admin.py under these locks (Runs),
--              the ingestion job, the catch-up and the scheduler (Schedule).
--
-- Conventions. Ids, and texts that are only compared, are numbers; quantities and prices are in
-- hundredths (the columns are numeric(12, 2) and numeric(10, 2)), scores and distances in tenths,
-- instants in microseconds. A Python value that may be None is an Option. uuid4 and the clock are
-- arguments of the functions that use them. The clients of the user and of the service role are the
-- same service-role client in the source (app/deps.py), so there is one here. `limit(500)` is a
-- `take 500`. The tolerance of 1e-9 in app/routers/logistics.py absorbs the rounding of float sums and is
-- not written, since sums of hundredths are exact. The column value 'pending' of a payment is `unpaid`,
-- 'open' and 'rejected' of a grievance are `reported` and `dismissed`, 'open' of a lot is `open_lot`.
-- Loops over lists are structural recursion. Three loops take fuel: fetch_pages one round more than the
-- records that are still missing, since a round that goes on adds one at least; chunks the length of the
-- list; distinct_pairs one round more than there can be rows. The theorems on them say that it is enough.
--
-- Assumed of the data service (Store.Laws): a query answers with the rows that pass the filter, an
-- update writes those rows, returns them and touches nothing else, an insert stores its row or is
-- refused. Requests to it do not interleave inside one handler, but for the claims of alerts, which
-- are proved exclusive one by one. The calls of the SMS gateway are kept in the state, and are no
-- rows. Pages that are read without an order may each see the rows in another one. Other parameters,
-- each with its few named hypotheses: haversine_km (trigonometry; less than a million kilometres),
-- whether a name is only spaces, the HMAC, the reading of a timestamp, datetime.strptime, str.isdigit,
-- str.upper, str.lower, str.isspace, the check of a JWT, the answers of the SMS provider, the answers
-- of the API of data.gov.in, and floats with `float`, `round`, the square root and statistics.pstdev.
--
-- Not modelled: endpoints that only list rows, the dashboards, row level security and the other SQL
-- functions, configuration, middleware and logging, the English sentences of an advice, the scraper of
-- agmarknet, APScheduler itself, and the scripts and demos.
pub mod Prelude
pub mod Store
pub mod Market
pub mod Matching
pub mod Access
pub mod Advice
pub mod Sms
pub mod Prices
pub mod Ingestion
pub mod Forecast
pub mod Jobs
