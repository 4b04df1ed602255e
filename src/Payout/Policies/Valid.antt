-- ===== src/Payout/Policies/Valid.antt =====
-- What the checks of `PayoutPolicy::parse` establish.
use geata.Common.{
  ℕ, ◌+◌, ◌≤◌, ◌≡◌, true, ◌||◌, Option, none, some, List, [], ◌∷◌, arith, u64_max, is_some, String,
  ok_or,
}
use geata.Common.Map.{Map, get}
use geata.Common.Post.{Post, Any, result-Post, ok-Post, err-Post, bind-Post}
use geata.Common.Text.{Text, text, text_Key}
use geata.Payout.Policies.{
  PayoutPolicy, split_last, unit_of, seconds_of, parse_interval, optional, parse_u64, with_request,
  parse_fields, read, parse,
}
use geata.Payout.Request.{PaymentRequest, validate_request, checked_request, with_amount, amount_of}
use geata.Url.{Parsers, parse_mint}

abbrev pub IsInterval : Option ℕ → Type 0
IsInterval none = Unit
IsInterval (some n) = (1 ≤ n) × (n ≤ 31_536_000)

abbrev IsThreshold : Option ℕ → Type 0
IsThreshold none = Unit
IsThreshold (some n) = 1 ≤ n

-- An amount that fits with its fee, and a reason to pay.
abbrev pub IsPayout : PayoutPolicy → Type 0
IsPayout policy =
    (1 ≤ policy.amount)
    × ((policy.amount + policy.max_fee ≤ u64_max)
        × (IsInterval policy.interval
            × (IsThreshold policy.threshold
                × ((is_some policy.interval || is_some policy.threshold) ≡ true))))

seconds_of-bound :
    (digits : Text) (o : Option ℕ)
    → Post Any (λ n. (1 ≤ n) × (n ≤ 31_536_000)) (seconds_of digits o)
seconds_of-bound digits none = err-Post tt
seconds_of-bound digits (some m) = record { holds = ground arith }

parse_interval-bound :
    (value : Text) → Post Any (λ n. (1 ≤ n) × (n ≤ 31_536_000)) (parse_interval value)
unfolding parse_interval
parse_interval-bound [] = err-Post tt
parse_interval-bound (c ∷ s) = seconds_of-bound (split_last c s).0 (unit_of (split_last c s).1)

optional-IsInterval : (o : Option Text) → Post Any IsInterval (optional parse_interval o)
optional-IsInterval none = ok-Post tt
optional-IsInterval (some value) =
    bind-Post (parse_interval value) _ (parse_interval-bound value) λ n h. ok-Post h

-- The amount of a validated request is positive.
abbrev IsPaid : Option (PaymentRequest × ℕ) → Type 0
IsPaid none = Unit
IsPaid (some (_, n)) = 1 ≤ n

module _ (parsers : Parsers) where
  with_amount-IsPaid :
      (request : PaymentRequest) (wanted : Option ℕ)
      → IsPaid (with_amount parsers request (amount_of request.amount wanted))
  unfolding amount_of
  with_amount-IsPaid request wanted = ground arith

  checked_request-IsPaid :
      (mint : Text) (wanted : Option ℕ) (o : Option PaymentRequest)
      → IsPaid (checked_request parsers mint wanted o)
  unfolding checked_request
  checked_request-IsPaid mint wanted none = tt
  checked_request-IsPaid mint wanted (some request) =
      ground (arith, with_amount-IsPaid request wanted)

module _ (parsers : Parsers) (from_str : Text → Option PaymentRequest) where
  validate_request-IsPaid :
      (encoded mint : Text) (wanted : Option ℕ)
      → IsPaid (validate_request from_str parsers encoded mint wanted)
  unfolding validate_request
  validate_request-IsPaid encoded mint wanted =
      ground (arith, checked_request-IsPaid parsers mint wanted (from_str encoded))

  paid-Post :
      (o : Option (PaymentRequest × ℕ)) (message : String)
      → IsPaid o
      → Post Any (λ (r : PaymentRequest × ℕ). 1 ≤ r.1) (ok_or o message)
  paid-Post none message h = err-Post tt
  paid-Post (some r) message h = ok-Post h

  with_request-IsPayout :
      (fields : Map Text Text) (mint : Text) (paid : PaymentRequest × ℕ)
      → 1 ≤ paid.1
      → Post Any IsPayout (with_request parsers from_str fields mint paid)
  with_request-IsPayout fields mint (request, amount) h = record {
    holds = ground (arith, (optional-IsInterval (get (text "interval") fields)).holds);
  }

  parse_fields-IsPayout :
      (fields : Map Text Text) → Post Any IsPayout (parse_fields parsers from_str fields)
  parse_fields-IsPayout fields =
      bind-Post (ok_or (get (text "mint") fields) "payout requires mint") _ (result-Post _)
        λ mint_text _. bind-Post (parse_mint parsers mint_text) _ (result-Post _) λ mint _.
          bind-Post (optional (parse_u64 "invalid payout amount") (get (text "amount") fields)) _
            (result-Post _)
            λ wanted _.
              bind-Post (ok_or (get (text "request") fields) "payout requires request") _
                (result-Post _)
                λ encoded _.
                  bind-Post
                    (ok_or (validate_request from_str parsers encoded mint wanted)
                      "invalid payment request")
                    _
                    (paid-Post (validate_request from_str parsers encoded mint wanted) _
                      (validate_request-IsPaid encoded mint wanted))
                    λ paid p. with_request-IsPayout fields mint paid p

  pub parse-IsPayout : (args : List Text) → Post Any IsPayout (parse parsers from_str args)
  unfolding parse
  parse-IsPayout args =
      bind-Post (read parsers from_str args) _ (result-Post _)
        λ fields _. parse_fields-IsPayout fields
