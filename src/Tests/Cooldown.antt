-- ===== src/Tests/Cooldown.antt =====
-- Tests of the pause of the certificate authority.
use geata.Common.{ℕ, ◌≤◌, ◌≡◌, refl, true, false, Option, none, some, List, [], ◌∷◌, All}
use geata.Common.Text.{Text, text}
use geata.Cooldown.{Cooldown, Response, ready, retry_deadline, request}
use geata.Cooldown.Paused.{Event, requests, restarts, sent, request-pauses}

abbrev no_date : Text → Option ℕ
no_date _ = none

abbrev busy : Response
busy = record { status = 429; retry_after = some (text "100") }

abbrev fresh : Cooldown
fresh = record { until = 0; stored = none }

abbrev later : List Event
later = requests true 50 none ∷ restarts ∷ requests false 60 none ∷ requests true 200 none ∷ []

request-pauses_example :
    All (λ t. 111 ≤ t) (sent no_date later (request no_date true 10 (some busy) fresh).1)
unfolding ready retry_deadline
request-pauses_example = request-pauses no_date 10 111 busy fresh later refl refl

sent-later : sent no_date later (request no_date true 10 (some busy) fresh).1 ≡ 200 ∷ []
unfolding sent
sent-later = refl
