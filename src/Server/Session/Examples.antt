-- ===== src/Server/Session/Examples.antt =====
-- A nonce handed in twice, a session started and ended, and the witnesses of the theorems on them.
use accrue.Server.Session.{session_days}
use accrue.Server.Session.{start_session}
use accrue.Server.Session.{end_session}
use accrue.Base.Text.{same_text}
use accrue.Server.Session.{issue_nonce}
use accrue.Server.Session.{spend_nonce}
use accrue.Base.{ℕ, ◌≤◌, ◌≡◌, refl, none, some, List, [], ◌∷◌}
use accrue.Base.Text.{Text, text}
use accrue.Server.Env.{Environment}
use accrue.Server.Session.{wallet_of_the_session}
use accrue.Server.Session.History
use accrue.Server.Session.History.{
  starts, ends, table_after, promises_after, wallet_of_the_session-promised,
}
use accrue.Server.Session.Nonces
use accrue.Server.Session.Nonces.{issues, hands_in, times_spent, times_spent_at_most_once}
use accrue.Server.Session.Sessions.{answers}

abbrev environment : Environment
environment = record {
  variable = λ name. some (text "accrue.example");
  finite_number = λ name. none;
}

abbrev iso_string : ℕ → Text
iso_string now = text "2026-01-01"

abbrev same : Text → Text
same value = value

abbrev handed_in_twice : List Nonces.Event
handed_in_twice =
    issues (text "wallet") (text "nonce") 1_000
    ∷ hands_in (text "other") (text "nonce") 2_000
    ∷ hands_in (text "wallet") (text "nonce") 3_000
    ∷ hands_in (text "wallet") (text "nonce") 4_000
    ∷ issues (text "wallet") (text "nonce") 5_000
    ∷ hands_in (text "wallet") (text "nonce") 6_000
    ∷ []

spent_once : times_spent environment iso_string (text "nonce") handed_in_twice [] ≡ 1
unfolding times_spent spend_nonce issue_nonce same_text
spent_once = refl

times_spent_at_most_once_example :
    times_spent environment iso_string (text "nonce") handed_in_twice [] ≤ 1
times_spent_at_most_once_example =
    times_spent_at_most_once environment iso_string (text "nonce") handed_in_twice

abbrev one_ended : List History.Event
one_ended =
    starts (text "wallet") none (text "first") 1_000
    ∷ starts (text "wallet") none (text "second") 2_000
    ∷ ends (some (text "first")) 3_000
    ∷ []

the_second_lives :
    wallet_of_the_session same
      (some (text "second"))
      4_000
      (table_after environment same one_ended [])
    ≡ some (text "wallet")
unfolding wallet_of_the_session table_after end_session start_session same_text session_days
the_second_lives = refl

the_first_has_ended :
    wallet_of_the_session same
      (some (text "first"))
      4_000
      (table_after environment same one_ended [])
    ≡ none
unfolding wallet_of_the_session table_after end_session start_session same_text
the_first_has_ended = refl

wallet_of_the_session-promised_example :
    wallet_of_the_session same
      (some (text "second"))
      4_000
      (table_after environment same one_ended [])
    ≡ answers 4_000 (promises_after environment same one_ended (λ id. none) (text "second"))
wallet_of_the_session-promised_example =
    wallet_of_the_session-promised environment same one_ended (text "second") 4_000
