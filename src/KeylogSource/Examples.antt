-- ===== src/KeylogSource/Examples.antt =====
-- The theorems on the polled keylog at a file that is missing first and is written then.
use tlscap.Prelude.{ℕ, ◌≡◌, refl, Option, none, some, List, [], ◌∷◌, arith}
use tlscap.Text.{codes}
use tlscap.Keylog.{parse}
use tlscap.KeylogSource.{ok, not_found, KeylogSource, stat_signature, poll}
use tlscap.KeylogSource.Freshness.{
  Call, polled, missed, Until, run, FromReads, run-FromReads, poll-fresh,
}

abbrev decode : List ℕ → Option (List ℕ)
decode s = some s

abbrev keylog_text : List ℕ
keylog_text = codes "CLIENT_RANDOM ab cd"

abbrev opened : KeylogSource
opened = record {
  path = some (codes "keys.log");
  reload_interval = 5;
  last_reload_attempt = 10;
  last_seen = stat_signature none;
  current = parse decode [];
}

abbrev calls : List Call
calls =
    polled 12 (ok keylog_text) (some (some 1, 19))
    ∷ missed none 16 not_found none
    ∷ polled 21 (ok keylog_text) (some (some 1, 19))
    ∷ []

run-FromReads_example : FromReads decode opened.current calls (run decode calls opened).current
run-FromReads_example = run-FromReads decode calls opened

poll-fresh_example :
    ((poll decode 30 (ok keylog_text) (some (some 2, 19)) (run decode calls opened)).current
      ≡ parse decode keylog_text)
    × ((poll decode 30 (ok keylog_text) (some (some 2, 19)) (run decode calls opened)).last_seen
        ≡ stat_signature (some (some 2, 19)))
unfolding Until
poll-fresh_example =
    poll-fresh decode (codes "keys.log") calls 21 30 keylog_text (some (some 2, 19)) opened refl
      (omega arith) (omega arith, (omega arith, (omega arith, tt))) (omega arith)
