-- ===== src/Saturn/Scheduler/Tests.antt =====
-- Concrete runs of the scheduler of src/runner.rs: a rule whose limit is two matches.
use aiiiia.Saturn.Scheduler.{
  BackoffScheduler, default_scheduler, entry_of, fresh_stats, stats_for, banned_stats, search,
  can_stop,
}
use aiiiia.Saturn.Scheduler.Bans.{IsWithinLimit, can_stop-again, search_lem, search-banned}
use aiiiia.Prelude.{◌⊎◌, ◌≡◌, refl, ◌⊎◌, true, List, [], ◌∷◌, arith, ℕ}

abbrev strict_scheduler : BackoffScheduler
strict_scheduler = record default_scheduler { default_match_limit = 2 }

abbrev one_match : ℕ → ℕ
one_match m = 1

abbrev match_len : ℕ → ℕ
match_len m = m

abbrev three_matches : List ℕ
three_matches = 4 ∷ 5 ∷ 6 ∷ []

search_lem_example :
    (((search match_len 0 9 three_matches strict_scheduler).0 ≡ three_matches)
      × IsWithinLimit match_len 0 three_matches (stats_for 9 strict_scheduler))
    ⊎ (((search match_len 0 9 three_matches strict_scheduler).0 ≡ [])
        × (¬ IsWithinLimit match_len 0 three_matches (stats_for 9 strict_scheduler)))
unfolding stats_for entry_of
search_lem_example =
    search_lem match_len 0 9 three_matches strict_scheduler (omega arith) (omega arith)

search-banned_example :
    ((search one_match 0 9 three_matches strict_scheduler).0 ≡ [])
    × ((search one_match 4 9 (4 ∷ []) (search one_match 0 9 three_matches strict_scheduler).1).0
        ≡ [])
unfolding stats_for entry_of
search-banned_example =
    search-banned one_match 0 9 4 three_matches (4 ∷ []) strict_scheduler (omega arith)
      (omega arith) (omega arith) (omega arith)

abbrev one_banned : BackoffScheduler
one_banned = record default_scheduler {
  stats = (9, banned_stats 0 (fresh_stats default_scheduler)) ∷ [];
}

can_stop-again_example : (can_stop 3 (can_stop 2 one_banned).1).0 ≡ true
unfolding can_stop
can_stop-again_example = can_stop-again 2 3 one_banned (omega arith) refl
