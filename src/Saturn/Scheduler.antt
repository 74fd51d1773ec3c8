-- ===== src/Saturn/Scheduler.antt =====
-- src/runner.rs: the scheduler that bans rules which match too often. A rule's name is a number, the map
-- of statistics is a list of pairs with a name at most once, and a usize has 64 bits.
pub mod Bans
mod Tests
use aiiiia.Prelude.Int.{as_u64}
use aiiiia.Prelude.{
  ◌==◌, ◌||◌, ◌+◌, ◌-◌, ◌*◌, ◌^◌, min, Bool, true, false, ◌||◌, Option, none, some, List, [], ◌∷◌,
  ◌++◌, ltb, if◌then◌else◌, ℕ,
}

pub record RuleStats : Type 0 where
  pub times_applied : ℕ
  pub banned_until : ℕ
  pub times_banned : ℕ
  pub match_limit : ℕ
  pub ban_length : ℕ

pub record BackoffScheduler : Type 0 where
  pub default_match_limit : ℕ
  pub default_ban_length : ℕ
  pub stats : List (ℕ × RuleStats)
  pub banned_this_iter : List ℕ
  pub current_iteration : ℕ

abbrev pub default_scheduler : BackoffScheduler
default_scheduler = record {
  default_match_limit = 1_000;
  default_ban_length = 5;
  stats = [];
  banned_this_iter = [];
  current_iteration = 2 ^ 64 - 1;
}

-- The map's entry for a name.
unfoldable pub entry_of : ℕ → List (ℕ × RuleStats) → Option RuleStats
entry_of name [] = none
entry_of name ((other, s) ∷ stats) = if other == name then some s else entry_of name stats

unfoldable pub put_entry : ℕ → RuleStats → List (ℕ × RuleStats) → List (ℕ × RuleStats)
put_entry name s [] = (name, s) ∷ []
put_entry name s ((other, t) ∷ stats) =
    if other == name then (name, s) ∷ stats else (other, t) ∷ put_entry name s stats

abbrev pub fresh_stats : BackoffScheduler → RuleStats
fresh_stats b = record {
  times_applied = 0;
  banned_until = 0;
  times_banned = 0;
  match_limit = b.default_match_limit;
  ban_length = b.default_ban_length;
}

unfoldable pub stats_for : ℕ → BackoffScheduler → RuleStats
stats_for name b = elim (entry_of name b.stats) [ none ↦ fresh_stats b | some s ↦ s ]

-- `x << s.times_banned.min(16)`
abbrev pub doubled : RuleStats → ℕ → ℕ
doubled s x = as_u64 (x * 2 ^ min s.times_banned 16)

abbrev pub threshold : RuleStats → ℕ
threshold s = doubled s s.match_limit

abbrev pub banned_stats : ℕ → RuleStats → RuleStats
banned_stats iteration s = record s {
  times_banned = as_u64 (s.times_banned + 1);
  banned_until = as_u64 (iteration + doubled s s.ban_length);
}

-- The first search of an iteration drops the list of the one before.
abbrev pub begin_iteration : ℕ → BackoffScheduler → BackoffScheduler
begin_iteration iteration b =
    if b.current_iteration == iteration
    then b
    else record b { current_iteration = iteration; banned_this_iter = [] }

-- Changes the entry of a rule; `put_entry` makes it where `entry` would have inserted it.
abbrev pub with_stats : ℕ → RuleStats → BackoffScheduler → BackoffScheduler
with_stats name s b = record b { stats = put_entry name s b.stats }

abbrev pub with_banned : ℕ → BackoffScheduler → BackoffScheduler
with_banned name b = record b { banned_this_iter = b.banned_this_iter ++ name ∷ [] }

module _ {M : Type 0} (len : M → ℕ) where
  abbrev pub total : List M → ℕ
  total [] = 0
  total (m ∷ matches) = as_u64 (len m + total matches)

  -- What becomes of the matches of a rule that is not banned.
  abbrev pub admit : ℕ → ℕ → List M → RuleStats → BackoffScheduler → List M × BackoffScheduler
  admit iteration name matches s b =
      if ltb (threshold s) (total matches)
      then ([], with_banned name (with_stats name (banned_stats iteration s) b))
      else (
        matches,
        with_stats name (record s { times_applied = as_u64 (s.times_applied + total matches) }) b,
      )

  -- A rule that is still banned is not run.
  abbrev pub search_begun :
      ℕ → ℕ → List M → RuleStats → BackoffScheduler → List M × BackoffScheduler
  search_begun iteration name matches s b =
      if ltb iteration s.banned_until
      then ([], with_banned name (with_stats name s b))
      else admit iteration name matches s b

  -- `matches` is what the rule finds in the e-graph.
  unfoldable pub search : ℕ → ℕ → List M → BackoffScheduler → List M × BackoffScheduler
  search iteration name matches b =
      let begun = begin_iteration iteration b in
      search_begun iteration name matches (stats_for name begun) begun

-- Lifts the bans that still run, and says whether there was none.
abbrev pub is_banned : ℕ → ℕ × RuleStats → Bool
is_banned iteration (name, s) = ltb iteration s.banned_until

abbrev pub still_banned : ℕ → List (ℕ × RuleStats) → Bool
still_banned iteration [] = false
still_banned iteration (entry ∷ stats) = is_banned iteration entry || still_banned iteration stats

abbrev pub unban : ℕ → List (ℕ × RuleStats) → List (ℕ × RuleStats)
unban iteration [] = []
unban iteration ((name, s) ∷ stats) =
    (name, if ltb iteration s.banned_until then record s { banned_until = iteration } else s)
    ∷ unban iteration stats

unfoldable pub can_stop : ℕ → BackoffScheduler → Bool × BackoffScheduler
can_stop iteration b =
    if still_banned iteration b.stats
    then (false, record b { stats = unban iteration b.stats })
    else (true, b)
